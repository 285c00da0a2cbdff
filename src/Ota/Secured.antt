-- ===== src/Ota/Secured.antt =====
-- What the checks of main/iap_https.c send, and where to.
use esp32_ota_https.Prelude.{
  if◌then◌else◌, ℤ, pos, is_zero, done, ◌>>=◌, Ensures, Ensures->>=, Ensures-trivial, Ensures-both,
  ℕ, ◌≡◌, ◌⊎◌, inl, inr, false, Option, none, some, List, arith,
}
use esp32_ota_https.Flash.{Platform}
use esp32_ota_https.Http.{
  HttpErr, success, invalid_args, out_of_memory, not_implemented, buffer_too_small, send_failed,
  invalid_status_line, version_not_supported, non_200_status_code, HttpRequest, HttpContext,
  Exchange, https_validate_request,
}
use esp32_ota_https.Http.Callback.{https_tls_callback}
use esp32_ota_https.Http.Request.{
  Mallocs, https_create_context_for_request, Sent, send_with_context, send_valid_request,
  https_send_request,
}
use esp32_ota_https.Tls.{Mbedtls, Tls}
use esp32_ota_https.Tls.Secured.{
  IsSecured, SentSecurely, connect-IsSecured, wifi_tls_send_request-Secured,
}
use esp32_ota_https.Ota.Task.{
  System, http_metadata_request, http_firmware_data_request, connect, iap_https_check_for_update,
  request_image, iap_https_download_image, download-Ensures,
}

-- Whatever a connection has sent so far went over a connection that had passed all checks.
abbrev pub SecureSoFar : {Cert : Type 0} → Option (Tls Cert) → Type 0
SecureSoFar none = Unit
SecureSoFar (some c) = SentSecurely c.log

module _ {Cert A : Type 0} (m : Mbedtls Cert) (r : HttpRequest A) where
  abbrev SentSecure : Sent Cert A → Type 0
  SentSecure out = SecureSoFar out.tls

  send_valid_request-SentSecure :
      (mem : Mallocs) (request_nr : ℕ) (tls : Tls Cert) (buffer : List ℕ) (app : A)
      → SentSecurely tls.log
      → IsSecured tls.log
      → Ensures SentSecure (send_valid_request m mem request_nr tls r buffer app)
  unfolding send_valid_request send_with_context
  send_valid_request-SentSecure mem request_nr tls buffer app h secured =
      let created = https_create_context_for_request mem request_nr r in
      Ensures->>= (λ _. Unit {0}) SentSecure created _ (Ensures-trivial created)
        (λ out _. go out.0 out.1 out.2)
    where
      go :
          (nr : ℕ) (e : HttpErr) (context : Option HttpContext)
          → Ensures SentSecure (elim context [
            | none ↦
                done (record {
                  result = e;
                  request_nr = nr;
                  tls = some tls;
                  buffer = buffer;
                  app = app;
                })
            | some c ↦ send_with_context m r c tls buffer app >>= λ out. done (record {
              result = if is_zero out.0 then success else send_failed;
              request_nr = nr;
              tls = some out.1;
              buffer = out.2.buffer;
              app = out.2.app;
            })
          ])
      go nr e none = h
      go nr e (some c) =
          let x : Exchange A = record { context = c; buffer = buffer; app = app } in
          Ensures->>= (λ out. SentSecurely out.1.log) SentSecure
            (send_with_context m r c tls buffer app) _
            (wifi_tls_send_request-Secured m (https_tls_callback r) tls c.tls_request_buffer
              c.tls_request_buffer_size x h secured)
            (λ out kept. kept)

  https_send_request-SentSecure :
      (mem : Mallocs) (request_nr : ℕ) (tls : Tls Cert) (buffer : List ℕ) (app : A)
      → SentSecurely tls.log
      → IsSecured tls.log
      → Ensures SentSecure (https_send_request m mem request_nr (some tls) (some r) buffer app)
  unfolding https_send_request
  https_send_request-SentSecure mem request_nr tls buffer app h secured =
      go (https_validate_request (some r))
    where
      go :
          (e : HttpErr)
          → Ensures SentSecure (elim e [
            | success ↦ send_valid_request m mem request_nr tls r buffer app
            | e' ↦ done (record {
              result = e';
              request_nr = request_nr;
              tls = some tls;
              buffer = buffer;
              app = app;
            })
          ])
      go success = send_valid_request-SentSecure mem request_nr tls buffer app h secured
      go invalid_args = h
      go out_of_memory = h
      go not_implemented = h
      go buffer_too_small = h
      go send_failed = h
      go invalid_status_line = h
      go version_not_supported = h
      go non_200_status_code = h

module _ {Cert : Type 0} (p : Platform) (m : Mbedtls Cert) (mem : ℕ → Mallocs) where
  abbrev Connected : ℤ × Tls Cert → Type 0
  Connected out =
      SentSecurely out.1.log × ((out.0 ≡ pos 0) × IsSecured out.1.log ⊎ (is_zero out.0 ≡ false))

  connect-Connected :
      (context : Option (Tls Cert))
      → SecureSoFar context
      → Ensures Connected (connect p m mem context)
  unfolding connect
  connect-Connected none h = tt
  connect-Connected (some c) h = connect-IsSecured m c h

  abbrev pub SystemSecure : System Cert → Type 0
  SystemSecure s = SecureSoFar s.tls_context

  -- A check for an update sends nothing but over a connection that was opened with success, whose
  -- handshake was completed, whose certificate was verified and whose key was pinned, in this order;
  -- whatever the server answers, and whatever fails.
  pub iap_https_check_for_update-SystemSecure :
      (s : System Cert)
      → SystemSecure s
      → Ensures SystemSecure (iap_https_check_for_update p m mem s)
  unfolding iap_https_check_for_update
  iap_https_check_for_update-SystemSecure s h =
      let r = http_metadata_request s.ota.config s.metadata_buffer in
      Ensures->>= Connected SystemSecure (connect p m mem s.tls_context) _
        (connect-Connected s.tls_context h)
        (λ (tls_result, c) (kept, end_state). elim end_state [
          | inl good ↦ rw (good.0) (
              Ensures->>= (SentSecure m r) SystemSecure
                (https_send_request m (mem s.request_nr) s.request_nr (some c) (some r)
                  s.metadata_buffer s.ota)
                _
                (https_send_request-SentSecure m r (mem s.request_nr) s.request_nr c
                  s.metadata_buffer s.ota kept (good.1))
                (λ out secure. secure))
          | inr bad ↦ rw bad kept
        ])

  -- The same for a request for an image, up to its end or to a restart.
  pub request_image-SystemSecure :
      (s : System Cert)
      → SystemSecure s
      → Ensures (λ out. out.0 ≡ pos 0) (connect p m mem s.tls_context)
      → Ensures SystemSecure (request_image p m mem s)
  unfolding request_image
  request_image-SystemSecure s h opens =
      let r = http_firmware_data_request p s.ota.config s.firmware_buffer in
      let o = record (s.ota) { has_iap_session = false } in
      Ensures->>= (λ out. Connected out × (out.0 ≡ pos 0)) SystemSecure
        (connect p m mem s.tls_context) _
        (Ensures-both Connected (λ out. out.0 ≡ pos 0) (connect p m mem s.tls_context)
          (connect-Connected s.tls_context h) opens)
        (λ out (well, good).
          let (kept, secured) = connected_well out well good in
          Ensures->>= (SentSecure m r) SystemSecure
            (https_send_request m (mem s.request_nr) s.request_nr (some out.1) (some r)
              s.firmware_buffer o)
            _
            (https_send_request-SentSecure m r (mem s.request_nr) s.request_nr out.1
              s.firmware_buffer o kept secured)
            (λ last secure. secure))
    where
      connected_well :
          (out : ℤ × Tls Cert)
          → Connected out
          → out.0 ≡ pos 0
          → SentSecurely out.1.log × IsSecured out.1.log
      connected_well out (kept, inl good) e = (kept, good.1)
      connected_well out (kept, inr bad) e = absurd (ground (arith, bad, e))

  -- A download sends nothing but over such a connection, if `wifi_tls_connect` returns 0 for it or
  -- does not return.
  pub iap_https_download_image-SystemSecure :
      (s : System Cert)
      → SystemSecure s
      → Ensures (λ out. out.0 ≡ pos 0) (connect p m mem s.tls_context)
      → Ensures SystemSecure (iap_https_download_image p m mem s)
  iap_https_download_image-SystemSecure s h opens =
      download-Ensures p m mem SystemSecure s (request_image-SystemSecure s h opens)
