-- ===== src/Http/Kept.antt =====
-- A whole request, `https_send_request` of main/https_client.c: what the application's callbacks keep,
-- it keeps, however it ends.
use esp32_ota_https.Prelude.{
  if◌then◌else◌, ℤ, pos, negsuc, is_zero, Run, done, ◌>>=◌, Ensures, Ensures->>=, Ensures-trivial,
  Ensures-if, ℕ, zero, suc, ◌+◌, Bool, Option, none, some, List, [], ◌∷◌,
}
use esp32_ota_https.Http.{
  HttpErr, success, invalid_args, out_of_memory, not_implemented, buffer_too_small, send_failed,
  invalid_status_line, version_not_supported, non_200_status_code, HttpRequest, HttpContext,
  Exchange, https_validate_request,
}
use esp32_ota_https.Http.Callback.{https_tls_callback}
use esp32_ota_https.Http.Request.{
  Mallocs, https_create_context_for_request, Sent, send_with_context, send_valid_request,
  https_send_request,
}
use esp32_ota_https.Http.Frame.{CallbacksKeep, https_tls_callback-Keeps}
use esp32_ota_https.Tls.{Mbedtls, Tls, wants_more}
use esp32_ota_https.Tls.Connection.{write_loop, read_loop, wifi_tls_send_request}

module _ {Cert S : Type 0} (m : Mbedtls Cert) (callback : ℕ → List ℕ → ℕ → S → Run (Bool × S))
    (Kept : S → Type 0)
    (keep : (index : ℕ) (tls_buffer : List ℕ) (len : ℕ) (s : S)
      → Kept s
      → Ensures (λ out. Kept out.1) (callback index tls_buffer len s)) where
  read_loop-Kept :
      (replies : List (ℤ × List ℕ)) (c : Tls Cert) (index : ℕ) (s : S)
      → Kept s
      → Ensures (λ out. Kept out.2) (read_loop m callback c index s replies)
  unfolding read_loop
  read_loop-Kept [] c index s h = tt
  read_loop-Kept ((pos zero, b) ∷ replies) c index s h = h
  read_loop-Kept ((pos (suc k), b) ∷ replies) c index s h =
      Ensures->>= (λ out. Kept out.1) (λ out. Kept out.2) (callback index b (suc k) s) _
        (keep index b (suc k) s h)
        (λ out kept.
          Ensures-if (λ last. Kept last.2) out.0 _ _
            (read_loop-Kept replies c (index + 1) out.1 kept) kept)
  read_loop-Kept ((negsuc k, b) ∷ replies) c index s h =
      Ensures-if (λ out. Kept out.2) (wants_more m (negsuc k)) _ _
        (read_loop-Kept replies c index s h) h

  wifi_tls_send_request-Kept :
      (c : Tls Cert) (request : List ℕ) (len : ℕ) (s : S)
      → Kept s
      → Ensures (λ out. Kept out.2) (wifi_tls_send_request m callback c request len s)
  unfolding wifi_tls_send_request
  wifi_tls_send_request-Kept c request len s h =
      let written = write_loop m c request len c.net.write_replies in
      Ensures->>= (λ _. Unit {0}) (λ out. Kept out.2) written _ (Ensures-trivial written)
        (λ out _.
          Ensures-if (λ last. Kept last.2) out.0 _ _
            (read_loop-Kept out.1.net.read_replies out.1 0 s h) h)

module _ {Cert A : Type 0} (m : Mbedtls Cert) (Kept : A → Type 0) (r : HttpRequest A)
    (keep : CallbacksKeep Kept r) where
  abbrev pub KeptLast : Sent Cert A → Type 0
  KeptLast out = Kept out.app

  send_valid_request-Kept :
      (mem : Mallocs) (request_nr : ℕ) (tls : Tls Cert) (buffer : List ℕ) (app : A)
      → Kept app
      → Ensures KeptLast (send_valid_request m mem request_nr tls r buffer app)
  unfolding send_valid_request send_with_context
  send_valid_request-Kept mem request_nr tls buffer app h =
      let created = https_create_context_for_request mem request_nr r in
      Ensures->>= (λ _. Unit {0}) KeptLast created _ (Ensures-trivial created)
        (λ out _. go out.0 out.1 out.2)
    where
      go :
          (nr : ℕ) (e : HttpErr) (context : Option HttpContext)
          → Ensures KeptLast (elim context [
            | none ↦
                done (record {
                  result = e;
                  request_nr = nr;
                  tls = some tls;
                  buffer = buffer;
                  app = app;
                })
            | some c ↦ send_with_context m r c tls buffer app >>= λ out. done (record {
              result = if is_zero out.0 then success else send_failed;
              request_nr = nr;
              tls = some out.1;
              buffer = out.2.buffer;
              app = out.2.app;
            })
          ])
      go nr e none = h
      go nr e (some c) =
          let x : Exchange A = record { context = c; buffer = buffer; app = app } in
          Ensures->>= (λ out. Kept out.2.app) KeptLast (send_with_context m r c tls buffer app) _
            (wifi_tls_send_request-Kept m (https_tls_callback r) (λ y. Kept y.app)
              (https_tls_callback-Keeps Kept r keep) tls c.tls_request_buffer
              c.tls_request_buffer_size x h)
            (λ out kept. kept)

  -- A request keeps each property of the application that its two callbacks keep: for every
  -- response, every failure of the connection or of an allocation, and where the arguments are not
  -- valid.
  pub https_send_request-Kept :
      (mem : Mallocs) (request_nr : ℕ) (tls : Option (Tls Cert)) (buffer : List ℕ) (app : A)
      → Kept app
      → Ensures KeptLast (https_send_request m mem request_nr tls (some r) buffer app)
  unfolding https_send_request
  https_send_request-Kept mem request_nr none buffer app h = h
  https_send_request-Kept mem request_nr (some tls) buffer app h =
      go (https_validate_request (some r))
    where
      go :
          (e : HttpErr)
          → Ensures KeptLast (elim e [
            | success ↦ send_valid_request m mem request_nr tls r buffer app
            | e' ↦ done (record {
              result = e';
              request_nr = request_nr;
              tls = some tls;
              buffer = buffer;
              app = app;
            })
          ])
      go success = send_valid_request-Kept mem request_nr tls buffer app h
      go invalid_args = h
      go out_of_memory = h
      go not_implemented = h
      go buffer_too_small = h
      go send_failed = h
      go invalid_status_line = h
      go version_not_supported = h
      go non_200_status_code = h
