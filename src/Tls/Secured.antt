-- ===== src/Tls/Secured.antt =====
-- The bytes that main/wifi_tls.c sends, and the connections that they go over.
use esp32_ota_https.Prelude.{
  ◌==◌, Bool-cases, ℤ, pos, negsuc, is_zero, take, drop, Run, Ensures, Ensures->>=, Ensures-mono,
  Ensures-trivial, Ensures-if, Ensures-both, ℕ, zero, suc, ◌+◌, ◌-◌, ◌%◌, ◌^◌, ◌≡◌, ◌⊎◌, inl, inr,
  Bool, false, List, [], ◌∷◌, arith,
}
use esp32_ota_https.CText.{sprintf_int}
use esp32_ota_https.Tls.{
  connected, handshaken, verified, pinned, sent, disconnected, reset, TlsLog, Mbedtls, Tls,
  wifi_tls_reset_context, wifi_tls_disconnect, init_steps, wifi_tls_init_context, wants_more,
  handshake_loop, wifi_tls_handshake,
}
use esp32_ota_https.Tls.Pinning.{wifi_tls_cert_pinning}
use esp32_ota_https.Tls.Connection.{
  port_buf_size, check_pinning, check_certificates, connect_to_port, open_connection,
  wifi_tls_connect, write_loop, read_loop, wifi_tls_send_request,
}
use esp32_ota_https.Tls.Trust.{Established, ConnectDone, wifi_tls_connect-done}

-- The last call but the writes has completed a connection that has passed all checks.
abbrev pub IsSecured : TlsLog → Type 0
IsSecured (sent bytes ∷ log) = IsSecured log
IsSecured log = Established log

-- Whatever was sent went over such a connection.
abbrev pub SentSecurely : TlsLog → Type 0
SentSecurely [] = Unit
SentSecurely (sent bytes ∷ log) = IsSecured log × SentSecurely log
SentSecurely (_ ∷ log) = SentSecurely log

Established-IsSecured : (log : TlsLog) → Established log → IsSecured log
Established-IsSecured [] h = h
Established-IsSecured (connected r ∷ log) h = h
Established-IsSecured (handshaken r ∷ log) h = h
Established-IsSecured (verified r ∷ log) h = h
Established-IsSecured (pinned r ∷ log) h = h
Established-IsSecured (sent bytes ∷ log) h = absurd h
Established-IsSecured (disconnected ∷ log) h = h
Established-IsSecured (reset ∷ log) h = h

module _ {Cert : Type 0} (m : Mbedtls Cert) where
  abbrev pub Secured : {B : Type 0} → B × Tls Cert → Type 0
  Secured out = SentSecurely out.1.log

  check_pinning-Secured : (c : Tls Cert) → SentSecurely c.log → Ensures Secured (check_pinning m c)
  unfolding check_pinning wifi_tls_disconnect wifi_tls_reset_context
  check_pinning-Secured c h =
      let checked = wifi_tls_cert_pinning m c in
      Ensures->>= (λ _. Unit {0}) Secured checked _ (Ensures-trivial checked)
        (λ result _. elim (Bool-cases (is_zero result)) [
          | inl good ↦ rw good h
          | inr bad ↦ rw bad h
        ])

  check_certificates-Secured :
      (result : ℤ) (c : Tls Cert)
      → SentSecurely c.log
      → Ensures Secured (check_certificates m result c)
  unfolding check_certificates wifi_tls_disconnect wifi_tls_reset_context
  check_certificates-Secured result c h =
      let v = m.ssl_get_verify_result c.log in
      Ensures-if Secured (is_zero result) _ _
        (Ensures-if Secured (v == 0) _ _
          (check_pinning-Secured (record c { log = verified v ∷ c.log }) h) h)
        h

  handshake-Secured : (c : Tls Cert) → SentSecurely c.log → Ensures Secured (wifi_tls_handshake m c)
  unfolding wifi_tls_handshake
  handshake-Secured c h =
      let replies = handshake_loop m c.net.handshake_replies in
      Ensures->>= (λ _. Unit {0}) Secured replies _ (Ensures-trivial replies) (λ out _. h)

  connect_to_port-Secured :
      (c : Tls Cert) (port : List ℕ)
      → SentSecurely c.log
      → Ensures Secured (connect_to_port m c port)
  unfolding connect_to_port wifi_tls_reset_context
  connect_to_port-Secured c port h =
      let d = m.net_connect c.log c.server_host_name port in
      let c' = record c { log = connected d ∷ c.log } in
      Ensures-if Secured (is_zero d) _ _
        (Ensures->>= Secured Secured (wifi_tls_handshake m c')
          (λ out. check_certificates m out.0 out.1) (handshake-Secured c' h)
          (λ out kept. check_certificates-Secured out.0 out.1 kept))
        h

  init_context-Secured :
      (c : Tls Cert) → SentSecurely c.log → SentSecurely (wifi_tls_init_context m c).1.log
  unfolding wifi_tls_init_context init_steps wifi_tls_reset_context
  init_context-Secured c h = ground arith

  wifi_tls_connect-Secured :
      (c : Tls Cert) → SentSecurely c.log → Ensures Secured (wifi_tls_connect m c)
  unfolding wifi_tls_connect open_connection
  wifi_tls_connect-Secured c h =
      let (r, c') = wifi_tls_init_context m c in
      let printed = sprintf_int port_buf_size c'.server_port in
      Ensures-if Secured (is_zero r) _ _
        (Ensures->>= (λ _. Unit {0}) Secured printed (connect_to_port m c')
          (Ensures-trivial printed)
          (λ port _. connect_to_port-Secured c' port (init_context-Secured c h)))
        (init_context-Secured c h)

  -- A connection that is reported as established may be used.
  pub connect-IsSecured :
      (c : Tls Cert)
      → SentSecurely c.log
      → Ensures
          (λ out.
            SentSecurely out.1.log
            × ((out.0 ≡ pos 0) × IsSecured out.1.log ⊎ (is_zero out.0 ≡ false)))
          (wifi_tls_connect m c)
  connect-IsSecured c h =
      Ensures-mono (λ out. SentSecurely out.1.log × ConnectDone out) _ (wifi_tls_connect m c)
        (λ out (kept, ended). elim ended [
          | inl good ↦ (kept, inl (good.0, Established-IsSecured out.1.log good.2))
          | inr bad ↦ (kept, inr (bad.0))
        ])
        (Ensures-both _ _ (wifi_tls_connect m c) (wifi_tls_connect-Secured c h)
          (wifi_tls_connect-done m c))

  write_loop-Secured :
      (replies : List ℤ) (c : Tls Cert) (rest : List ℕ) (len : ℕ)
      → SentSecurely c.log
      → IsSecured c.log
      → Ensures Secured (write_loop m c rest len replies)
  unfolding write_loop wifi_tls_disconnect wifi_tls_reset_context
  write_loop-Secured [] c rest len h s = Ensures-if Secured (len == 0) _ _ h tt
  write_loop-Secured (pos zero ∷ replies) c rest len h s =
      Ensures-if Secured (len == 0) _ _ h (
        Ensures-if Secured (wants_more m (pos 0)) _ _ (write_loop-Secured replies c rest len h s) h)
  write_loop-Secured (pos (suc k) ∷ replies) c rest len h s =
      let c' = record c {
        net = record (c.net) { write_replies = replies };
        log = sent (take (suc k) rest) ∷ c.log;
      } in
      Ensures-if Secured (len == 0) _ _ h (
        write_loop-Secured replies c' (drop (suc k) rest) ((len + 2 ^ 32 - suc k) % 2 ^ 32) (s, h)
          s)
  write_loop-Secured (negsuc k ∷ replies) c rest len h s = Ensures-if Secured (len == 0) _ _ h (
      Ensures-if Secured (wants_more m (negsuc k)) _ _ (write_loop-Secured replies c rest len h s)
        h)

  module _ {S : Type 0} (callback : ℕ → List ℕ → ℕ → S → Run (Bool × S)) where
    abbrev pub SecuredWith : ℤ × Tls Cert × S → Type 0
    SecuredWith out = SentSecurely out.1.log

    read_loop-Secured :
        (replies : List (ℤ × List ℕ)) (c : Tls Cert) (index : ℕ) (s : S)
        → SentSecurely c.log
        → Ensures SecuredWith (read_loop m callback c index s replies)
    unfolding read_loop wifi_tls_disconnect wifi_tls_reset_context
    read_loop-Secured [] c index s h = tt
    read_loop-Secured ((pos zero, b) ∷ replies) c index s h = h
    read_loop-Secured ((pos (suc k), b) ∷ replies) c index s h =
        let called = callback index b (suc k) s in
        Ensures->>= (λ _. Unit {0}) SecuredWith called _ (Ensures-trivial called)
          (λ out _.
            Ensures-if SecuredWith out.0 _ _ (read_loop-Secured replies c (index + 1) out.1 h) h)
    read_loop-Secured ((negsuc k, b) ∷ replies) c index s h =
        Ensures-if SecuredWith (wants_more m (negsuc k)) _ _ (read_loop-Secured replies c index s h)
          h

    -- A request on a connection that has passed all checks sends nothing elsewhere.
    pub wifi_tls_send_request-Secured :
        (c : Tls Cert) (request : List ℕ) (len : ℕ) (s : S)
        → SentSecurely c.log
        → IsSecured c.log
        → Ensures SecuredWith (wifi_tls_send_request m callback c request len s)
    unfolding wifi_tls_send_request
    wifi_tls_send_request-Secured c request len s h secured =
        Ensures->>= Secured SecuredWith (write_loop m c request len c.net.write_replies) _
          (write_loop-Secured c.net.write_replies c request len h secured)
          (λ out kept.
            Ensures-if SecuredWith out.0 _ _
              (read_loop-Secured out.1.net.read_replies out.1 0 s kept) kept)
