-- ===== src/Tls/Trust.antt =====
-- The order of the calls that main/wifi_tls.c makes: what has been checked before a byte is sent.
use esp32_ota_https.Prelude.{
  ◌==◌, if◌then◌else◌, ==_iff, Bool-cases, ℤ, pos, is_zero, is_zero-eq, Run, done, blocked, fault,
  ◌>>=◌, Ensures, Ensures->>=, Ensures-trivial, ℕ, ◌≡◌, refl, ap, ◌∙◌, ◌⊎◌, inl, inr, true, false,
  List, [], ◌∷◌, arith,
}
use esp32_ota_https.CText.{sprintf_int}
use esp32_ota_https.Tls.{
  connected, handshaken, verified, pinned, TlsLog, Mbedtls, Tls, minus_one, wifi_tls_reset_context,
  wifi_tls_disconnect, wifi_tls_init_context, wants_more, handshake_loop, wifi_tls_handshake,
}
use esp32_ota_https.Tls.Pinning.{wifi_tls_cert_pinning}
use esp32_ota_https.Tls.Connection.{
  port_buf_size, check_pinning, check_certificates, connect_to_port, open_connection,
  wifi_tls_connect,
}

-- The newest calls set up a connection that has passed all checks.
abbrev pub Established : TlsLog → Type 0
Established (pinned a ∷ verified b ∷ handshaken c ∷ connected d ∷ log) =
    (a ≡ pos 0) × (b ≡ 0) × (c ≡ pos 0) × (is_zero d ≡ true)
Established _ = ⊥

-- What `wifi_tls_connect` leaves behind.
abbrev pub ConnectDone : {Cert : Type 0} → ℤ × Tls Cert → Type 0
ConnectDone (r, c) =
    ((r ≡ pos 0) × (c.is_valid ≡ true) × Established c.log)
    ⊎ ((is_zero r ≡ false) × (c.is_valid ≡ false))

module _ {Cert : Type 0} (m : Mbedtls Cert) where
  -- The first part of `wifi_tls_connect`.
  init_context-valid :
      (c : Tls Cert)
      → let (r, c') = wifi_tls_init_context m c in
        ((r ≡ pos 0) × (c'.is_valid ≡ true)) ⊎ ((is_zero r ≡ false) × (c'.is_valid ≡ false))
  unfolding wifi_tls_init_context
  init_context-valid c = ground arith

  check_pinning-done :
      (c : Tls Cert) (a d : ℤ) (b : ℕ) (log : TlsLog)
      → c.log ≡ verified b ∷ handshaken a ∷ connected d ∷ log
      → c.is_valid ≡ true
      → is_zero d ≡ true
      → a ≡ pos 0
      → b ≡ 0
      → Ensures ConnectDone (check_pinning m c)
  unfolding check_pinning wifi_tls_disconnect wifi_tls_reset_context
  check_pinning-done c a d b log l v k h e = go (wifi_tls_cert_pinning m c)
    where
      established : (r : ℤ) → is_zero r ≡ true → Established (pinned r ∷ c.log)
      established r good = rw l (is_zero-eq r good, e, h, k)

      go :
          (q : Run ℤ)
          → Ensures ConnectDone (
              q >>= λ r.
              let c' = record c { log = pinned r ∷ c.log } in
              done (if is_zero r then (pos 0, c') else (minus_one, wifi_tls_disconnect c')))
      go (done r) = elim (Bool-cases (is_zero r)) [
        | inl good ↦ rw good (inl (refl, v, established r good))
        | inr bad ↦ rw bad (inr (refl, refl))
      ]
      go blocked = tt
      go fault = tt

  check_certificates-done :
      (c : Tls Cert) (result a d : ℤ) (log : TlsLog)
      → c.log ≡ handshaken a ∷ connected d ∷ log
      → (is_zero result ≡ false) ⊎ (a ≡ pos 0)
      → c.is_valid ≡ true
      → is_zero d ≡ true
      → Ensures ConnectDone (check_certificates m result c)
  unfolding check_certificates wifi_tls_disconnect wifi_tls_reset_context
  check_certificates-done c result a d log l (inl bad) v k = rw bad (inr (refl, refl))
  check_certificates-done c result a d log l (inr completed) v k =
      let b = m.ssl_get_verify_result c.log in
      elim (Bool-cases (is_zero result)) [
        | inl good ↦ elim (Bool-cases (b == 0)) [
          | inl trusted ↦
              rw (good, trusted)
                (check_pinning-done (record c { log = verified b ∷ c.log }) a d b log
                  (ap (λ t. verified b ∷ t) l) v k completed ((==_iff b 0).0 trusted))
          | inr distrusted ↦ rw (good, distrusted) (inr (refl, refl))
        ]
        | inr bad ↦ rw bad (inr (refl, refl))
      ]

  -- What the handshake leaves behind: it succeeds only if mbedTLS has completed it.
  abbrev HandshakeDone : Tls Cert → ℤ × Tls Cert → Type 0
  HandshakeDone c out =
      (out.1.is_valid ≡ c.is_valid)
      × ((a : ℤ) × (out.1.log ≡ handshaken a ∷ c.log) × ((is_zero out.0 ≡ false) ⊎ (a ≡ pos 0)))

  abbrev Completed : ℤ × ℤ × List ℤ → Type 0
  Completed out = (is_zero out.0 ≡ false) ⊎ (out.1 ≡ pos 0)

  handshake_loop-Completed : (replies : List ℤ) → Ensures Completed (handshake_loop m replies)
  unfolding handshake_loop
  handshake_loop-Completed [] = tt
  handshake_loop-Completed (r ∷ replies) = elim (Bool-cases (is_zero r)) [
    | inl done_now ↦ rw done_now (inr (is_zero-eq r done_now))
    | inr more ↦ elim (Bool-cases (wants_more m r)) [
      | inl again ↦ rw (more, again) (handshake_loop-Completed replies)
      | inr failed ↦ rw (more, failed) (inl refl)
    ]
  ]

  handshake-done : (c : Tls Cert) → Ensures (HandshakeDone c) (wifi_tls_handshake m c)
  unfolding wifi_tls_handshake
  handshake-done c =
      Ensures->>= Completed (HandshakeDone c) (handshake_loop m c.net.handshake_replies) _
        (handshake_loop-Completed c.net.handshake_replies)
        (λ out completed. (refl, (out.1, refl, completed)))

  connect_to_port-done :
      (c : Tls Cert) (port : List ℕ)
      → c.is_valid ≡ true
      → Ensures ConnectDone (connect_to_port m c port)
  unfolding connect_to_port wifi_tls_reset_context
  connect_to_port-done c port v =
      let d = m.net_connect c.log c.server_host_name port in
      let c' = record c { log = connected d ∷ c.log } in
      elim (Bool-cases (is_zero d)) [
        | inl good ↦ rw good (
            Ensures->>= (HandshakeDone c') ConnectDone (wifi_tls_handshake m c')
              (λ out. check_certificates m out.0 out.1) (handshake-done c')
              (λ out (same, (a, l, completed)).
                check_certificates-done out.1 out.0 a d c.log l completed (same ∙ v) good))
        | inr bad ↦ rw bad (inr (refl, refl))
      ]

  open_connection-done :
      (c : Tls Cert) → c.is_valid ≡ true → Ensures ConnectDone (open_connection m c)
  unfolding open_connection
  open_connection-done c v =
      let printed = sprintf_int port_buf_size c.server_port in
      Ensures->>= (λ _. Unit {0}) ConnectDone printed (connect_to_port m c)
        (Ensures-trivial printed) (λ port _. connect_to_port-done c port v)

  -- Where `wifi_tls_connect` returns 0, the context is valid, and the last four calls of mbedTLS opened
  -- the connection, completed the handshake, verified the server's certificate and pinned its key, in
  -- this order and each with success. If it returns anything else, the context is not valid.
  pub wifi_tls_connect-done : (c : Tls Cert) → Ensures ConnectDone (wifi_tls_connect m c)
  unfolding wifi_tls_connect
  wifi_tls_connect-done c = elim (init_context-valid c) [
    | inl good ↦ rw (good.0) (open_connection-done (wifi_tls_init_context m c).1 good.1)
    | inr bad ↦ rw (bad.0) (inr (bad.0, bad.1))
  ]
