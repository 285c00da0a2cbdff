-- ===== src/Tls/Connection.antt =====
-- `wifi_tls_connect` and `wifi_tls_send_request` of main/wifi_tls.c.
use esp32_ota_https.Prelude.{
  ◌==◌, if◌then◌else◌, ℤ, pos, negsuc, is_zero, take, drop, Run, done, blocked, ◌>>=◌, ℕ, zero, suc,
  ◌+◌, ◌-◌, ◌%◌, ◌^◌, Bool, true, false, List, [], ◌∷◌,
}
use esp32_ota_https.CText.{sprintf_int}
use esp32_ota_https.Tls.{
  connected, verified, pinned, sent, Mbedtls, Tls, minus_one, wifi_tls_reset_context,
  wifi_tls_disconnect, wifi_tls_init_context, wants_more, wifi_tls_handshake,
}
use esp32_ota_https.Tls.Pinning.{wifi_tls_cert_pinning}

-- The size of `portBuf`.
abbrev pub port_buf_size : ℕ
port_buf_size = 16

module _ {Cert : Type 0} (m : Mbedtls Cert) where
  -- The last part of `wifi_tls_connect`: certificate pinning.
  unfoldable pub check_pinning : Tls Cert → Run (ℤ × Tls Cert)
  check_pinning c = do
    result ← wifi_tls_cert_pinning m c
    let c' = record c { log = pinned result ∷ c.log }
    done (if is_zero result then (pos 0, c') else (minus_one, wifi_tls_disconnect c'))

  -- The part of `wifi_tls_connect` behind the handshake, which has given `result`.
  unfoldable pub check_certificates : ℤ → Tls Cert → Run (ℤ × Tls Cert)
  unfolding check_pinning
  check_certificates result c =
      let verify_result = m.ssl_get_verify_result c.log in
      let c' = record c { log = verified verify_result ∷ c.log } in
      if is_zero result
      then if verify_result == 0 then check_pinning c' else done (minus_one, wifi_tls_disconnect c')
      else done (minus_one, wifi_tls_disconnect c)

  -- The connection to the server, whose port is given as a text.
  unfoldable pub connect_to_port : Tls Cert → List ℕ → Run (ℤ × Tls Cert)
  unfolding check_certificates
  connect_to_port c port =
      let r = m.net_connect c.log c.server_host_name port in
      let c' = record c { log = connected r ∷ c.log } in
      let continued = do (result, c″) ← wifi_tls_handshake m c'; check_certificates result c″
      in if is_zero r then continued else done (minus_one, wifi_tls_reset_context c')

  -- The part of `wifi_tls_connect` behind the set-up of the context.
  unfoldable pub open_connection : Tls Cert → Run (ℤ × Tls Cert)
  unfolding connect_to_port
  open_connection c = do port ← sprintf_int port_buf_size c.server_port; connect_to_port c port

  unfoldable pub wifi_tls_connect : Tls Cert → Run (ℤ × Tls Cert)
  unfolding open_connection
  wifi_tls_connect c =
      let (r, c') = wifi_tls_init_context m c in
      if is_zero r then open_connection c' else done (r, c')

  -- The first loop of `wifi_tls_send_request`: the `len` bytes of `rest` are still to be written.
  -- The result tells whether they were.
  unfoldable pub write_loop : Tls Cert → List ℕ → ℕ → List ℤ → Run (Bool × Tls Cert)
  write_loop c rest len [] =
      if len == 0
      then done (true, record c { net = record (c.net) { write_replies = [] } })
      else blocked
  write_loop c rest len (r ∷ replies) =
      let c' = record c { net = record (c.net) { write_replies = replies } } in
      let written = λ (n : ℕ). record c' { log = sent (take n rest) ∷ c.log } in
      let retried = write_loop c rest len replies in
      let refused = if wants_more m r then retried else done (false, wifi_tls_disconnect c') in
      let attempt : Run (Bool × Tls Cert) = elim r [
        | pos zero ↦ refused
        | pos (suc k) ↦
            write_loop (written (suc k)) (drop (suc k) rest) ((len + 2 ^ 32 - suc k) % 2 ^ 32)
              replies
        | negsuc k ↦ refused
      ] in
      if len == 0
      then done (true, record c { net = record (c.net) { write_replies = r ∷ replies } })
      else attempt

  module _ {S : Type 0} (callback : ℕ → List ℕ → ℕ → S → Run (Bool × S)) where
    -- The second loop: what is read goes to the callback, until that returns 0, the peer ends the
    -- connection or a read fails.
    unfoldable pub read_loop : Tls Cert → ℕ → S → List (ℤ × List ℕ) → Run (ℤ × Tls Cert × S)
    read_loop c index s [] = blocked
    read_loop c index s ((r, buffer) ∷ replies) =
        let c' =
          wifi_tls_disconnect (record c { net = record (c.net) { read_replies = replies } }) in
        let retried = read_loop c index s replies in
        let failed = if wants_more m r then retried else done (minus_one, c', s) in
        let received : ℕ → Run (ℤ × Tls Cert × S) = λ len. do
          (continue_reading, s') ← callback index buffer len s
          let rest = read_loop c (index + 1) s' replies
          if continue_reading then rest else done (pos 0, c', s')
        in elim r [
          | pos zero ↦ done (pos 0, c', s)
          | pos (suc k) ↦ received (suc k)
          | negsuc k ↦ failed
        ]

    unfoldable pub wifi_tls_send_request : Tls Cert → List ℕ → ℕ → S → Run (ℤ × Tls Cert × S)
    unfolding write_loop read_loop
    wifi_tls_send_request c request_buffer request_len s = do
      (written, c') ← write_loop c request_buffer request_len c.net.write_replies
      let response = read_loop c' 0 s c'.net.read_replies
      if written then response else done (minus_one, c', s)
