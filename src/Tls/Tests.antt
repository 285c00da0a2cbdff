-- ===== src/Tls/Tests.antt =====
-- main/wifi_tls.c with a concrete mbedTLS, whose certificates are numbers.
use esp32_ota_https.Prelude.{
  pos, negsuc, length, take, done, Ensures, Returns, ℕ, ◌-◌, ◌≡◌, refl, true, some, List, [], ◌∷◌,
  ◌++◌, arith,
}
use esp32_ota_https.CText.{codes, digits, sprintf_int}
use esp32_ota_https.Tls.{sent, Mbedtls, Net, Tls, wifi_tls_handshake}
use esp32_ota_https.Tls.Pinning.{buf_size, wifi_tls_cert_pinning}
use esp32_ota_https.Tls.Connection.{port_buf_size, wifi_tls_connect, write_loop}
use esp32_ota_https.Tls.Trust.{ConnectDone, wifi_tls_connect-done}
use esp32_ota_https.Tls.Loops.{
  wifi_tls_handshake-Returns, RequestWritten, write_loop-RequestWritten,
}
use esp32_ota_https.Tls.Keys.{WritesAtEnd, verdict, wifi_tls_cert_pinning_lem}

abbrev der : ℕ → List ℕ
der cert = 48 ∷ cert ∷ []

abbrev tls : Mbedtls ℕ
tls = record {
  want_read = negsuc 99;
  want_write = negsuc 98;
  ctr_drbg_seed = λ log. pos 0;
  x509_crt_parse = λ pem. (pos 0, 1);
  ssl_setup = λ log. pos 0;
  net_connect = λ log host port. pos 0;
  ssl_get_verify_result = λ log. 0;
  ssl_get_peer_cert = λ log. some 2;
  pk_write_pubkey_der = λ cert buffer.
      (pos (length (der cert)), take (length buffer - length (der cert)) buffer ++ der cert);
  calloc = λ log. (true, true);
}

tls-WritesAtEnd : WritesAtEnd tls der
tls-WritesAtEnd cert buffer h = refl

-- The handshake has to wait once, and the request goes out in two parts, with a wait between.
abbrev replies : Net
replies = record {
  handshake_replies = negsuc 99 ∷ pos 0 ∷ [];
  write_replies = pos 2 ∷ negsuc 98 ∷ pos 1 ∷ [];
  read_replies = [];
}

abbrev context : Tls ℕ
context = record {
  is_valid = true;
  server_host_name = [];
  server_root_ca_public_key_pem = [];
  peer_public_key_pem = [];
  server_port = 443;
  peer_cert = some 1;
  net = replies;
  log = [];
}

wifi_tls_connect-done_example : Ensures ConnectDone (wifi_tls_connect tls context)
wifi_tls_connect-done_example = wifi_tls_connect-done tls context

wifi_tls_handshake-Returns_example :
    Returns
      (λ out. (out.0 ≡ pos 0) × (out.1.net.handshake_replies ≡ []))
      (wifi_tls_handshake tls context)
wifi_tls_handshake-Returns_example =
    wifi_tls_handshake-Returns tls context (negsuc 99 ∷ []) (pos 0) [] refl (refl, refl, tt) refl

write_loop-RequestWritten_example :
    Ensures
      (RequestWritten tls context (7 ∷ 8 ∷ 9 ∷ []) 3)
      (write_loop tls context (7 ∷ 8 ∷ 9 ∷ []) 3 replies.write_replies)
write_loop-RequestWritten_example =
    write_loop-RequestWritten tls replies.write_replies context (7 ∷ 8 ∷ 9 ∷ []) 3 (omega arith)
      (omega arith, (omega arith, tt))

-- All three bytes go out.
write_loop_bytes :
    write_loop tls context (7 ∷ 8 ∷ 9 ∷ []) 3 replies.write_replies
    ≡ done (
      true,
      record context {
        net = record replies { write_replies = [] };
        log = sent (9 ∷ []) ∷ sent (7 ∷ 8 ∷ []) ∷ [];
      },
    )
unfolding write_loop
write_loop_bytes = refl

wifi_tls_cert_pinning_lem_example :
    wifi_tls_cert_pinning tls context ≡ done (verdict buf_size (der 1) (der 2))
wifi_tls_cert_pinning_lem_example =
    wifi_tls_cert_pinning_lem tls der context 1 2 tls-WritesAtEnd refl refl refl (omega arith)
      (omega arith)

printed_443 : sprintf_int port_buf_size 443 ≡ done (codes "443")
unfolding sprintf_int digits
printed_443 = refl
