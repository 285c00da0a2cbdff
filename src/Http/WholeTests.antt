-- ===== src/Http/WholeTests.antt =====
-- A body that main/https_client.c collects, over what the headers have left in the buffer.
use esp32_ota_https.Prelude.{
  ℤ, pos, negsuc, replicate, Run, done, Returns, ℕ, ◌≡◌, refl, inl, inr, true, some, List, [], ◌∷◌,
  arith,
}
use esp32_ota_https.CText.{codes}
use esp32_ota_https.Http.{
  wait_for_complete_body, ContinueReceiving, stop_receiving, http_get, HttpRequest,
}
use esp32_ota_https.Http.Callback.{https_tls_callback}
use esp32_ota_https.Http.Request.{empty_context}
use esp32_ota_https.Http.Whole.{collected, BodyDelivered, read_loop-BodyDelivered}
use esp32_ota_https.Tls.{Mbedtls, Tls}
use esp32_ota_https.Tls.Connection.{read_loop}

-- An application that keeps the whole buffer.
abbrev keep_buffer : List ℕ → ℕ → List ℕ → Run (ContinueReceiving × List ℕ)
keep_buffer buffer n a = done (stop_receiving, buffer)

abbrev whole_request : HttpRequest (List ℕ)
whole_request = record {
  verb = http_get;
  host = some (codes "h");
  path = some (codes "/");
  response_buffer = some (replicate 6 9);
  response_buffer_len = 6;
  error_callback = some (λ error info a. done a);
  response_mode = wait_for_complete_body;
  body_callback = some keep_buffer;
}

abbrev quiet_tls : Mbedtls ℕ
quiet_tls = record {
  want_read = negsuc 99;
  want_write = negsuc 98;
  ctr_drbg_seed = λ log. pos 0;
  x509_crt_parse = λ pem. (pos 0, 1);
  ssl_setup = λ log. pos 0;
  net_connect = λ log host port. pos 0;
  ssl_get_verify_result = λ log. 0;
  ssl_get_peer_cert = λ log. some 1;
  pk_write_pubkey_der = λ cert buffer. (pos 0, buffer);
  calloc = λ log. (true, true);
}

abbrev open_tls : Tls ℕ
open_tls = record {
  is_valid = true;
  server_host_name = [];
  server_root_ca_public_key_pem = [];
  peer_public_key_pem = [];
  server_port = 443;
  peer_cert = some 1;
  net = record { handshake_replies = []; write_replies = []; read_replies = [] };
  log = [];
}

abbrev two_packets : List (ℤ × List ℕ)
two_packets = (pos 2, 1 ∷ 2 ∷ []) ∷ (negsuc 99, []) ∷ (pos 1, 3 ∷ 2 ∷ []) ∷ []

-- The application gets three bytes of the body, and three that the headers have left.
abbrev WithRemains : List ℕ → Type 0
WithRemains a = a ≡ 1 ∷ 2 ∷ 3 ∷ 9 ∷ 9 ∷ 9 ∷ []

read_loop-BodyDelivered_example :
    Returns
      (BodyDelivered quiet_tls keep_buffer whole_request
        (empty_context 0 [] [])
        3
        (replicate 6 9)
        []
        WithRemains)
      (read_loop quiet_tls
        (https_tls_callback whole_request)
        open_tls
        1
        (collected keep_buffer whole_request
          (empty_context 0 [] [])
          3
          (replicate 6 9)
          []
          WithRemains
          [])
        two_packets)
read_loop-BodyDelivered_example =
    read_loop-BodyDelivered quiet_tls keep_buffer whole_request (empty_context 0 [] []) 3
      (replicate 6 9) [] WithRemains two_packets open_tls 0 [] refl refl refl (omega arith)
      (omega arith) (omega arith)
      (
        omega arith,
        omega arith,
        omega arith,
        inr (refl, (omega arith, omega arith, omega arith, inl refl)),
      )
      refl
