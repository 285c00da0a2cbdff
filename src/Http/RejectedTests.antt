-- ===== src/Http/RejectedTests.antt =====
-- A response that main/https_client.c does not accept.
use esp32_ota_https.Prelude.{
  ℤ, pos, negsuc, replicate, Run, done, ℕ, ◌+◌, true, some, List, [], ◌++◌,
}
use esp32_ota_https.CText.{codes, crlf}
use esp32_ota_https.Http.{HttpErr, stream_body, continue_receiving, http_get, HttpRequest, Exchange}
use esp32_ota_https.Http.Request.{empty_context}
use esp32_ota_https.Tls.{Mbedtls, Tls}

-- An application that counts errors.
abbrev count_error : HttpErr → ℤ → ℕ → Run ℕ
count_error error info a = done (a + 1)

abbrev counted : HttpErr → ℤ → ℕ → ℕ
counted error info a = a + 1

abbrev count_request : HttpRequest ℕ
count_request = record {
  verb = http_get;
  host = some (codes "h");
  path = some (codes "/");
  response_buffer = some (replicate 48 5);
  response_buffer_len = 48;
  error_callback = some count_error;
  response_mode = stream_body;
  body_callback = some (λ buffer n a. done (continue_receiving, a));
}

abbrev missing_page : List ℕ
missing_page = codes "HTTP/1.1 404 Not Found" ++ crlf ++ crlf

abbrev untouched : Exchange ℕ
untouched = record { context = empty_context 0 [] []; buffer = replicate 48 5; app = 2 }

abbrev idle_tls : Mbedtls ℕ
idle_tls = record {
  want_read = negsuc 99;
  want_write = negsuc 98;
  ctr_drbg_seed = λ log. pos 0;
  x509_crt_parse = λ pem. (pos 0, 1);
  ssl_setup = λ log. pos 0;
  net_connect = λ log host port. pos 0;
  ssl_get_verify_result = λ log. 0;
  ssl_get_peer_cert = λ log. some 1;
  pk_write_pubkey_der = λ cert buffer. (pos 0, buffer);
  calloc = λ log. (true, true);
}

abbrev on_line : Tls ℕ
on_line = record {
  is_valid = true;
  server_host_name = [];
  server_root_ca_public_key_pem = [];
  peer_public_key_pem = [];
  server_port = 443;
  peer_cert = some 1;
  net = record { handshake_replies = []; write_replies = []; read_replies = [] };
  log = [];
}
