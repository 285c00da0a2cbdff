-- ===== src/Http/Tests.antt =====
-- main/https_client.c on a concrete text.
use esp32_ota_https.Prelude.{
  pos, take, drop, replicate, Run, done, fault, Ensures, Returns, ℕ, ◌≡◌, refl, ap, ◌∙◌, inl, true,
  none, some, List, [], ◌∷◌, ◌++◌, append-nil, arith,
}
use esp32_ota_https.CText.{
  codes, crlf, strstr, skip_space, read_digits, read_sign, to_int, atoi, scan_int, scan_text,
  scan_status_line,
}
use esp32_ota_https.Http.{
  success, wait_for_complete_body, stream_body, ContinueReceiving, continue_receiving,
  stop_receiving, http_get, HttpRequest, HttpContext, Exchange, http_parse_key_value_int,
  http_parse_key_value_string, https_validate_request,
}
use esp32_ota_https.Http.Lines.{
  LineResult, http_parse_key_value_string-IsLine, http_parse_key_value_string-value,
}
use esp32_ota_https.Http.Callback.{https_tls_callback}
use esp32_ota_https.Http.Request.{
  Mallocs, http_get_request, empty_context, https_create_context_for_request,
}
use esp32_ota_https.Http.Created.{Created, https_create_context_for_request-Created}
use esp32_ota_https.Http.Stream.{Consumer}
use esp32_ota_https.Http.Spanning.{CompletesHeaders, Misplaced, spanning_headers}

-- A file name that is longer than the buffer that it is stored to.
abbrev metadata : List ℕ
metadata = codes "VERSION=7" ++ crlf ++ codes "FILE=/fw.bin" ++ crlf ++ 0 ∷ []

version_test : http_parse_key_value_int metadata (codes "VERSION=") ≡ done (some (pos 7))
unfolding http_parse_key_value_int strstr atoi skip_space read_sign read_digits to_int
version_test = refl

missing_test : http_parse_key_value_int metadata (codes "INTERVAL=") ≡ done none
unfolding http_parse_key_value_int strstr
missing_test = refl

status_line_test :
    scan_status_line (codes "HTTP/1.1 200 OK" ++ 0 ∷ []) ≡ done (some (pos 1, pos 1, pos 200))
unfolding scan_status_line scan_text scan_int skip_space read_sign read_digits to_int
status_line_test = refl

-- Without the final 0, a text that lacks the key is read past its end.
unended_test : strstr (codes "VERSION=7") (codes "FILE=") ≡ fault
unfolding strstr
unended_test = refl

found_at : strstr metadata (codes "FILE=") ≡ done (some 11)
unfolding strstr
found_at = refl

http_parse_key_value_string-IsLine_example :
    Ensures (LineResult 5) (http_parse_key_value_string metadata (codes "FILE=") 5)
http_parse_key_value_string-IsLine_example =
    http_parse_key_value_string-IsLine metadata (codes "FILE=") 5 (omega arith)

http_parse_key_value_string-value_example :
    http_parse_key_value_string metadata (codes "FILE=") 5 ≡ done (some (codes "/fw." ++ 0 ∷ []))
http_parse_key_value_string-value_example =
    http_parse_key_value_string-value metadata (codes "FILE=") (codes "/fw.bin") (10 ∷ 0 ∷ []) 11 13
      5 found_at refl (refl, (refl, (refl, (refl, (refl, (refl, (refl, tt))))))) refl

abbrev page_request : HttpRequest ℕ
page_request = record {
  verb = http_get;
  host = some (codes "h");
  path = some (codes "/");
  response_buffer = some [];
  response_buffer_len = 0;
  error_callback = some (λ error info a. done a);
  response_mode = stream_body;
  body_callback = some (λ buffer n a. done (stop_receiving, a));
}

abbrev blocks : Mallocs
blocks = record {
  context_block = some [];
  request_block = some (replicate 31 7);
  response_block = some [];
}

valid_request : https_validate_request (some page_request) ≡ success
unfolding https_validate_request
valid_request = refl

https_create_context_for_request-Created_example :
    Returns
      (λ out.
        (out.1 ≡ success)
        × (context : HttpContext) × (out.2 ≡ some context)
        × Created (codes "/") (codes "h") (replicate 31 7) context)
      (https_create_context_for_request blocks 5 page_request)
https_create_context_for_request-Created_example =
    https_create_context_for_request-Created blocks 5 page_request [] (replicate 31 7) []
      valid_request refl refl refl (omega arith) refl

-- Three bytes of the block are sent behind the text and its final 0.
stale_bytes :
    http_get_request (codes "/") (codes "h") ++ (0 ∷ drop 28 (replicate 31 7))
    ≡ codes "GET / HTTP/1.1" ++ crlf ++ codes "Host: h" ++ crlf ++ crlf ++ (0 ∷ 7 ∷ 7 ∷ 7 ∷ [])
stale_bytes = refl

-- An application that collects what it gets.
abbrev collect : List ℕ → ℕ → List ℕ → Run (ContinueReceiving × List ℕ)
collect buffer n a = done (continue_receiving, a ++ take n buffer)

abbrev collector : Consumer collect 48 3
collector = record {
  Inv = λ got a. a ≡ got;
  Stopped = λ a. ⊥;
  Final = λ got a. a ≡ got;
  step = λ buffer got n a same some_bytes fits has within.
      inl (refl, ap (λ bytes. bytes ++ take n buffer) same);
  finish = λ buffer got a same whole. append-nil a ∙ same;
}

abbrev collect_request : HttpRequest (List ℕ)
collect_request = record {
  verb = http_get;
  host = some (codes "h");
  path = some (codes "/");
  response_buffer = some (replicate 48 5);
  response_buffer_len = 48;
  error_callback = some (λ error info a. done a);
  response_mode = stream_body;
  body_callback = some collect;
}

-- Two of the three bytes of the body stand behind the headers.
abbrev packet : List ℕ
packet =
    codes "HTTP/1.1 200 OK" ++ crlf ++ codes "Content-Length: 3" ++ crlf ++ crlf ++ (7 ∷ 8 ∷ [])

abbrev before : Exchange (List ℕ)
before = record { context = empty_context 0 [] []; buffer = replicate 48 5; app = [] }

-- The headers are complete with the second packet, which begins with the end of the empty line. What
-- stands behind the packet in the TLS buffer is of no meaning.
abbrev second_packet : List ℕ
second_packet = crlf ++ (7 ∷ 8 ∷ []) ++ replicate 40 1

abbrev half_read : List ℕ
half_read = codes "HTTP/1.1 200 OK" ++ crlf ++ codes "Content-Length: 9" ++ crlf ++ replicate 12 0

abbrev whole_request : HttpRequest (List ℕ)
whole_request = record collect_request { response_mode = wait_for_complete_body }

abbrev amid_headers : Exchange (List ℕ)
amid_headers = record {
  context = record (empty_context 0 [] []) {
    response_buffer_count = 36;
    is_processing_headers = true;
  };
  buffer = half_read;
  app = [];
}

second_packet-CompletesHeaders : CompletesHeaders half_read 36 second_packet 4 34 9
unfolding strstr scan_status_line scan_text scan_int skip_space read_sign read_digits to_int atoi
    http_parse_key_value_int
second_packet-CompletesHeaders = record {
  minor = pos 1;
  found = refl;
  status = refl;
  content = refl;
}

spanning_headers_example :
    Returns
      (Misplaced whole_request second_packet 38 2)
      (https_tls_callback whole_request 1 second_packet 4 amid_headers)
spanning_headers_example =
    spanning_headers whole_request 0 36 4 34 9 second_packet amid_headers refl refl refl refl
      (omega arith) (omega arith) (omega arith) (omega arith) (omega arith) (omega arith)
      second_packet-CompletesHeaders
