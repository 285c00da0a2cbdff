-- ===== src/Http/Request.antt =====
-- `https_create_context_for_request` and `https_send_request` of main/https_client.c.
use esp32_ota_https.Prelude.{
  if◌then◌else◌, ℤ, is_zero, length, Run, done, fault, ◌>>=◌, memcpy, ℕ, ◌+◌, ◌%◌, ◌^◌, false,
  Option, none, some, List, [], ◌∷◌, ◌++◌,
}
use esp32_ota_https.CText.{codes, crlf}
use esp32_ota_https.Http.{
  HttpErr, success, invalid_args, out_of_memory, send_failed, HttpRequest, HttpContext, Exchange,
  https_validate_request,
}
use esp32_ota_https.Http.Callback.{https_tls_callback}
use esp32_ota_https.Tls.{Mbedtls, Tls}
use esp32_ota_https.Tls.Connection.{wifi_tls_send_request}

-- What the three calls of `malloc` give: the contents of each new block, or none for NULL.
pub record Mallocs : Type 0 where
  pub context_block : Option (List ℕ)
  pub request_block : Option (List ℕ)
  pub response_block : Option (List ℕ)

-- "GET %s HTTP/1.1\r\nHost: %s\r\n\r\n" with its two arguments.
abbrev pub http_get_request : List ℕ → List ℕ → List ℕ
http_get_request path host =
    codes "GET " ++ path ++ codes " HTTP/1.1" ++ crlf ++ codes "Host: " ++ host ++ crlf ++ crlf

-- The length of the format string.
abbrev pub http_get_request_format_length : ℕ
http_get_request_format_length = length (http_get_request (codes "%s") (codes "%s"))

-- The text of a pointer that is not NULL.
abbrev pub text_of : Option (List ℕ) → List ℕ
text_of none = []
text_of (some text) = text

-- The number of bytes of the request, as the program computes it.
abbrev pub request_len : List ℕ → List ℕ → ℕ
request_len path host = (http_get_request_format_length + length host + length path) % 2 ^ 32

abbrev pub response_size : ℕ
response_size = 4096

abbrev pub empty_context : ℕ → List ℕ → List ℕ → HttpContext
empty_context size request response = record {
  request_id = 0;
  response_buffer_count = 0;
  response_body_total_count = 0;
  content_length = 0;
  is_processing_headers = false;
  tls_request_buffer = request;
  tls_request_buffer_size = size;
  tls_response_buffer = response;
  tls_response_buffer_size = response_size;
}

module _ {A : Type 0} where
  -- The part behind the allocation of the request buffer. `sprintf` writes the text and a final 0;
  -- what stood behind that in the block stays.
  unfoldable pub fill_request :
      Mallocs → HttpRequest A → List ℕ → Run (HttpErr × Option HttpContext)
  fill_request mem r block = do
    let path = text_of r.path
    let host = text_of r.host
    let text = http_get_request path host ++ 0 ∷ []
    request ← memcpy block 0 text (length text)
    elim (mem.response_block) [
      | none ↦ done (out_of_memory, none)
      | some response ↦
          done (success, some (empty_context (request_len path host) request response))
    ]

  -- The counter of requests is written to the new block before the block is tested for NULL.
  -- `bzero` then clears the number again.
  unfoldable pub https_create_context_for_request :
      Mallocs → ℕ → HttpRequest A → Run (ℕ × HttpErr × Option HttpContext)
  unfolding fill_request
  https_create_context_for_request mem request_nr r =
      let request_nr' = (request_nr + 1) % 2 ^ 32 in
      elim (mem.context_block) [
        | none ↦ fault
        | some _ ↦ elim (mem.request_block) [
          | none ↦ done (request_nr', out_of_memory, none)
          | some block ↦ do (e, context) ← fill_request mem r block; done (request_nr', e, context)
        ]
      ]

-- What `https_send_request` leaves: its result, the counter of requests, the connection, the
-- response buffer and the application.
pub record Sent (Cert A : Type 0) : Type 0 where
  pub result : HttpErr
  pub request_nr : ℕ
  pub tls : Option (Tls Cert)
  pub buffer : List ℕ
  pub app : A

module _ {Cert A : Type 0} (m : Mbedtls Cert) where
  -- The TLS request for a context. The response goes to the callback, which changes the exchange.
  unfoldable pub send_with_context :
      HttpRequest A → HttpContext → Tls Cert → List ℕ → A → Run (ℤ × Tls Cert × Exchange A)
  send_with_context r context tls buffer app =
      wifi_tls_send_request m (https_tls_callback r) tls context.tls_request_buffer
        context.tls_request_buffer_size (record { context = context; buffer = buffer; app = app })

  -- `https_send_request` behind the validation of its arguments.
  unfoldable pub send_valid_request :
      Mallocs → ℕ → Tls Cert → HttpRequest A → List ℕ → A → Run (Sent Cert A)
  unfolding send_with_context
  send_valid_request mem request_nr tls r buffer app = do
    (nr, e, created) ← https_create_context_for_request mem request_nr r
    elim created [
      | none ↦
          done (record { result = e; request_nr = nr; tls = some tls; buffer = buffer; app = app })
      | some context ↦ do
        (tls_result, tls', x) ← send_with_context r context tls buffer app
        done (record {
          result = if is_zero tls_result then success else send_failed;
          request_nr = nr;
          tls = some tls';
          buffer = x.buffer;
          app = x.app;
        })
    ]

  -- The arguments `tlsContext` and `httpRequest`, which may be NULL, the buffer of the request, and
  -- the application's state.
  unfoldable pub https_send_request :
      Mallocs → ℕ → Option (Tls Cert) → Option (HttpRequest A) → List ℕ → A → Run (Sent Cert A)
  unfolding send_valid_request
  https_send_request mem request_nr tls_context http_request buffer app =
      let refused : HttpErr → Sent Cert A = λ e. record {
        result = e;
        request_nr = request_nr;
        tls = tls_context;
        buffer = buffer;
        app = app;
      } in
      elim tls_context [
        | none ↦ done (refused invalid_args)
        | some tls ↦ elim http_request [
          | none ↦ done (refused invalid_args)
          | some r ↦ elim (https_validate_request (some r)) [
            | success ↦ send_valid_request mem request_nr tls r buffer app
            | e ↦ done (refused e)
          ]
        ]
      ]
