-- ===== src/Http/Sending.antt =====
-- `https_send_request` of main/https_client.c as a whole, in the streaming mode: the request is sent
-- and the response goes to the application.
use esp32_ota_https.Prelude.{
  ℤ, pos, length, take, drop, length-drop, take-ge, Run, Returns, Returns->>=, Returns-mono, ℕ, suc,
  ◌+◌, ◌^◌, ◌<◌, ◌≡◌, refl, ◌∙◌, ◌⊎◌, false, some, List, [], ◌∷◌, ◌++◌, arith,
}
use esp32_ota_https.Http.{
  success, stream_body, ContinueReceiving, HttpRequest, HttpContext, Exchange,
  https_validate_request,
}
use esp32_ota_https.Http.Callback.{https_tls_callback}
use esp32_ota_https.Http.Stream.{Consumer}
use esp32_ota_https.Http.Response.{ResponseArrives, response_body, response-Downloaded}
use esp32_ota_https.Http.Request.{
  Mallocs, http_get_request, text_of, request_len, https_create_context_for_request, Sent,
  send_with_context, send_valid_request, https_send_request,
}
use esp32_ota_https.Http.Created.{
  http_get_request-length, Created, https_create_context_for_request-Created,
}
use esp32_ota_https.Tls.{TlsLog, Mbedtls, Tls}
use esp32_ota_https.Tls.Connection.{read_loop}
use esp32_ota_https.Tls.Loops.{sent_bytes}
use esp32_ota_https.Tls.Send.{Takes, wifi_tls_send_request-AllSent}

-- The text of a request has been sent, and behind it a final 0 and three bytes that the program
-- has not written.
abbrev pub TextSent : TlsLog → List ℕ → TlsLog → Type 0
TextSent before text after =
    (stale : List ℕ) × (length stale ≡ 3)
    × (sent_bytes after ≡ sent_bytes before ++ (text ++ (0 ∷ stale)))

-- The three calls of `malloc` for a request succeed.
pub record Allocates (mem : Mallocs) (len : ℕ) : Type 0 where
  pub context_block : List ℕ
  pub request_block : List ℕ
  pub response_block : List ℕ
  pub gives_context : mem.context_block ≡ some context_block
  pub gives_request : mem.request_block ≡ some request_block
  pub gives_response : mem.response_block ≡ some response_block
  pub as_large : length request_block ≡ len

module _ {Cert A : Type 0} (m : Mbedtls Cert) (r : HttpRequest A) (Q : A → Type 0) where
  -- What the loop that reads the response is to leave behind.
  abbrev pub ReadToEnd : ℤ × Tls Cert × Exchange A → Type 0
  ReadToEnd out = (out.0 ≡ pos 0) × (out.1.is_valid ≡ false) × Q out.2.app

  -- What a request leaves behind then.
  abbrev pub Answered : TlsLog → List ℕ → Sent Cert A → Type 0
  Answered before text out =
      (out.result ≡ success)
      × Q out.app
      × ((c : Tls Cert) × (out.tls ≡ some c) × (c.is_valid ≡ false) × TextSent before text c.log)

  abbrev WithText : TlsLog → List ℕ → ℤ × Tls Cert × Exchange A → Type 0
  WithText before text out = ReadToEnd out × TextSent before text out.1.log

  send_with_context-WithText :
      (context : HttpContext) (tls : Tls Cert) (buffer block : List ℕ) (app : A)
      → let path = text_of r.path in
        let host = text_of r.host in
        let text = http_get_request path host in
        length path + length host + 29 < 2 ^ 32
        → length block ≡ request_len path host
        → Created path host block context
        → Takes m (request_len path host) tls.net.write_replies
        → ((c' : Tls Cert)
            → Returns ReadToEnd (
                read_loop m
                  (https_tls_callback r)
                  c'
                  0
                  (record { context = context; buffer = buffer; app = app })
                  tls.net.read_replies))
        → Returns (WithText tls.log text) (send_with_context m r context tls buffer app)
  unfolding send_with_context
  send_with_context-WithText context tls buffer block app fits as_large created takes answer =
      let path = text_of r.path in
      let host = text_of r.host in
      let text = http_get_request path host in
      let x : Exchange A = record { context = context; buffer = buffer; app = app } in
      let n = http_get_request-length path host in
      let len : request_len path host ≡ context.tls_request_buffer_size =
        omega (arith, n, created.size) in
      let whole : take context.tls_request_buffer_size context.tls_request_buffer
          ≡ text ++ (0 ∷ drop (suc (length text)) block) =
        take-ge context.tls_request_buffer_size context.tls_request_buffer
          (omega (arith, created.inside))
        ∙ created.holds in
      let three : length (drop (suc (length text)) block) ≡ 3 =
        omega (arith, length-drop (suc (length text)) block, as_large, n) in
      Returns-mono _ (WithText tls.log text) (send_with_context m r context tls buffer app)
        (λ out (read, gone). (read, (drop (suc (length text)) block, three, rw whole at gone)))
        (wifi_tls_send_request-AllSent m (https_tls_callback r) ReadToEnd tls
          context.tls_request_buffer context.tls_request_buffer_size x
          (omega (arith, n, created.size)) (rw len at takes) answer)

  -- A request whose response is read to its end, for each context of the request.
  pub https_send_request-Answered :
      (mem : Mallocs) (request_nr : ℕ) (tls : Tls Cert) (buffer : List ℕ) (app : A)
      → let path = text_of r.path in
        let host = text_of r.host in
        let text = http_get_request path host in
        https_validate_request (some r) ≡ success
        → length path + length host + 29 < 2 ^ 32
        → Allocates mem (request_len path host)
        → Takes m (request_len path host) tls.net.write_replies
        → ((context : HttpContext) (c' : Tls Cert)
            → Returns ReadToEnd (
                read_loop m
                  (https_tls_callback r)
                  c'
                  0
                  (record { context = context; buffer = buffer; app = app })
                  tls.net.read_replies))
        → Returns
            (Answered tls.log text)
            (https_send_request m mem request_nr (some tls) (some r) buffer app)
  unfolding https_send_request send_valid_request
  https_send_request-Answered mem request_nr tls buffer app valid fits blocks takes answer =
      let path = text_of r.path in
      let host = text_of r.host in
      let text = http_get_request path host in
      rw (valid, https_send_request)
        (Returns->>= _ (Answered tls.log text) (https_create_context_for_request mem request_nr r) _
          (https_create_context_for_request-Created mem request_nr r blocks.context_block
            blocks.request_block blocks.response_block valid blocks.gives_context
            blocks.gives_request blocks.gives_response fits blocks.as_large)
          (λ out (good, context, e, created). rw e (
            Returns->>= (WithText tls.log text) (Answered tls.log text)
              (send_with_context m r context tls buffer app) _
              (send_with_context-WithText context tls buffer blocks.request_block app fits
                blocks.as_large created takes (answer context))
              (λ last ((zero_result, off, got), gone).
                rw zero_result (refl, got, (last.1, refl, off, gone))))))

module _ {Cert A : Type 0} (m : Mbedtls Cert) (f : List ℕ → ℕ → A → Run (ContinueReceiving × A))
    (limit size : ℕ) (consumer : Consumer f limit size) (r : HttpRequest A) where
  -- What the application is left with: it has stopped, or has got this body.
  abbrev pub Got : List ℕ → A → Type 0
  Got body a = consumer.Stopped a ⊎ consumer.Final body a

  -- What a request leaves behind, for a response with this body.
  abbrev pub Exchanged : TlsLog → List ℕ → List ℕ → Sent Cert A → Type 0
  Exchanged before text body out = Answered m r (Got body) before text out

  -- A valid request in the streaming mode, with all its memory allocated, on a connection that takes
  -- the request and on which a response arrives with version 1 and status 200, a content length
  -- from 1 to 2^31 - 1, all headers in its first packet, and the whole body, in packets for which the
  -- response buffer has room: the text of the request is sent, once and in order, and behind it
  -- four bytes that do not belong to it; the body of the response goes to the application's
  -- callback, once and in order, and then the callback is told the end, or the callback stops
  -- before. The result is HTTP_SUCCESS, and the connection is closed.
  pub https_send_request-Exchanged :
      (mem : Mallocs) (request_nr i : ℕ) (tls : Tls Cert) (buffer : List ℕ) (app : A)
      → let path = text_of r.path in
        let host = text_of r.host in
        let text = http_get_request path host in
        https_validate_request (some r) ≡ success
        → r.response_mode ≡ stream_body
        → r.body_callback ≡ some f
        → r.response_buffer_len ≡ limit
        → length buffer ≡ limit
        → limit < 2 ^ 32
        → 0 < size
        → size < 2 ^ 31
        → consumer.Inv [] app
        → length path + length host + 29 < 2 ^ 32
        → Allocates mem (request_len path host)
        → Takes m (request_len path host) tls.net.write_replies
        → ResponseArrives m r i size buffer tls.net.read_replies
        → Returns
            (Exchanged tls.log text (response_body i size tls.net.read_replies))
            (https_send_request m mem request_nr (some tls) (some r) buffer app)
  https_send_request-Exchanged mem request_nr i tls buffer app valid mode cb same room small
        some_bytes small' start fits blocks takes arrives =
      let body = response_body i size tls.net.read_replies in
      https_send_request-Answered m r (Got body) mem request_nr tls buffer app valid fits blocks
        takes
        (λ context c'.
          response-Downloaded m f limit size consumer r tls.net.read_replies c' i
            (record { context = context; buffer = buffer; app = app }) mode cb same room small
            some_bytes small' start arrives)
