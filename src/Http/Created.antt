-- ===== src/Http/Created.antt =====
-- The request that main/https_client.c sends: its text, and the buffer that it stands in.
use esp32_ota_https.Prelude.{
  length, take, drop, length-append, length-drop, take-ge, Returns, memcpy, memcpy_done,
  Returns->>=_assoc, ℕ, suc, ◌+◌, ◌^◌, ◌<◌, ◌≡◌, refl, ap, ◌∙◌, some, List, [], ◌∷◌, ◌++◌,
  append_assoc, arith,
}
use esp32_ota_https.Http.{success, HttpRequest, HttpContext, https_validate_request}
use esp32_ota_https.Http.Request.{
  Mallocs, http_get_request, text_of, request_len, empty_context, fill_request,
  https_create_context_for_request,
}

-- The length of the request's text: the format has 29 bytes, four of which are the two "%s".
pub http_get_request-length :
    (path host : List ℕ) → length (http_get_request path host) ≡ length path + length host + 25
http_get_request-length path host = simp length-append (omega arith)

-- What a request context is created as: the buffer has the text, a final 0, and `stale` bytes of the
-- block behind it.
pub record Created (path host block : List ℕ) (context : HttpContext) : Type 0 where
  pub holds :
      context.tls_request_buffer
      ≡ http_get_request path host ++ (0 ∷ drop (suc (length (http_get_request path host))) block)
  pub size : context.tls_request_buffer_size ≡ length (http_get_request path host) + 4
  pub inside : length context.tls_request_buffer ≡ context.tls_request_buffer_size

-- A text and its final 0, written to the front of a block.
sprintf_lem :
    (block text : List ℕ)
    → length text < length block
    → Returns
        (λ b. b ≡ text ++ (0 ∷ drop (suc (length text)) block))
        (memcpy block 0 (text ++ 0 ∷ []) (length (text ++ 0 ∷ [])))
sprintf_lem block text fits =
    let n : length (text ++ 0 ∷ []) ≡ suc (length text) =
      length-append text (0 ∷ []) ∙ omega arith in
    let whole : take (length (text ++ 0 ∷ [])) (text ++ 0 ∷ []) ≡ text ++ 0 ∷ [] =
      take-ge (length (text ++ 0 ∷ [])) (text ++ 0 ∷ []) (omega arith) in
    rw
      (memcpy_done block 0 (text ++ 0 ∷ []) (length (text ++ 0 ∷ [])) (omega (arith, n))
        (omega arith))
      (rw (whole, n)
        (let z : 0 + suc (length text) ≡ suc (length text) = omega arith in
          rw z (append_assoc text (0 ∷ []) (drop (suc (length text)) block))))

module _ {A : Type 0} where
  -- For a request that has been validated, and with all three blocks allocated, the text of the
  -- request and its final 0 fit the block that is allocated for them. The number of bytes that are to
  -- be sent is the length of the block, four more than the text has: the final 0 and the last three
  -- bytes of the block, as `malloc` gave them, are sent too.
  pub https_create_context_for_request-Created :
      (mem : Mallocs) (request_nr : ℕ) (r : HttpRequest A) (context_block block response : List ℕ)
      → let path = text_of r.path in
        let host = text_of r.host in
        https_validate_request (some r) ≡ success
        → mem.context_block ≡ some context_block
        → mem.request_block ≡ some block
        → mem.response_block ≡ some response
        → length path + length host + 29 < 2 ^ 32
        → length block ≡ request_len path host
        → Returns
            (λ out.
              (out.1 ≡ success)
              × (context : HttpContext) × (out.2 ≡ some context)
              × Created path host block context)
            (https_create_context_for_request mem request_nr r)
  unfolding https_create_context_for_request fill_request
  https_create_context_for_request-Created mem nr r cb block response valid c b a small room =
      let path = text_of r.path in
      let host = text_of r.host in
      let text = http_get_request path host in
      let n : length text ≡ length path + length host + 25 = http_get_request-length path host in
      let size : request_len path host ≡ length text + 4 = omega (arith, n) in
      rw (c, https_create_context_for_request)
        (rw b (
          Returns->>=_assoc (λ out. out ≡ text ++ (0 ∷ drop (suc (length text)) block)) _
            (memcpy block 0 (text ++ 0 ∷ []) (length (text ++ 0 ∷ []))) _ _
            (sprintf_lem block text (omega (arith, size, room)))
            (λ out e.
              let k = suc (length text) in
              let context = empty_context (request_len path host) out response in
              let inside : length out ≡ request_len path host =
                ap length e
                ∙ omega (
                  arith,
                  length-append text (0 ∷ drop k block),
                  length-drop k block,
                  room,
                  size,
                ) in
              let created : Created path host block context = record {
                holds = e;
                size = size;
                inside = inside;
              } in
              rw a (refl, context, refl, created))))
