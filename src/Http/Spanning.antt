-- ===== src/Http/Spanning.antt =====
-- Headers that end in a later packet than the first, in `https_tls_callback` of main/https_client.c.
use mathlib.Core.Path.{subst}
use esp32_ota_https.Prelude.{
  ltb, suc-ne-zero, ℤ, pos, length, take, drop, splice, length-copy, done, ◌>>=◌, Returns,
  memcpy_done, Returns->>=_assoc, ℕ, suc, ◌+◌, ◌-◌, ◌%◌, ◌^◌, ◌≤◌, ◌<◌, ◌≡◌, refl, sym, ap, ◌∙◌,
  Bool, true, false, some, List, [], ◌∷◌, arith,
}
use esp32_ota_https.CText.{codes, strstr, scan_status_line}
use esp32_ota_https.Http.{
  wait_for_complete_body, HttpRequest, Exchange, http_parse_key_value_int, accumulate,
}
use esp32_ota_https.Http.Callback.{
  end_of_headers, take_body, read_content_length, check_status, process_headers, process_whole_body,
  process_body, after_headers, process_packet, https_tls_callback,
}
use esp32_ota_https.Http.Taken.{Taken, take_body-Taken}

-- The response buffer with the packet put behind the `n₀` bytes that it has.
abbrev pub joined : List ℕ → ℕ → List ℕ → ℕ → List ℕ
joined buffer n₀ tls_buffer n = splice buffer n₀ (take n tls_buffer)

-- The same with the end of the headers made the end of a text.
abbrev pub ended : List ℕ → ℕ → List ℕ → ℕ → ℕ → List ℕ
ended buffer n₀ tls_buffer n i = splice (joined buffer n₀ tls_buffer n) i (take 1 (0 ∷ []))

-- With this packet the headers are complete, of a response that the program accepts.
pub record CompletesHeaders (buffer : List ℕ) (n₀ : ℕ) (tls_buffer : List ℕ) (n i size : ℕ)
    : Type 0 where
  pub minor : ℤ
  pub found : strstr (joined buffer n₀ tls_buffer n) end_of_headers ≡ done (some i)
  pub status :
      scan_status_line (ended buffer n₀ tls_buffer n i) ≡ done (some (pos 1, minor, pos 200))
  pub content :
      http_parse_key_value_int (ended buffer n₀ tls_buffer n i) (codes "Content-Length:")
      ≡ done (some (pos size))

module _ {A : Type 0} (r : HttpRequest A) where
  -- What is in the buffer when the body goes on to be collected.
  abbrev pub Misplaced : List ℕ → ℕ → ℕ → Bool × Exchange A → Type 0
  Misplaced tls_buffer k count out =
      (out.0 ≡ true)
      × (out.1.context.response_buffer_count ≡ count)
      × (take count out.1.buffer ≡ take count (drop k tls_buffer))

  collected :
      (size k n : ℕ) (tls_buffer : List ℕ) (x out : Exchange A)
      → r.response_mode ≡ wait_for_complete_body
      → x.context.content_length ≡ size
      → n - k < size
      → Taken tls_buffer k n x out
      → Returns (Misplaced tls_buffer k (n - k)) (process_body r out)
  unfolding process_body process_whole_body
  collected size k n tls_buffer x out mode e more taken =
      let count : out.context.response_buffer_count ≡ n - k =
        ap (λ y. y.context.response_buffer_count) taken.is_taken in
      let length_kept : out.context.content_length ≡ size =
        ap (λ y. y.context.content_length) taken.is_taken ∙ e in
      let waits : ltb out.context.response_buffer_count out.context.content_length ≡ true =
        ground (arith, count, length_kept, more) in
      simp (mode, waits) (refl, count, taken.body)

  -- A body that is to be collected, whose headers end in a later packet than the first: the callback
  -- goes on reading, and then the buffer does not begin with the body, which stands in this packet
  -- `n₀` bytes before, but with what stands at the length of all headers, `i + 4`. The response is
  -- accepted, more of the body is to come, the buffer has room, the `n₀` bytes before and the packet
  -- together are no more than the TLS buffer has, and the mode is the one that waits for the body.
  pub spanning_headers :
      (index n₀ n i size : ℕ) (tls_buffer : List ℕ) (x : Exchange A)
      → r.response_mode ≡ wait_for_complete_body
      → x.context.is_processing_headers ≡ true
      → x.context.response_buffer_count ≡ n₀
      → length x.buffer ≡ r.response_buffer_len
      → r.response_buffer_len < 2 ^ 32
      → size < 2 ^ 31
      → n₀ + n ≤ r.response_buffer_len
      → n₀ + n ≤ length tls_buffer
      → i + 4 ≤ n₀ + n
      → n₀ + n - (i + 4) < size
      → CompletesHeaders x.buffer n₀ tls_buffer n i size
      → Returns
          (Misplaced tls_buffer (i + 4) (n₀ + n - (i + 4)))
          (https_tls_callback r (suc index) tls_buffer n x)
  unfolding https_tls_callback process_packet accumulate process_headers check_status
      read_content_length after_headers
  spanning_headers index n₀ n i size tls_buffer x mode open_headers count room small small' fits has
        inside more h =
      let m = n₀ + n in
      let b = joined x.buffer n₀ tls_buffer n in
      let b' = ended x.buffer n₀ tls_buffer n i in
      let fits₁ : n₀ + n ≤ length x.buffer = omega (arith, room) in
      let has₁ : n ≤ length tls_buffer = omega arith in
      let room₁ : length b ≡ r.response_buffer_len =
        length-copy x.buffer n₀ n tls_buffer fits₁ has₁ ∙ room in
      let fits₂ : i + 1 ≤ length b = omega (arith, room₁) in
      let room₂ : length b' ≡ r.response_buffer_len =
        length-copy b i 1 (0 ∷ []) fits₂ (omega arith) ∙ room₁ in
      let no_wrap : (n₀ + n) % 2 ^ 32 ≡ n₀ + n = omega arith in
      let k : (i + 4) % 2 ^ 32 ≡ i + 4 = omega arith in
      let int_size : size % 2 ^ 32 ≡ size = omega arith in
      let accepted : ltb r.response_buffer_len (n₀ + n) ≡ false = ground arith in
      let y : Exchange A = record x {
        context = record (x.context) {
          response_buffer_count = n₀ + n;
          response_body_total_count = (x.context.response_body_total_count + n) % 2 ^ 32;
          content_length = size;
        };
        buffer = b';
      } in
      let Q : Bool × Exchange A → Type 0 = Misplaced tls_buffer (i + 4) (n₀ + n - (i + 4)) in
      rw (suc-ne-zero index, count, no_wrap, accepted)
        (rw (memcpy_done x.buffer n₀ tls_buffer n fits₁ has₁) (
          rw open_headers (
            rw (h.found) (
              rw (memcpy_done b i (0 ∷ []) 1 fits₂ (omega arith)) (
                subst
                  (λ j. Returns Q (
                    check_status r tls_buffer j (record y {
                      context = record (y.context) { content_length = x.context.content_length };
                    })
                    >>= after_headers r))
                  (sym k)
                  (rw (h.status) (
                    rw (h.content, int_size)
                      (Returns->>=_assoc (Taken tls_buffer (i + 4) (n₀ + n) y) Q
                        (take_body tls_buffer (i + 4) y) _ _
                        (take_body-Taken tls_buffer (i + 4) (n₀ + n) y refl inside (omega arith)
                          (omega arith) (omega (arith, room₂)) has)
                        (λ out taken.
                          collected size (i + 4) (n₀ + n) tls_buffer y out mode refl more
                            taken)))))))))
