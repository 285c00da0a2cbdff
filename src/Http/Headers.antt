-- ===== src/Http/Headers.antt =====
-- The first packet of a response in main/https_client.c: it is copied to the response buffer, and its
-- headers are looked at.

use mathlib.Core.Path.{subst}
use esp32_ota_https.Prelude.{
  ltb, ℤ, pos, length, take, replicate, length-replicate, splice, length-copy, done, ◌>>=◌, Returns,
  memcpy_done, Returns->>=_assoc, ℕ, ◌+◌, ◌%◌, ◌^◌, ◌≤◌, ◌<◌, ◌≡◌, refl, sym, ◌∙◌, Bool, true,
  false, some, List, [], ◌∷◌, arith,
}
use esp32_ota_https.CText.{codes, strstr, scan_status_line}
use esp32_ota_https.Http.{
  HttpRequest, Exchange, http_parse_key_value_int, reset_exchange, accumulate,
}
use esp32_ota_https.Http.Callback.{
  end_of_headers, take_body, read_content_length, check_status, process_headers, process_body,
  after_headers, process_packet, https_tls_callback,
}
use esp32_ota_https.Http.Taken.{Taken, take_body-Taken}

-- The response buffer after the first packet has been put into it.
abbrev pub received : {A : Type 0} → HttpRequest A → List ℕ → ℕ → List ℕ → List ℕ
received r tls_buffer n buffer =
    let size = r.response_buffer_len in
    splice (splice buffer 0 (take size (replicate {A = ℕ} size 0))) 0 (take n tls_buffer)

-- The same with the end of the headers made the end of a text.
abbrev pub headers : {A : Type 0} → HttpRequest A → List ℕ → ℕ → ℕ → List ℕ → List ℕ
headers r tls_buffer n i buffer = splice (received r tls_buffer n buffer) i (take 1 (0 ∷ []))

-- The first packet has all the headers, of a response that the program accepts, and `size` is the
-- content length; the headers with the empty line behind them have `i + 4` bytes.
pub record HasHeaders {A : Type 0} (r : HttpRequest A) (tls_buffer : List ℕ) (n i size : ℕ)
    (buffer : List ℕ) : Type 0 where
  pub minor : ℤ
  pub found : strstr (received r tls_buffer n buffer) end_of_headers ≡ done (some i)
  pub status :
      scan_status_line (headers r tls_buffer n i buffer) ≡ done (some (pos 1, minor, pos 200))
  pub content :
      http_parse_key_value_int (headers r tls_buffer n i buffer) (codes "Content-Length:")
      ≡ done (some (pos size))

module _ {A : Type 0} (r : HttpRequest A) where
  -- The exchange once the headers have been accepted.
  abbrev pub accepted_exchange : List ℕ → ℕ → ℕ → ℕ → Exchange A → Exchange A
  accepted_exchange tls_buffer n i size x = record {
    context = record (x.context) {
      response_buffer_count = n;
      response_body_total_count = n;
      content_length = size;
      is_processing_headers = true;
    };
    buffer = headers r tls_buffer n i x.buffer;
    app = x.app;
  }

  -- The end of the headers is found in the first packet, and the status line is looked at.
  pub first_packet-check_status :
      (Q : Bool × Exchange A → Type 0) (n i : ℕ) (tls_buffer : List ℕ) (x : Exchange A)
      → length x.buffer ≡ r.response_buffer_len
      → r.response_buffer_len < 2 ^ 32
      → n ≤ r.response_buffer_len
      → n ≤ length tls_buffer
      → i + 4 ≤ n
      → strstr (received r tls_buffer n x.buffer) end_of_headers ≡ done (some i)
      → (length (headers r tls_buffer n i x.buffer) ≡ r.response_buffer_len
          → Returns Q (
              check_status r tls_buffer (i + 4) (accepted_exchange tls_buffer n i 0 x)
              >>= after_headers r))
      → Returns Q (https_tls_callback r 0 tls_buffer n x)
  unfolding https_tls_callback reset_exchange process_packet accumulate process_headers
  first_packet-check_status Q n i tls_buffer x room small fits has inside found checked =
      let size₀ = r.response_buffer_len in
      let zeros = replicate {A = ℕ} size₀ 0 in
      let zeroed = splice x.buffer 0 (take size₀ zeros) in
      let all : size₀ ≤ length zeros = omega (arith, length-replicate {A = ℕ} size₀ 0) in
      let whole : 0 + size₀ ≤ length x.buffer = omega arith in
      let room₁ : length zeroed ≡ size₀ = length-copy x.buffer 0 size₀ zeros whole all ∙ room in
      let fits₂ : 0 + n ≤ length zeroed = omega (arith, room₁) in
      let b = received r tls_buffer n x.buffer in
      let room₂ : length b ≡ size₀ = length-copy zeroed 0 n tls_buffer fits₂ has ∙ room₁ in
      let fits₃ : i + 1 ≤ length b = omega (arith, room₂) in
      let room₃ : length (headers r tls_buffer n i x.buffer) ≡ size₀ =
        length-copy b i 1 (0 ∷ []) fits₃ (omega arith) ∙ room₂ in
      let no_wrap : (0 + n) % 2 ^ 32 ≡ n = omega arith in
      let accepted : ltb size₀ n ≡ false = ground arith in
      let k : (i + 4) % 2 ^ 32 ≡ i + 4 = omega arith in
      rw (memcpy_done x.buffer 0 zeros size₀ whole all) (
        rw (no_wrap, accepted)
          (rw (memcpy_done zeroed 0 tls_buffer n fits₂ has) (
            rw found (
              rw (memcpy_done b i (0 ∷ []) 1 fits₃ (omega arith)) (
                subst
                  (λ j. Returns Q (
                    check_status r tls_buffer j (accepted_exchange tls_buffer n i 0 x)
                    >>= after_headers r))
                  (sym k) (checked room₃))))))

  -- Behind the headers of the first packet, the body is processed, with what follows them at the front
  -- of the buffer.
  pub first_packet-Returns :
      (Q : Bool × Exchange A → Type 0) (n i size : ℕ) (tls_buffer : List ℕ) (x : Exchange A)
      → length x.buffer ≡ r.response_buffer_len
      → r.response_buffer_len < 2 ^ 32
      → size < 2 ^ 31
      → n ≤ r.response_buffer_len
      → n ≤ length tls_buffer
      → i + 4 ≤ n
      → HasHeaders r tls_buffer n i size x.buffer
      → ((out : Exchange A)
          → Taken tls_buffer (i + 4) n (accepted_exchange tls_buffer n i size x) out
          → length out.buffer ≡ r.response_buffer_len
          → Returns Q (process_body r out))
      → Returns Q (https_tls_callback r 0 tls_buffer n x)
  unfolding check_status read_content_length after_headers
  first_packet-Returns Q n i size tls_buffer x room small small' fits has inside h body_processed =
      let int_size : size % 2 ^ 32 ≡ size = omega arith in
      let x' = accepted_exchange tls_buffer n i size x in
      first_packet-check_status Q n i tls_buffer x room small fits has inside (h.found) (λ room₃.
        rw (h.status) (
          rw (h.content, int_size)
            (Returns->>=_assoc (Taken tls_buffer (i + 4) n x') Q (take_body tls_buffer (i + 4) x') _
              _
              (take_body-Taken tls_buffer (i + 4) n x' refl inside (omega arith) (omega arith)
                (omega (arith, room₃)) has)
              (λ out taken. body_processed out taken (taken.keeps ∙ room₃)))))
