-- ===== src/Http/Taken.antt =====
-- The end of the headers in `https_tls_callback` of main/https_client.c: what becomes of the bytes
-- behind them.
use esp32_ota_https.Prelude.{
  ltb, if◌then◌else◌, Bool-cases, length, take, drop, length-append, length-take, length-drop,
  take-append, take-ge, take-zero, splice, length-copy, take-copy, done, Returns, Returns->>=,
  memcpy, memcpy_done, ℕ, ◌+◌, ◌-◌, ◌%◌, ◌^◌, ◌≤◌, ◌<◌, ◌≡◌, refl, sym, ◌∙◌, inl, inr, false, List,
  [], ◌∷◌, ◌++◌, arith,
}
use esp32_ota_https.Http.{Exchange}
use esp32_ota_https.Http.Callback.{take_body}

-- What `take_body` leaves behind: the bytes behind the headers stand at the front of the buffer.
pub record Taken {A : Type 0} (tls_buffer : List ℕ) (k n : ℕ) (x out : Exchange A) : Type 0 where
  pub is_taken : out ≡ record {
    context = record (x.context) {
      response_buffer_count = n - k;
      response_body_total_count = n - k;
      is_processing_headers = false;
    };
    buffer = out.buffer;
    app = x.app;
  }
  pub keeps : length out.buffer ≡ length x.buffer
  pub body : take (n - k) out.buffer ≡ take (n - k) (drop k tls_buffer)

-- A 0 behind the first `n` bytes changes none of them.
take-end : (b : List ℕ) (n : ℕ) → n < length b → take n (splice b n (take 1 (0 ∷ []))) ≡ take n b
take-end b n h =
    let m : length (take n b) ≡ n = omega (arith, length-take n b) in
    let m' : length (take n b ++ 0 ∷ []) ≡ n + 1 =
      omega (arith, m, length-append (take n b) (0 ∷ [])) in
    take-append n (take n b ++ 0 ∷ []) (drop (n + 1) b) (omega (arith, m'))
    ∙ take-append n (take n b) (0 ∷ []) (omega (arith, m))
    ∙ take-ge n (take n b) (omega (arith, m))

-- The bytes of the body are copied to the front of a block, if there are any.
abbrev Copied : List ℕ → ℕ → List ℕ → List ℕ → Type 0
Copied block n src out = (length out ≡ length block) × (take n out ≡ take n src)

copy-Copied :
    (block : List ℕ) (n : ℕ) (src : List ℕ)
    → n ≤ length block
    → n ≤ length src
    → Returns (Copied block n src) (if ltb 0 n then memcpy block 0 src n else done block)
copy-Copied block n src room has = elim (Bool-cases (ltb 0 n)) [
  | inl some_bytes ↦
      let z : 0 + n ≡ n = omega arith in
      let same : take (0 + n) (splice block 0 (take n src)) ≡ take n src =
        take-copy block 0 n src (omega arith) has in
      rw some_bytes (
        rw (memcpy_done block 0 src n (omega arith) has)
          (length-copy block 0 n src (omega arith) has, rw z at same))
  | inr none_left ↦
      let zero_bytes : n ≡ 0 = ground arith in
      rw none_left (refl, take-zero n block zero_bytes ∙ sym (take-zero n src zero_bytes))
]

module _ {A : Type 0} where
  pub take_body-Taken :
      (tls_buffer : List ℕ) (k n : ℕ) (x : Exchange A)
      → x.context.response_buffer_count ≡ n
      → k ≤ n
      → n < 2 ^ 32
      → 0 < k
      → n ≤ length x.buffer
      → n ≤ length tls_buffer
      → Returns (Taken tls_buffer k n x) (take_body tls_buffer k x)
  unfolding take_body
  take_body-Taken tls_buffer k n x e h small some_headers room has =
      let src = drop k tls_buffer in
      let count : (x.context.response_buffer_count + 2 ^ 32 - k) % 2 ^ 32 ≡ n - k =
        omega (arith, e) in
      rw count (
        Returns->>= (Copied x.buffer (n - k) src) (Taken tls_buffer k n x)
          (if ltb 0 (n - k) then memcpy x.buffer 0 src (n - k) else done x.buffer) _
          (copy-Copied x.buffer (n - k) src (omega arith) (omega (arith, length-drop k tls_buffer)))
          (λ b copied.
            let fits : n - k + 1 ≤ length b = omega (arith, copied.0) in
            rw (memcpy_done b (n - k) (0 ∷ []) 1 fits (omega arith)) (record {
              is_taken = refl;
              keeps = length-copy b (n - k) 1 (0 ∷ []) fits (omega arith) ∙ copied.0;
              body = take-end b (n - k) (omega (arith, copied.0)) ∙ copied.1;
            })))
