-- ===== src/Http/Lines.antt =====
-- `http_parse_key_value_int` and `http_parse_key_value_string` of main/https_client.c: what they
-- read, and that they stay inside their buffers.
use esp32_ota_https.Prelude.{
  ◌==◌, Bool-cases, length, take, drop, replicate, done, ◌>>=◌, Ensures, Ensures->>=,
  Ensures-trivial, ℕ, zero, suc, ◌+◌, ◌-◌, ◌≤◌, ◌<◌, ◌≡◌, refl, ap, inl, inr, Bool, true, false,
  ◌||◌, Option, none, some, List, [], ◌∷◌, ◌++◌, arith,
}
use esp32_ota_https.CText.{strstr, strncpy}
use esp32_ota_https.Http.{copy_line, http_parse_key_value_string}

-- The end of a value: the end of the text or of the line.
abbrev pub is_stop : ℕ → Bool
is_stop c = c == 0 || c == 13 || c == 10

-- No byte of the value ends it.
abbrev pub IsClean : List ℕ → Type 0
IsClean [] = Unit
IsClean (c ∷ text) = (is_stop c ≡ false) × IsClean text

-- A value as it is stored: clean, ended by a 0, and `n` bytes at most.
abbrev pub IsLine : ℕ → List ℕ → Type 0
IsLine n bytes = (value : List ℕ) × (bytes ≡ value ++ 0 ∷ []) × IsClean value × (length value < n)

-- The result of a search for a line of `n` bytes at most.
abbrev pub LineResult : ℕ → Option (List ℕ) → Type 0
LineResult n none = Unit
LineResult n (some bytes) = IsLine n bytes

copy_line-IsClean :
    (n : ℕ) (src : List ℕ) → Ensures (λ out. IsClean out × (length out ≤ n)) (copy_line n src)
unfolding copy_line
copy_line-IsClean zero src = (tt, omega arith)
copy_line-IsClean (suc n) [] = tt
copy_line-IsClean (suc n) (c ∷ src) = elim (Bool-cases (is_stop c)) [
  | inl stop ↦ rw stop (tt, omega arith)
  | inr more ↦
      let Short : List ℕ → Type 0 = λ out. IsClean out × (length out ≤ n) in
      let Long : List ℕ → Type 0 = λ out. IsClean out × (length out ≤ suc n) in
      rw more (
        Ensures->>= Short Long (copy_line n src) _ (copy_line-IsClean n src)
          (λ out h. ((more, h.0), omega (arith, h.1))))
]

-- A value that is ended is copied as far as there is room.
copy_line-value :
    (n : ℕ) (value rest : List ℕ) (stop : ℕ)
    → IsClean value
    → is_stop stop ≡ true
    → copy_line n (value ++ stop ∷ rest) ≡ done (take n value)
unfolding copy_line
copy_line-value zero value rest stop v s = refl
copy_line-value (suc n) [] rest stop v s = rw s
copy_line-value (suc n) (c ∷ value) rest stop v s =
    rw (v.0) (rw (copy_line-value n value rest stop (v.1) s))

-- What is stored for a key is a clean text that ends with a 0 and fits the buffer of `str_len`
-- bytes, whatever the text is that is searched.
pub http_parse_key_value_string-IsLine :
    (buffer key : List ℕ) (str_len : ℕ)
    → 0 < str_len
    → Ensures (LineResult str_len) (http_parse_key_value_string buffer key str_len)
unfolding http_parse_key_value_string
http_parse_key_value_string-IsLine buffer key str_len h =
    Ensures->>= (λ _. Unit {0}) (LineResult str_len) (strstr buffer key) _ (Ensures-trivial _)
      (elim [ none ↦ λ _. tt | some i ↦ λ _. stored (drop (i + length key) buffer) ])
  where
    Short : List ℕ → Type 0
    Short out = IsClean out × (length out ≤ str_len - 1)

    stored :
        (src : List ℕ)
        → Ensures
            (LineResult str_len)
            (copy_line (str_len - 1) src >>= λ copied. done (some (copied ++ 0 ∷ [])))
    stored src =
        Ensures->>= Short (LineResult str_len) (copy_line (str_len - 1) src) _
          (copy_line-IsClean (str_len - 1) src) (λ out c. (out, refl, c.0, omega (arith, c.1)))

-- The value behind the first occurrence of the key is what is stored, cut to the room in `str`, if
-- the value is ended by a line break or the end of the text.
pub http_parse_key_value_string-value :
    (buffer key value rest : List ℕ) (i stop str_len : ℕ)
    → strstr buffer key ≡ done (some i)
    → drop (i + length key) buffer ≡ value ++ stop ∷ rest
    → IsClean value
    → is_stop stop ≡ true
    → http_parse_key_value_string buffer key str_len
      ≡ done (some (take (str_len - 1) value ++ 0 ∷ []))
unfolding http_parse_key_value_string
http_parse_key_value_string-value buffer key value rest i stop str_len found behind v s =
    rw (found, http_parse_key_value_string)
      (rw behind (rw (copy_line-value (str_len - 1) value rest stop v s)))

-- A clean value is copied whole by `strncpy`, and padded with zeros.
pub strncpy-line :
    (n : ℕ) (value rest : List ℕ)
    → IsClean value
    → length value < n
    → strncpy (value ++ 0 ∷ rest) n ≡ done (value ++ replicate (n - length value) 0)
unfolding strncpy
strncpy-line zero value rest v h = absurd (omega arith)
strncpy-line (suc n) [] rest v h =
    ap (λ k. done (replicate k 0)) {x = suc n} {y = suc n - 0} (omega arith)
strncpy-line (suc n) (c ∷ value) rest v h =
    let nonzero : (c == 0) ≡ false = ground (arith, v.0) in
    let e : suc n - suc (length value) ≡ n - length value = omega arith in
    rw nonzero (rw (strncpy-line n value rest (v.1) (omega arith)) (rw e))
