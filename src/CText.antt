-- ===== src/CText.antt =====
-- The functions of the C library that main/https_client.c and main/iap_https.c use on text.
--
-- A pointer to text is the list of the bytes from there to the end of its block. The text ends at
-- the first byte 0; a function that reads past the end of the block is a `fault`. So is the
-- conversion of a number that no `int` holds, which C leaves undefined.
use Prim.Native.Char.{code}
use Prim.Native.String.{String}
use esp32_ota_https.Prelude.{
  ltb, leb, ◌==◌, if◌then◌else◌, ℤ, pos, negsuc, length, replicate, Run, done, fault, ◌>>=◌, ℕ,
  zero, suc, ◌+◌, ◌-◌, ◌*◌, ◌/◌, ◌%◌, ◌^◌, Bool, true, false, ◌&&◌, ◌||◌, Option, none, some, List,
  [], ◌∷◌,
}

-- The bytes of an ASCII text.
abbrev pub codes : String → List ℕ
codes String.[] = []
codes (String.◌∷◌ c s) = code c ∷ codes s

abbrev pub crlf : List ℕ
crlf = 13 ∷ 10 ∷ []

-- The first text stands at the front of the second.
abbrev pub is_prefix : List ℕ → List ℕ → Bool
is_prefix [] block = true
is_prefix (k ∷ key) [] = false
is_prefix (k ∷ key) (c ∷ block) = k == c && is_prefix key block

abbrev pub shift : Option ℕ → Option ℕ
shift none = none
shift (some i) = some (suc i)

-- `strstr(block, key)`: the offset of the first occurrence, or none for NULL.
unfoldable pub strstr : List ℕ → List ℕ → Run (Option ℕ)
strstr [] key = fault
strstr (c ∷ block) key =
    let later = do found ← strstr block key; done (shift found)
    in if is_prefix key (c ∷ block) then done (some 0) else if c == 0 then done none else later

abbrev pub is_space : ℕ → Bool
is_space c = c == 32 || leb 9 c && leb c 13

abbrev pub is_digit : ℕ → Bool
is_digit c = leb 48 c && leb c 57

unfoldable pub skip_space : List ℕ → List ℕ
skip_space [] = []
skip_space (c ∷ text) = if is_space c then skip_space text else c ∷ text

-- The number that a row of digits denotes, read on from `acc`, and the text behind it.
unfoldable pub read_digits : List ℕ → ℕ → Run (ℕ × List ℕ)
read_digits [] acc = fault
read_digits (c ∷ text) acc =
    let rest = read_digits text (acc * 10 + (c - 48)) in
    if is_digit c then rest else done (acc, c ∷ text)

-- An optional sign: whether it is a minus, and the text behind it.
unfoldable pub read_sign : List ℕ → Bool × List ℕ
read_sign [] = (false, [])
read_sign (c ∷ text) =
    if c == b'-' then (true, text) else if c == b'+' then (false, text) else (false, c ∷ text)

-- The `int` of a sign and a magnitude.
unfoldable pub to_int : Bool → ℕ → Run ℤ
to_int false n = if ltb n (2 ^ 31) then done (pos n) else fault
to_int true zero = done (pos 0)
to_int true (suc n) = if ltb n (2 ^ 31) then done (negsuc n) else fault

-- `atoi(text)`, which is 0 where there is no number.
unfoldable pub atoi : List ℕ → Run ℤ
unfolding read_sign
atoi text = do
  let (minus, digits) = read_sign (skip_space text)
  (n, _) ← read_digits digits 0
  to_int minus n

-- Whether a digit stands at the front.
abbrev pub has_digit : List ℕ → Bool
has_digit [] = false
has_digit (c ∷ text) = is_digit c

-- The conversion `%d` of `sscanf`: the value and the text behind it, or none where it does not fit.
unfoldable pub scan_int : List ℕ → Run (Option (ℤ × List ℕ))
unfolding read_sign
scan_int text =
    let (minus, digits) = read_sign (skip_space text) in
    let number : Run (Option (ℤ × List ℕ)) = do
      (n, rest) ← read_digits digits 0
      v ← to_int minus n
      done (some (v, rest))
    in if has_digit digits then number else done none

-- Ordinary characters in the format of `sscanf`: the text behind them, or none.
unfoldable pub scan_text : List ℕ → List ℕ → Run (Option (List ℕ))
scan_text [] text = done (some text)
scan_text (k ∷ key) [] = fault
scan_text (k ∷ key) (c ∷ text) = let rest = scan_text key text in if k == c then rest else done none

-- A step of `sscanf` behind one that fits.
abbrev pub ◌>>?◌ {ℓ κ} :
    {A : Type ℓ} {B : Type κ} → Run (Option A) → (A → Run (Option B)) → Run (Option B)
◌>>?◌ m f = m >>= λ r. elim r [ none ↦ done none | some a ↦ f a ]

-- `sscanf(text, "HTTP/%d.%d %d ", &major, &minor, &code)`: the three values, or none where fewer
-- than three conversions are made.
unfoldable pub scan_status_line : List ℕ → Run (Option (ℤ × ℤ × ℤ))
scan_status_line text = ◌>>?◌ (scan_text (codes "HTTP/") text) λ t₁.
    ◌>>?◌ (scan_int t₁) λ (major, t₂). ◌>>?◌ (scan_text (codes ".") t₂) λ t₃.
      ◌>>?◌ (scan_int t₃) λ (minor, t₄).
        ◌>>?◌ (scan_int (skip_space t₄)) λ (status, _). done (some (major, minor, status))

-- `strncpy(dst, text, n)`: the `n` bytes that it writes, zeros behind the end of the text.
unfoldable pub strncpy : List ℕ → ℕ → Run (List ℕ)
strncpy text zero = done []
strncpy [] (suc n) = fault
strncpy (c ∷ text) (suc n) =
    let later = do copied ← strncpy text n; done (c ∷ copied)
    in if c == 0 then done (replicate (suc n) 0) else later

-- The decimal digits of a number below 10 ^ fuel, in front of `text`.
unfoldable pub digits : ℕ → ℕ → List ℕ → List ℕ
digits zero n text = text
digits (suc fuel) n text =
    let more = digits fuel (n / 10) ((48 + n % 10) ∷ text) in
    if ltb n 10 then (48 + n) ∷ text else more

-- `sprintf(buf, "%d", n)` for an `int` that is not negative: the text, which has to fit the `size`
-- bytes of the buffer with its final 0. No `int` has more than ten digits.
unfoldable pub sprintf_int : ℕ → ℕ → Run (List ℕ)
sprintf_int size n =
    let text = digits 10 n [] in if ltb (length text) size then done text else fault
