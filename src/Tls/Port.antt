-- ===== src/Tls/Port.antt =====
-- The port of the server in main/wifi_tls.c: it is given as a text, kept as a number, and handed to
-- mbedTLS as a text again.
use native.Mathlib.Omega.{pow_step}
use esp32_ota_https.Prelude.{
  ltb, ◌==◌, Bool-cases, ℤ, pos, negsuc, length, done, ◌>>=◌, Returns, ℕ, zero, suc, ◌+◌, ◌-◌, ◌*◌,
  ◌/◌, ◌%◌, ◌^◌, ◌≤◌, ◌<◌, ◌≡◌, refl, ap, ◌∙◌, ◌⊎◌, inl, inr, Bool, true, false, Option, none, some,
  List, [], ◌∷◌, ◌++◌, arith,
}
use esp32_ota_https.CText.{
  is_space, is_digit, skip_space, read_digits, read_sign, to_int, atoi, has_digit, digits,
  sprintf_int,
}
use esp32_ota_https.Tls.{Mbedtls, Tls}
use esp32_ota_https.Tls.Connection.{port_buf_size, connect_to_port, open_connection}

is_digit_digit : (d : ℕ) → d < 10 → is_digit (48 + d) ≡ true
is_digit_digit d h = ground arith

read_digit :
    (d acc : ℕ) (text : List ℕ)
    → d < 10
    → read_digits ((48 + d) ∷ text) acc ≡ read_digits text (acc * 10 + d)
unfolding read_digits
read_digit d acc text h =
    let same : acc * 10 + (48 + d - 48) ≡ acc * 10 + d = omega arith in
    rw (is_digit_digit d h, same) refl

first_digit :
    (d : ℕ) (text : List ℕ) → d < 10 → read_digits ((48 + d) ∷ text) 0 ≡ read_digits text d
first_digit d text h =
    let same : 0 * 10 + d ≡ d = omega arith in read_digit d 0 text h ∙ ap (read_digits text) same

read_digits-digits :
    (fuel n : ℕ) (text : List ℕ)
    → n < 10 ^ fuel
    → 0 < fuel
    → read_digits (digits fuel n text) 0 ≡ read_digits text n
unfolding digits
read_digits-digits zero n text h some_fuel = absurd (omega arith)
read_digits-digits (suc zero) n text h some_fuel =
    let last : ltb n 10 ≡ true = ground (arith, h) in rw last (first_digit n text (omega arith))
read_digits-digits (suc (suc fuel)) n text h some_fuel = elim (Bool-cases (ltb n 10)) [
  | inl last ↦ rw last (first_digit n text (ground (arith, last)))
  | inr more ↦
      let joined : n / 10 * 10 + n % 10 ≡ n = omega arith in
      let power : 10 ^ suc (suc fuel) ≡ 10 * 10 ^ suc fuel = pow_step 10 (suc fuel) in
      let rest : n / 10 < 10 ^ suc fuel = omega (arith, power) in
      rw more (
        read_digits-digits (suc fuel) (n / 10) ((48 + n % 10) ∷ text) rest (omega arith)
        ∙ read_digit (n % 10) (n / 10) text (omega arith)
        ∙ ap (read_digits text) joined)
]

has_digit-digits : (fuel n : ℕ) (text : List ℕ) → has_digit (digits (suc fuel) n text) ≡ true
unfolding digits
has_digit-digits zero n text = elim (Bool-cases (ltb n 10)) [
  | inl last ↦ rw last (is_digit_digit n (ground (arith, last)))
  | inr more ↦ rw more (is_digit_digit (n % 10) (omega arith))
]
has_digit-digits (suc fuel) n text = elim (Bool-cases (ltb n 10)) [
  | inl last ↦ rw last (is_digit_digit n (ground (arith, last)))
  | inr more ↦ rw more (has_digit-digits fuel (n / 10) ((48 + n % 10) ∷ text))
]

length-digits : (fuel n : ℕ) (text : List ℕ) → length (digits fuel n text) ≤ fuel + length text
unfolding digits
length-digits zero n text = omega arith
length-digits (suc fuel) n text = ground (arith, length-digits fuel (n / 10) ((48 + n % 10) ∷ text))

digits_append :
    (fuel n : ℕ) (text rest : List ℕ) → digits fuel n text ++ rest ≡ digits fuel n (text ++ rest)
unfolding digits
digits_append zero n text rest = refl
digits_append (suc fuel) n text rest = elim (Bool-cases (ltb n 10)) [
  | inl last ↦ rw last refl
  | inr more ↦ rw more (digits_append fuel (n / 10) ((48 + n % 10) ∷ text) rest)
]

-- A text that begins with a digit has no space and no sign to be skipped.
atoi-digits :
    (text : List ℕ)
    → has_digit text ≡ true
    → atoi text ≡ (read_digits text 0 >>= λ out. to_int false out.0)
unfolding atoi skip_space read_sign
atoi-digits [] h = absurd (ground (arith, h))
atoi-digits (c ∷ text) h =
    let no_space : is_space c ≡ false = ground (arith, h) in
    let no_minus : c == b'-' ≡ false = ground (arith, h) in
    let no_plus : c == b'+' ≡ false = ground (arith, h) in rw no_space (rw (no_minus, no_plus) refl)

read_nul : (n : ℕ) → read_digits (0 ∷ []) n ≡ done (n, 0 ∷ [])
unfolding read_digits
read_nul n = refl

to_int_pos : (n : ℕ) → n < 2 ^ 31 → to_int false n ≡ done (pos n)
unfolding to_int
to_int_pos n h = ground arith

-- The digits of a number denote it.
atoi-digits_nul :
    (fuel n : ℕ)
    → n < 10 ^ suc fuel
    → n < 2 ^ 31
    → atoi (digits (suc fuel) n [] ++ 0 ∷ []) ≡ done (pos n)
atoi-digits_nul fuel n h small =
    ap atoi (digits_append (suc fuel) n [] (0 ∷ []))
    ∙ atoi-digits (digits (suc fuel) n (0 ∷ [])) (has_digit-digits fuel n (0 ∷ []))
    ∙ ap (λ r. r >>= λ out. to_int false out.0)
        (read_digits-digits (suc fuel) n (0 ∷ []) h (omega arith) ∙ read_nul n)
    ∙ to_int_pos n small

-- What the number of a port is printed as, in a buffer of this size.
abbrev pub Printed : ℕ → ℕ → List ℕ → Type 0
Printed size n text = (length text < size) × (atoi (text ++ 0 ∷ []) ≡ done (pos n))

pub sprintf_int-Printed :
    (size n : ℕ) → n < 2 ^ 31 → 10 < size → Returns (Printed size n) (sprintf_int size n)
unfolding sprintf_int
sprintf_int-Printed size n small room =
    let short : length (digits 10 n []) ≤ 10 = omega (arith, length-digits 10 n []) in
    let fits : ltb (length (digits 10 n [])) size ≡ true = ground (arith, short) in
    rw fits (omega (arith, short), atoi-digits_nul 9 n (omega arith) small)

-- The context keeps the port that the text denotes. The connection is opened with it as a text.
abbrev pub PortKept : {Cert : Type 0} → Mbedtls Cert → ℤ → Tls Cert → Type 0
PortKept m v c =
    (v ≡ pos c.server_port)
    × (0 < c.server_port)
    × (c.server_port ≤ 65535)
    × ((text : List ℕ) × Printed port_buf_size c.server_port text
        × (open_connection m c ≡ connect_to_port m c text))

-- A number that is no port.
abbrev pub IsNoPort : ℤ → Type 0
IsNoPort (pos k) = (k ≡ 0) ⊎ (65535 < k)
IsNoPort (negsuc k) = Unit

-- What becomes of a text for the port that denotes `v`.
abbrev pub PortDone : {Cert : Type 0} → Mbedtls Cert → ℤ → Bool → Option (Tls Cert) → Type 0
PortDone m v allocated none = IsNoPort v ⊎ (allocated ≡ false)
PortDone m v allocated (some c) = PortKept m v c × (allocated ≡ true)
