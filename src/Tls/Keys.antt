-- ===== src/Tls/Keys.antt =====
-- What the comparison in `wifi_tls_cert_pinning` of main/wifi_tls.c compares, given that mbedTLS
-- writes a key at the end of its buffer.
use esp32_ota_https.Prelude.{
  ◌==◌, if◌then◌else◌, Bool-cases, ℤ, pos, length, take, replicate, length-append, length-replicate,
  done, ℕ, zero, suc, ◌-◌, ◌%◌, ◌^◌, ◌≤◌, ◌≡◌, refl, ap, ◌∙◌, inl, inr, true, ◌&&◌, some, List, [],
  ◌∷◌, ◌++◌, arith,
}
use esp32_ota_https.Tls.{Mbedtls, Tls, minus_one}
use esp32_ota_https.Tls.Pinning.{
  buf_size, same_bytes, memcmp_equal, compare_keys, wifi_tls_cert_pinning,
}

-- What the documentation of `mbedtls_pk_write_pubkey_der` says: the key is written at the end of the
-- buffer, and the result is its length.
abbrev pub WritesAtEnd : {Cert : Type 0} → Mbedtls Cert → (Cert → List ℕ) → Type 0
WritesAtEnd {Cert} m der =
    (cert : Cert) (buffer : List ℕ)
    → length (der cert) ≤ length buffer
    → m.pk_write_pubkey_der cert buffer
      ≡ (pos (length (der cert)), take (length buffer - length (der cert)) buffer ++ der cert)

same_bytes-append : (zs xs ys : List ℕ) → same_bytes (zs ++ xs) (zs ++ ys) ≡ same_bytes xs ys
same_bytes-append [] xs ys = refl
same_bytes-append (z ∷ zs) xs ys = ground (arith, same_bytes-append zs xs ys)

take-replicate : (k n : ℕ) → n ≤ k → take n (replicate k 0) ≡ replicate {A = ℕ} n 0
take-replicate k zero h = refl
take-replicate zero (suc n) h = absurd (omega arith)
take-replicate (suc k) (suc n) h = rw (take-replicate k n (omega arith))

-- The first `n` bytes of two buffers that start with `k` zeros agree if what follows agrees.
same_bytes-fronts :
    (k n : ℕ) (xs ys : List ℕ)
    → same_bytes (take n (replicate k 0 ++ xs)) (take n (replicate k 0 ++ ys))
      ≡ same_bytes (take (n - k) xs) (take (n - k) ys)
same_bytes-fronts zero n xs ys = ap (λ j. same_bytes (take j xs) (take j ys)) (omega arith)
same_bytes-fronts (suc k) zero xs ys =
    ap (λ j. same_bytes (take j xs) (take j ys)) {x = 0} {y = 0 - suc k} (omega arith)
same_bytes-fronts (suc k) (suc n) xs ys =
    same_bytes-fronts k n xs ys
    ∙ ap (λ j. same_bytes (take j xs) (take j ys)) {x = n - k} {y = suc n - suc k} (omega arith)

-- A buffer of `size` bytes that ends with a key.
abbrev ending_with : ℕ → List ℕ → List ℕ
ending_with size key = replicate (size - length key) 0 ++ key

length-ending_with :
    (size : ℕ) (key : List ℕ) → length key ≤ size → length (ending_with size key) ≡ size
length-ending_with size key h = omega (
  arith,
  length-append (replicate (size - length key) 0) key,
  length-replicate {0} {A = ℕ} (size - length key) 0,
)

memcmp_equal_lem :
    (size n : ℕ) (xs ys : List ℕ)
    → length xs ≡ size
    → length ys ≡ size
    → n ≤ size
    → memcmp_equal xs ys n ≡ done (same_bytes (take n xs) (take n ys))
unfolding memcmp_equal
memcmp_equal_lem size n xs ys hx hy h = ground arith

-- The verdict on two keys, where the first bytes of the buffers are compared.
abbrev pub verdict : ℕ → List ℕ → List ℕ → ℤ
verdict size expected actual =
    let n = length actual in
    let compared = n - (size - n) in
    if length expected == n && same_bytes (take compared expected) (take compared actual)
    then pos 0
    else minus_one

compare_keys_lem :
    (size : ℕ) (expected actual : List ℕ)
    → size ≤ buf_size
    → length expected ≤ size
    → length actual ≤ size
    → compare_keys
        (pos (length expected), ending_with size expected)
        (pos (length actual), ending_with size actual)
      ≡ done (verdict size expected actual)
unfolding compare_keys
compare_keys_lem size expected actual h he ha =
    elim (Bool-cases (length expected == length actual)) [
      | inl same ↦
          let n = length actual in
          let e : length expected ≡ n = ground arith in
          let small : n % 2 ^ 32 ≡ n = omega (arith, h, ha) in
          let xs = replicate (size - n) 0 ++ expected in
          let lx : length xs ≡ size = omega (
            arith,
            length-append (replicate (size - n) 0) expected,
            length-replicate {0} {A = ℕ} (size - n) 0,
            e,
            ha,
          ) in
          rw (same, small, e)
            (rw
              (memcmp_equal_lem size n xs (ending_with size actual) lx
                (length-ending_with size actual ha) ha)
              (rw (same_bytes-fronts (size - n) n expected actual)))
      | inr other ↦ rw other
    ]

module _ {Cert : Type 0} (m : Mbedtls Cert) (der : Cert → List ℕ) where
  -- What mbedTLS writes into a buffer of zeros.
  key_in_zeros :
      (cert : Cert)
      → WritesAtEnd m der
      → length (der cert) ≤ buf_size
      → m.pk_write_pubkey_der cert (replicate buf_size 0)
        ≡ (pos (length (der cert)), ending_with buf_size (der cert))
  key_in_zeros cert writes h =
      writes cert (replicate buf_size 0) h
      ∙ ap (λ front. (pos (length (der cert)), front ++ der cert))
          (take-replicate buf_size (buf_size - length (der cert)) (omega arith))

  -- With both buffers allocated, pinning gives the verdict on the expected key and the server's: it
  -- accepts the server exactly if the two keys have one length n and agree on their first 2 n - 512
  -- bytes. Of the rest of the keys nothing is compared.
  pub wifi_tls_cert_pinning_lem :
      (c : Tls Cert) (expected actual : Cert)
      → WritesAtEnd m der
      → m.calloc c.log ≡ (true, true)
      → c.peer_cert ≡ some expected
      → m.ssl_get_peer_cert c.log ≡ some actual
      → length (der expected) ≤ buf_size
      → length (der actual) ≤ buf_size
      → wifi_tls_cert_pinning m c ≡ done (verdict buf_size (der expected) (der actual))
  unfolding wifi_tls_cert_pinning
  wifi_tls_cert_pinning_lem c expected actual writes alloc e a he ha =
      rw (a, wifi_tls_cert_pinning)
        (rw alloc (
          rw (e, wifi_tls_cert_pinning)
            (rw (key_in_zeros expected writes he, key_in_zeros actual writes ha)
              (compare_keys_lem buf_size (der expected) (der actual) (omega arith) he ha))))
