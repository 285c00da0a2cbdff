-- ===== src/Tls/Pinning.antt =====
-- `wifi_tls_cert_pinning` of main/wifi_tls.c: the comparison of the server's public key with the
-- one that the program expects.
use esp32_ota_https.Prelude.{
  leb, ◌==◌, if◌then◌else◌, ℤ, pos, ◌==ℤ◌, to_u32, length, take, replicate, Run, done, fault, ◌>>=◌,
  ℕ, Bool, true, false, ◌&&◌, none, some, List, [], ◌∷◌,
}
use esp32_ota_https.Tls.{Mbedtls, Tls, minus_one}

abbrev pub buf_size : ℕ
buf_size = 512

-- `memcmp(a, b, n)` is 0, for two blocks: a length past their end is a fault.
abbrev pub same_bytes : List ℕ → List ℕ → Bool
same_bytes [] [] = true
same_bytes [] (y ∷ ys) = false
same_bytes (x ∷ xs) [] = false
same_bytes (x ∷ xs) (y ∷ ys) = x == y && same_bytes xs ys

unfoldable pub memcmp_equal : List ℕ → List ℕ → ℕ → Run Bool
memcmp_equal a b n =
    if leb n (length a) && leb n (length b) then done (same_bytes (take n a) (take n b)) else fault

-- The two lengths and buffers, compared.
unfoldable pub compare_keys : ℤ × List ℕ → ℤ × List ℕ → Run ℤ
compare_keys (len_expected, expected) (len_actual, actual) =
    let compared = do
      -- a negative length becomes a large `size_t`
      same ← memcmp_equal expected actual (to_u32 len_actual)
      done (if same then pos 0 else minus_one)
    in if len_expected ==ℤ len_actual then compared else done minus_one

module _ {Cert : Type 0} (m : Mbedtls Cert) where
  -- The result is 0, or -1 on an error. The peer certificate of the context has been parsed before.
  unfoldable pub wifi_tls_cert_pinning : Tls Cert → Run ℤ
  wifi_tls_cert_pinning c =
      let zeros = replicate buf_size 0 in
      let (got_expected, got_actual) = m.calloc c.log in
      elim (m.ssl_get_peer_cert c.log) [
        | none ↦ done minus_one
        | some cert ↦
            if got_expected && got_actual
            then elim (c.peer_cert) [
              | none ↦ fault
              | some expected ↦
                  compare_keys (m.pk_write_pubkey_der expected zeros)
                    (m.pk_write_pubkey_der cert zeros)
            ]
            else done minus_one
      ]
