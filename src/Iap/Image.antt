-- ===== src/Iap/Image.antt =====
-- The image that a programming session of main/iap.c builds: the bytes in the flash and those
-- that wait in the page buffer. `iap_write` appends to it.
mod Open
mod Round
pub use Open.{buffered, image, IsPage, IsOpen, LastWriteFailed}
use esp32_ota_https.Prelude.{
  ◌==◌, Bool-cases, length, take, drop, length-drop, take-add, Returns, Returns->>=, Returns-mono,
  ℕ, zero, suc, ◌+◌, ◌-◌, ◌^◌, ◌≤◌, ◌<◌, ◌≡◌, refl, sym, ap, ◌∙◌, ◌⊎◌, inl, inr, List, ◌++◌,
  append-nil, append_assoc, arith,
}
use esp32_ota_https.Flash.{Partition, Platform}
use esp32_ota_https.Iap.{
  IapErr, ok, write_failed, page_size, Iap, nof_bytes_to_copy, write_round, write_loop, iap_write,
}
use esp32_ota_https.Iap.Image.Round.{RoundDone, round_at}

module _ (p : Platform) (target : Partition) where
  -- What the loop leaves behind: `count` bytes are taken, all of them unless a write fails.
  pub record Written (s : Iap) (bytes : List ℕ) (len : ℕ) (out : IapErr × Iap) : Type 0 where
    pub still_open : IsOpen target out.1
    pub count : ℕ
    pub at_most : count ≤ len
    pub grown : image out.1 ≡ image s ++ take count bytes
    pub outcome :
        (out.0 ≡ ok) × (count ≡ len) ⊎ (out.0 ≡ write_failed) × LastWriteFailed p out.1.log

  -- What the rest of the loop has written, counted from the round before it.
  Written-later :
      (s s' : Iap) (bytes : List ℕ) (len n : ℕ)
      → n ≤ len
      → image s' ≡ image s ++ take n bytes
      → (out : IapErr × Iap) → Written s' (drop n bytes) (len - n) out
      → Written s bytes len out
  Written-later s s' bytes len n h e out w = record {
    still_open = w.still_open;
    count = n + w.count;
    at_most = omega (arith, w.at_most);
    grown =
        w.grown
        ∙ ap (λ b. b ++ take w.count (drop n bytes)) e
        ∙ append_assoc (image s) (take n bytes) (take w.count (drop n bytes))
        ∙ ap (λ b. image s ++ b) (sym (take-add n w.count bytes));
    outcome = ground (arith, w.outcome);
  }

  write_loop_lem :
      (fuel : ℕ) (s : Iap) (bytes : List ℕ) (len : ℕ)
      → IsOpen target s
      → len ≤ length bytes
      → len < 2 ^ 16
      → (len < fuel) × (s.page_buffer_ix < page_size) ⊎ (len + 1 < fuel)
      → Returns (Written s bytes len) (write_loop p fuel s bytes len)
  unfolding write_loop
  write_loop_lem zero s bytes len o h k m = absurd (omega arith)
  write_loop_lem (suc fuel) s bytes len o h k m = elim (Bool-cases (len == 0)) [
    | inl none_left ↦ rw none_left (record {
      still_open = o;
      count = 0;
      at_most = omega arith;
      grown = sym (append-nil (image s));
      outcome = inl (refl, ground arith);
    })
    | inr some_left ↦ rw some_left (
        Returns->>= (RoundDone p target s (take (nof_bytes_to_copy s len) bytes))
          (Written s bytes len) (write_round p s bytes len) _
          (round_at p target s s.page_buffer bytes len o h k)
          λ out done_round.
            let n = nof_bytes_to_copy s len in
            elim (done_round.2) [
              | inl good ↦ rw (good.0) (
                  Returns-mono (Written out.1 (drop n bytes) (len - n)) (Written s bytes len)
                    (write_loop p fuel out.1 (drop n bytes) (len - n))
                    (Written-later s out.1 bytes len n (ground (arith, o.index)) (done_round.1))
                    (write_loop_lem fuel out.1 (drop n bytes) (len - n) (done_round.0)
                      (omega (arith, length-drop n bytes)) (omega arith)
                      (inl (ground (arith, o.index), good.1))))
              | inr bad ↦ rw (bad.0) (record {
                still_open = done_round.0;
                count = n;
                at_most = ground (arith, o.index);
                grown = done_round.1;
                outcome = inr (refl, bad.1);
              })
            ])
  ]

  -- In an open session `iap_write` returns. It appends the bytes that it is given to the image, in
  -- order: all of them if it reports success, and otherwise a prefix of them, and then its last call
  -- of the flash is a write that failed.
  pub iap_write-Written :
      (s : Iap) (bytes : List ℕ) (len : ℕ)
      → IsOpen target s
      → len ≤ length bytes
      → len < 2 ^ 16
      → Returns (Written s bytes len) (iap_write p s bytes len)
  unfolding iap_write
  iap_write-Written s bytes len o h k =
      simp (o.is_initialized, o.is_open)
        (write_loop_lem (len + 2) s bytes len o h k (inr (omega arith)))
