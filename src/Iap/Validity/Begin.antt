-- ===== src/Iap/Validity/Begin.antt =====
-- `iap_begin` of main/iap.c leaves a valid state, on each of its branches.
use esp32_ota_https.Prelude.{
  Bool-cases, length, done, Returns, Returns->>=, ℕ, ◌≡◌, refl, inl, inr, true, false, Option, none,
  some, List, arith,
}
use esp32_ota_https.Flash.{Partition, Platform}
use esp32_ota_https.Iap.{
  out_of_memory, null, live, page_size, Iap, iap_find_next_boot_partition, begin_ota,
  begin_partition, begin_session, iap_begin,
}
use esp32_ota_https.Iap.Boot.{find-Returns}
use esp32_ota_https.Iap.Validity.{Activations, IsValid, KeepsValid, MallocGives, BootKnown}

module _ (p : Platform) where
  begin_ota-IsValid :
      (target : Partition) (s : Iap) (b : List ℕ)
      → s.page_buffer ≡ live b
      → length b ≡ page_size
      → s.page_buffer_ix ≡ 0
      → s.initialized ≡ true
      → s.partition_to_program ≡ some target
      → s.session_open ≡ false
      → Activations s.log
      → Returns KeepsValid (begin_ota p target s)
  unfolding begin_ota
  begin_ota-IsValid target s b e l i up t c a = ground arith

  begin_partition-IsValid :
      (s : Iap) (b : List ℕ)
      → BootKnown p
      → s.page_buffer ≡ live b
      → length b ≡ page_size
      → s.page_buffer_ix ≡ 0
      → s.initialized ≡ true
      → s.session_open ≡ false
      → Activations s.log
      → Returns KeepsValid (begin_partition p s)
  unfolding begin_partition
  begin_partition-IsValid s b known e l i up c a =
      let AnyPartition : Option Partition → Type 0 = λ _. Unit {0} in
      Returns->>= AnyPartition KeepsValid (iap_find_next_boot_partition p s.log) _
        (find-Returns p s.log (known s.log))
        (elim [
          | none ↦ λ _. ground arith
          | some target ↦ λ _.
              begin_ota-IsValid target (record s { partition_to_program = some target }) b e l i up
                refl c a
        ])

  begin_session-IsValid :
      (s : Iap)
      → MallocGives p
      → BootKnown p
      → IsValid s
      → s.initialized ≡ true
      → s.session_open ≡ false
      → Returns KeepsValid (begin_session p s)
  unfolding begin_session
  begin_session-IsValid s gives known v up c = go (p.malloc s.log page_size) refl
    where
      s₀ : Iap
      s₀ = record s { page_buffer_ix = 0 }

      go :
          (m : Option (List ℕ))
          → p.malloc s.log page_size ≡ m
          → Returns KeepsValid (elim m [
            | none ↦ done (out_of_memory, record s₀ { page_buffer = null })
            | some bytes ↦ begin_partition p (record s₀ { page_buffer = live bytes })
          ])
      go none e = ground arith
      go (some bytes) e =
          begin_partition-IsValid (record s₀ { page_buffer = live bytes }) bytes known refl
            (gives s.log page_size bytes e) refl up c v.activations

  pub iap_begin-IsValid :
      (s : Iap) → MallocGives p → BootKnown p → IsValid s → Returns KeepsValid (iap_begin p s)
  unfolding iap_begin
  iap_begin-IsValid s gives known v = elim (Bool-cases s.initialized) [
    | inl up ↦ elim (Bool-cases s.session_open) [
      | inl open_now ↦ simp (up, open_now) v
      | inr closed ↦ simp (up, closed) (begin_session-IsValid s gives known v up closed)
    ]
    | inr down ↦ simp down v
  ]
