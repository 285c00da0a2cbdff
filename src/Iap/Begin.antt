-- ===== src/Iap/Begin.antt =====
-- `iap_begin` of main/iap.c: every way in which it can end.
use esp32_ota_https.Prelude.{
  Bool-cases, is_zero, length, take-zero, done, Returns, Returns->>=, Returns-mono, ℕ, ◌≡◌, refl,
  ◌⊎◌, inl, inr, true, false, Option, none, some, List, [], arith,
}
use esp32_ota_https.Flash.{Partition, Platform, flashed}
use esp32_ota_https.Iap.{
  IapErr, ok, fail, out_of_memory, partition_not_found, null, live, page_size, Iap,
  iap_find_next_boot_partition, begin_ota, begin_partition, begin_session, iap_begin,
}
use esp32_ota_https.Iap.Image.{image, IsOpen}
use esp32_ota_https.Iap.Validity.{MallocGives, BootKnown}
use esp32_ota_https.Iap.Boot.{find-Returns}

-- A session has been opened, and its image is empty.
abbrev pub Opened : Partition → IapErr × Iap → Type 0
Opened target out = (out.0 ≡ ok) × IsOpen target out.1 × (image out.1 ≡ [])

-- No session has been opened, and the flash holds what it held before.
abbrev pub Refused : Iap → IapErr × Iap → Type 0
Refused s out =
    ((out.0 ≡ out_of_memory) ⊎ (out.0 ≡ partition_not_found) ⊎ (out.0 ≡ fail))
    × (out.1.session_open ≡ false)
    × (flashed out.1.log ≡ flashed s.log)

abbrev pub Begun : Iap → IapErr × Iap → Type 0
Begun s out = ((target : Partition) × Opened target out) ⊎ Refused s out

module _ (p : Platform) where
  Opened-at :
      (target : Partition) (s : Iap) (b : List ℕ)
      → length b ≡ page_size
      → s.page_buffer_ix ≡ 0
      → s.initialized ≡ true
      → is_zero (p.esp_ota_begin s.log target).0 ≡ true
      → Returns (Opened target) (
          begin_ota p target
            (record s { page_buffer = live b; partition_to_program = some target }))
  unfolding begin_ota
  Opened-at target s b l i up good = rw good (
    refl,
    record {
      is_initialized = up;
      is_open = refl;
      programs = refl;
      page = l;
      index = omega arith;
      address = rw good (omega arith);
      aligned = rw good (omega arith);
    },
    rw good (take-zero s.page_buffer_ix b i),
  )

  Refused-at :
      (target : Partition) (s : Iap) (b : List ℕ)
      → s.session_open ≡ false
      → is_zero (p.esp_ota_begin s.log target).0 ≡ false
      → Returns (Refused s) (
          begin_ota p target
            (record s { page_buffer = live b; partition_to_program = some target }))
  unfolding begin_ota
  Refused-at target s b c bad = rw bad (inr (inr refl), c, rw bad)

  Begun-at :
      (target : Partition) (s : Iap) (b : List ℕ)
      → length b ≡ page_size
      → s.page_buffer_ix ≡ 0
      → s.initialized ≡ true
      → s.session_open ≡ false
      → Returns (Begun s) (
          begin_ota p target
            (record s { page_buffer = live b; partition_to_program = some target }))
  Begun-at target s b l i up c =
      let s' = record s { page_buffer = live b; partition_to_program = some target } in
      let r = begin_ota p target s' in
      elim (Bool-cases (is_zero (p.esp_ota_begin s.log target).0)) [
        | inl good ↦
            Returns-mono (Opened target) (Begun s) r (λ out h. inl (target, h))
              (Opened-at target s b l i up good)
        | inr bad ↦
            Returns-mono (Refused s) (Begun s) r (λ out h. inr h) (Refused-at target s b c bad)
      ]

  begin_partition-Begun :
      (s : Iap) (b : List ℕ)
      → BootKnown p
      → length b ≡ page_size
      → s.page_buffer_ix ≡ 0
      → s.initialized ≡ true
      → s.session_open ≡ false
      → Returns (Begun s) (begin_partition p (record s { page_buffer = live b }))
  unfolding begin_partition
  begin_partition-Begun s b known l i up c =
      let AnyPartition : Option Partition → Type 0 = λ _. Unit {0} in
      Returns->>= AnyPartition (Begun s) (iap_find_next_boot_partition p s.log) _
        (find-Returns p s.log (known s.log))
        (elim [
          | none ↦ λ _. inr (inr (inl refl), c, refl)
          | some target ↦ λ _. Begun-at target s b l i up c
        ])

  -- Called on an initialized module with no open session, `iap_begin` returns. It opens a session
  -- for some partition, with an empty image, or reports that there is no memory, no partition or
  -- no way to begin: then no session is open, and the flash holds what it held before.
  pub iap_begin-Begun :
      (s : Iap)
      → MallocGives p
      → BootKnown p
      → s.initialized ≡ true
      → s.session_open ≡ false
      → Returns (Begun s) (iap_begin p s)
  unfolding iap_begin begin_session
  iap_begin-Begun s gives known up c = simp (up, c) (go (p.malloc s.log page_size) refl)
    where
      s₀ : Iap
      s₀ = record s { page_buffer_ix = 0 }

      go :
          (m : Option (List ℕ))
          → p.malloc s.log page_size ≡ m
          → Returns (Begun s) (elim m [
            | none ↦ done (out_of_memory, record s₀ { page_buffer = null })
            | some bytes ↦ begin_partition p (record s₀ { page_buffer = live bytes })
          ])
      go none e = inr (inl refl, c, refl)
      go (some bytes) e =
          begin_partition-Begun s₀ bytes known (gives s.log page_size bytes e) refl up c
