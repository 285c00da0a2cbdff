-- ===== src/Iap/Spared.antt =====
-- What the functions of main/iap.c never erase: the partition that the device boots from.
use esp32_ota_https.Prelude.{
  ◌==◌, is_zero, drop, Run, done, blocked, fault, Ensures, Ensures->>=, memcpy, Ensures-trivial,
  Ensures-if, ℕ, zero, suc, ◌+◌, ◌-◌, ◌%◌, ◌^◌, ◌≡◌, refl, ◌≢◌, Bool, true, false, Option, none,
  some, List, [], ◌∷◌, arith,
}
use esp32_ota_https.Flash.{Partition, began, Log, Platform}
use esp32_ota_https.Iap.{
  IapErr, ok, out_of_memory, write_failed, null, live, page_size, Iap, free, deref, iap_init,
  nof_bytes_to_copy, iap_find_next_boot_partition, begin_ota, begin_partition, begin_session,
  iap_begin, iap_write_page_buffer, write_round, write_loop, iap_write, finish_session, iap_finish,
  iap_commit, iap_abort,
}
use esp32_ota_https.Iap.Boot.{FindsByLabel, find-ne-boot}

-- `esp_ota_begin`, which erases its partition, was called for the boot partition in no case.
abbrev pub SparesBoot : Platform → Log → Type 0
SparesBoot p [] = Unit
SparesBoot p (began target r ∷ log) =
    ((boot : Partition) → p.esp_ota_get_boot_partition log ≡ some boot → target.label ≢ boot.label)
    × SparesBoot p log
SparesBoot p (_ ∷ log) = SparesBoot p log

module _ (p : Platform) where
  abbrev Spares : IapErr × Iap → Type 0
  Spares out = SparesBoot p out.1.log

  write_page-Spares : (s : Iap) → SparesBoot p s.log → Ensures Spares (iap_write_page_buffer p s)
  unfolding iap_write_page_buffer
  write_page-Spares s h = ground (arith, h)

  write_round-Spares :
      (s : Iap) (bytes : List ℕ) (len : ℕ)
      → SparesBoot p s.log
      → Ensures Spares (write_round p s bytes len)
  unfolding write_round
  write_round-Spares s bytes len h =
      let n = nof_bytes_to_copy s len in
      Ensures->>= (λ _. Unit {0}) Spares (deref s.page_buffer) _
        (Ensures-trivial (deref s.page_buffer))
        (λ block _.
          Ensures->>= (λ _. Unit {0}) Spares (memcpy block s.page_buffer_ix bytes n) _
            (Ensures-trivial (memcpy block s.page_buffer_ix bytes n))
            (λ block' _.
              let s' = record s {
                page_buffer = live block';
                page_buffer_ix = (s.page_buffer_ix + n) % 2 ^ 16;
              } in
              Ensures-if Spares (s'.page_buffer_ix == page_size) _ _ (write_page-Spares s' h) h))

  after_round :
      (rest : Run (IapErr × Iap)) (out : IapErr × Iap)
      → Spares out
      → Ensures Spares rest
      → Ensures Spares (elim (out.0) [ ok ↦ rest | _ ↦ done (write_failed, out.1) ])
  after_round rest (ok, s') h k = k
  after_round rest (_, s') h k = h

  write_loop-Spares :
      (fuel : ℕ) (s : Iap) (bytes : List ℕ) (len : ℕ)
      → SparesBoot p s.log
      → Ensures Spares (write_loop p fuel s bytes len)
  unfolding write_loop
  write_loop-Spares zero s bytes len h = tt
  write_loop-Spares (suc fuel) s bytes len h =
      let n = nof_bytes_to_copy s len in
      Ensures-if Spares (len == 0) _ _ h (
        Ensures->>= Spares Spares (write_round p s bytes len) _ (write_round-Spares s bytes len h)
          (λ out h'.
            after_round (write_loop p fuel out.1 (drop n bytes) (len - n)) out h'
              (write_loop-Spares fuel out.1 (drop n bytes) (len - n) h')))

  pub iap_write-Spares :
      (s : Iap) (bytes : List ℕ) (len : ℕ)
      → SparesBoot p s.log
      → Ensures Spares (iap_write p s bytes len)
  unfolding iap_write
  iap_write-Spares s bytes len h =
      Ensures-if Spares s.initialized _ _
        (Ensures-if Spares s.session_open _ _ (write_loop-Spares (len + 2) s bytes len h) h) h

  iap_finish-Spares :
      (commit : Bool) (s : Iap) → SparesBoot p s.log → Ensures Spares (iap_finish p commit s)
  unfolding iap_finish finish_session
  iap_finish-Spares commit s h = ground (arith, h)

  pub iap_commit-Spares : (s : Iap) → SparesBoot p s.log → Ensures Spares (iap_commit p s)
  unfolding iap_commit
  iap_commit-Spares s h =
      Ensures->>= Spares Spares (iap_write_page_buffer p s) _ (write_page-Spares s h)
        (λ out h'. iap_finish-Spares true out.1 h')

  pub iap_abort-Spares : (s : Iap) → SparesBoot p s.log → Ensures Spares (iap_abort p s)
  unfolding iap_abort
  iap_abort-Spares s h = iap_finish-Spares false s h

  -- What the search finds is not the boot partition.
  abbrev Other : Log → Option Partition → Type 0
  Other log none = Unit
  Other log (some target) =
      (boot : Partition) → p.esp_ota_get_boot_partition log ≡ some boot → target.label ≢ boot.label

  find-Other :
      (log : Log) → FindsByLabel p → Ensures (Other log) (iap_find_next_boot_partition p log)
  find-Other log finds = go (iap_find_next_boot_partition p log) refl
    where
      go :
          (found : Run (Option Partition))
          → iap_find_next_boot_partition p log ≡ found
          → Ensures (Other log) found
      go (done none) e = tt
      go (done (some target)) e = λ boot b. (find-ne-boot p log boot target finds b e).1
      go blocked e = tt
      go fault e = tt

  begin_ota-Spares :
      (target : Partition) (s : Iap)
      → Other s.log (some target)
      → SparesBoot p s.log
      → Ensures Spares (begin_ota p target s)
  unfolding begin_ota
  begin_ota-Spares target s other h =
      Ensures-if Spares (is_zero (p.esp_ota_begin s.log target).0) _ _ (other, h)
        (Ensures->>= (λ _. Unit {0}) Spares (free s.page_buffer) _
          (Ensures-trivial (free s.page_buffer)) (λ b _. (other, h)))

  begin_partition-Spares :
      (s : Iap) → FindsByLabel p → SparesBoot p s.log → Ensures Spares (begin_partition p s)
  unfolding begin_partition
  begin_partition-Spares s finds h =
      Ensures->>= (Other s.log) Spares (iap_find_next_boot_partition p s.log) _
        (find-Other s.log finds)
        (elim [
          | none ↦ λ _.
              Ensures->>= (λ _. Unit {0}) Spares (free s.page_buffer) _
                (Ensures-trivial (free s.page_buffer)) (λ b _. h)
          | some target ↦ λ other.
              begin_ota-Spares target (record s { partition_to_program = some target }) other h
        ])

  pub iap_begin-Spares :
      (s : Iap) → FindsByLabel p → SparesBoot p s.log → Ensures Spares (iap_begin p s)
  unfolding iap_begin begin_session
  iap_begin-Spares s finds h =
      Ensures-if Spares s.initialized _ _ (Ensures-if Spares s.session_open _ _ h begun) h
    where
      begun : Ensures Spares (begin_session p s)
      begun = go (p.malloc s.log page_size)
        where
          s₀ : Iap
          s₀ = record s { page_buffer_ix = 0 }

          go :
              (block : Option (List ℕ))
              → Ensures Spares (elim block [
                | none ↦ done (out_of_memory, record s₀ { page_buffer = null })
                | some bytes ↦ begin_partition p (record s₀ { page_buffer = live bytes })
              ])
          go none = h
          go (some bytes) = begin_partition-Spares (record s₀ { page_buffer = live bytes }) finds h

  pub iap_init-Spares : (s : Iap) → SparesBoot p s.log → SparesBoot p (iap_init s).1.log
  unfolding iap_init
  iap_init-Spares s h = ground (arith, h)
