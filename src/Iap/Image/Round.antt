-- ===== src/Iap/Image/Round.antt =====
-- One round of the loop in `iap_write` of main/iap.c: what it copies, and the page that it completes.
-- What the write of a full page leaves behind.
use esp32_ota_https.Prelude.{
  ◌==◌, if◌then◌else◌, Bool-cases, is_zero, length, take, length-append, length-take, splice,
  length-copy, take-copy, done, Returns, memcpy_done, Returns-mono, ℕ, ◌+◌, ◌%◌, ◌^◌, ◌≤◌, ◌<◌, ◌≡◌,
  refl, sym, ◌∙◌, ◌⊎◌, inl, inr, false, List, ◌++◌, append-nil, append_assoc, arith,
}
use esp32_ota_https.Flash.{Partition, Platform, flashed}
use esp32_ota_https.Iap.{
  IapErr, ok, write_failed, PageBuffer, null, freed, live, page_size, Iap, nof_bytes_to_copy,
  iap_write_page_buffer, write_round,
}
use esp32_ota_https.Iap.Image.Open.{image, IsOpen, LastWriteFailed}

abbrev PageDone : Platform → Partition → Iap → IapErr × Iap → Type 0
PageDone p target s out =
    IsOpen target out.1
    × (image out.1 ≡ image s)
    × ((out.0 ≡ ok) × (out.1.page_buffer_ix ≡ 0)
        ⊎ (out.0 ≡ write_failed) × LastWriteFailed p out.1.log)

module _ (p : Platform) (target : Partition) where
  page_full_at :
      (s : Iap) (buffer : PageBuffer)
      → let s' = record s { page_buffer = buffer } in
        IsOpen target s'
        → s.page_buffer_ix ≡ page_size
        → Returns (PageDone p target s') (iap_write_page_buffer p s')
  unfolding iap_write_page_buffer
  page_full_at s null o e = elim (o.page) [ ]
  page_full_at s freed o e = elim (o.page) [ ]
  page_full_at s (live b) o e =
      let bytes = take s.page_buffer_ix b in
      let full : length bytes ≡ page_size = omega (arith, length-take s.page_buffer_ix b, o.page) in
      let nonempty : (s.page_buffer_ix == 0) ≡ false = ground arith in
      elim (Bool-cases (is_zero (p.esp_ota_write s.log s.ota_handle bytes))) [
        | inl good ↦
            rw (nonempty, good)
              (
                record {
                  is_initialized = o.is_initialized;
                  is_open = o.is_open;
                  programs = o.programs;
                  page = o.page;
                  index = omega arith;
                  address =
                      rw good (omega (arith, length-append (flashed s.log) bytes, o.address, full));
                  aligned =
                      rw good (omega (arith, length-append (flashed s.log) bytes, o.aligned, full));
                },
                rw good (append-nil (flashed s.log ++ bytes)),
                inl (refl, refl),
              )
        | inr bad ↦
            rw (nonempty, bad)
              (
                record {
                  is_initialized = o.is_initialized;
                  is_open = o.is_open;
                  programs = o.programs;
                  page = o.page;
                  index = o.index;
                  address = rw bad o.address;
                  aligned = rw bad o.aligned;
                },
                rw bad refl,
                inr (refl, (refl, bad)),
              )
      ]

  -- A full page goes to the flash, or stays in the buffer if the write fails.
  page_full :
      (s : Iap)
      → IsOpen target s
      → s.page_buffer_ix ≡ page_size
      → Returns (PageDone p target s) (iap_write_page_buffer p s)
  page_full s o e = page_full_at s s.page_buffer o e

  -- What one round of the loop leaves behind.
  abbrev pub RoundDone : Iap → List ℕ → IapErr × Iap → Type 0
  RoundDone s taken out =
      IsOpen target out.1
      × (image out.1 ≡ image s ++ taken)
      × ((out.0 ≡ ok) × (out.1.page_buffer_ix < page_size)
          ⊎ (out.0 ≡ write_failed) × LastWriteFailed p out.1.log)

  relax :
      (s s' : Iap) (taken : List ℕ)
      → image s' ≡ image s ++ taken
      → (out : IapErr × Iap) → PageDone p target s' out
      → RoundDone s taken out
  relax s s' taken e out (o, same, inl (good, empty)) = (o, same ∙ e, inl (good, omega arith))
  relax s s' taken e out (o, same, inr failed) = (o, same ∙ e, inr failed)

  -- The second half of a round: a full page is written.
  after_copy :
      (s s' : Iap) (taken : List ℕ)
      → IsOpen target s'
      → image s' ≡ image s ++ taken
      → Returns
          (RoundDone s taken)
          (if s'.page_buffer_ix == page_size then iap_write_page_buffer p s' else done (ok, s'))
  after_copy s s' taken o e = elim (Bool-cases (s'.page_buffer_ix == page_size)) [
    | inl full ↦ rw full (
        Returns-mono (PageDone p target s') (RoundDone s taken) (iap_write_page_buffer p s')
          (relax s s' taken e) (page_full s' o (ground arith)))
    | inr part ↦ rw part (o, e, inl (refl, ground (arith, o.index)))
  ]

  pub round_at :
      (s : Iap) (buffer : PageBuffer) (bytes : List ℕ) (len : ℕ)
      → let s' = record s { page_buffer = buffer } in
        IsOpen target s'
        → len ≤ length bytes
        → len < 2 ^ 16
        → Returns (RoundDone s' (take (nof_bytes_to_copy s len) bytes)) (write_round p s' bytes len)
  unfolding write_round
  round_at s null bytes len o h k = elim (o.page) [ ]
  round_at s freed bytes len o h k = elim (o.page) [ ]
  round_at s (live b) bytes len o h k =
      let n = nof_bytes_to_copy s len in
      let room : s.page_buffer_ix + n ≤ page_size = ground (arith, o.index) in
      let short : n ≤ len = ground (arith, o.index) in
      let fits : s.page_buffer_ix + n ≤ length b = omega (arith, room, o.page) in
      let has : n ≤ length bytes = omega (arith, short) in
      let no_wrap : (s.page_buffer_ix + n) % 2 ^ 16 ≡ s.page_buffer_ix + n = omega (arith, room) in
      let copied = record s {
        page_buffer = live (splice b s.page_buffer_ix (take n bytes));
        page_buffer_ix = (s.page_buffer_ix + n) % 2 ^ 16;
      } in
      rw (memcpy_done b s.page_buffer_ix bytes n fits has) (
        after_copy (record s { page_buffer = live b }) copied (take n bytes)
          (record {
            is_initialized = o.is_initialized;
            is_open = o.is_open;
            programs = o.programs;
            page = length-copy b s.page_buffer_ix n bytes fits has ∙ o.page;
            index = omega (arith, room, no_wrap);
            address = o.address;
            aligned = o.aligned;
          })
          (rw no_wrap (
            rw (take-copy b s.page_buffer_ix n bytes fits has)
              (sym (append_assoc (flashed s.log) (take s.page_buffer_ix b) (take n bytes))))))
