-- ===== src/Iap/Session.antt =====
-- How a programming session of main/iap.c begins and ends: `iap_begin`, `iap_commit`, `iap_abort`.
use esp32_ota_https.Prelude.{
  ◌==◌, if◌then◌else◌, Bool-cases, is_zero, take, take-zero, Run, Ensures, Returns, Ensures->>=,
  Returns-mono, Returns-and, ℕ, ◌≡◌, refl, ◌∙◌, ◌≢◌, ◌⊎◌, inl, inr, Bool, true, false, ◌||◌, Option,
  none, some, List, [], ◌∷◌, ◌++◌, append-nil, arith,
}
use esp32_ota_https.Flash.{Partition, wrote, ended, activated, Log, Platform, flashed}
use esp32_ota_https.Iap.{
  IapErr, ok, fail, PageBuffer, null, freed, live, Iap, iap_write_page_buffer, iap_finish,
  iap_commit, iap_abort,
}
use esp32_ota_https.Iap.Image.{buffered, image, IsOpen}

-- A session that is closed again: its buffer is released and nothing of it is left.
pub record IsClosed (s : Iap) : Type 0 where
  pub is_initialized : s.initialized ≡ true
  pub is_closed : s.session_open ≡ false
  pub no_buffer : s.page_buffer ≡ null
  pub no_index : s.page_buffer_ix ≡ 0
  pub no_partition : s.partition_to_program ≡ none

-- An open session that has lost its page buffer.
pub record IsBroken (s : Iap) : Type 0 where
  pub is_initialized : s.initialized ≡ true
  pub is_open : s.session_open ≡ true
  pub no_buffer : s.page_buffer ≡ null
  pub no_index : s.page_buffer_ix ≡ 0

-- The two newest calls completed an image and made `target` the boot partition.
abbrev pub ActivatedNow : Partition → Log → Type 0
ActivatedNow target (activated t r ∷ ended h r' ∷ log) =
    (t ≡ some target) × (is_zero r ≡ true) × (is_zero r' ≡ true)
ActivatedNow target _ = ⊥

-- The partitions that were made the boot partition, newest first.
abbrev pub boots : Log → List (Option Partition)
boots [] = []
boots (activated t r ∷ log) = if is_zero r then t ∷ boots log else boots log
boots (_ ∷ log) = boots log

-- A failure is reported only if the boot partition is as it was.
abbrev pub KeepsBoot : List (Option Partition) → IapErr × Iap → Type 0
KeepsBoot before out = (out.0 ≡ ok) ⊎ (boots out.1.log ≡ before)

-- What `iap_commit` leaves behind, if the flash then holds `bytes`.
pub record Committed (target : Partition) (bytes : List ℕ) (out : IapErr × Iap) : Type 0 where
  pub holds : flashed out.1.log ≡ bytes
  pub outcome :
      (out.0 ≡ ok) × IsClosed out.1 × ActivatedNow target out.1.log
      ⊎ (out.0 ≡ fail) × IsBroken out.1

-- The last write of a session succeeds, or there is nothing to write.
abbrev pub final_write_succeeds : Platform → Iap → Bool
final_write_succeeds p s =
    let bytes = buffered s.page_buffer s.page_buffer_ix in
    s.page_buffer_ix == 0 || is_zero (p.esp_ota_write s.log s.ota_handle bytes)

-- The image can be completed and activated.
pub record Activates (p : Platform) : Type 0 where
  pub ends : (log : Log) (handle : ℕ) → is_zero (p.esp_ota_end log handle) ≡ true
  pub sets :
      (log : Log) (t : Option Partition) → is_zero (p.esp_ota_set_boot_partition log t) ≡ true

module _ (p : Platform) (target : Partition) where
  finish_at :
      (s : Iap) (b : List ℕ)
      → s.page_buffer ≡ live b
      → s.initialized ≡ true
      → s.session_open ≡ true
      → s.partition_to_program ≡ some target
      → Returns (Committed target (flashed s.log)) (iap_finish p true s)
  unfolding iap_finish
  finish_at s b e i o t = ground arith

  Committed-of :
      (bytes bytes' : List ℕ) (r : Run (IapErr × Iap))
      → bytes ≡ bytes'
      → Returns (Committed target bytes) r
      → Returns (Committed target bytes') r
  Committed-of bytes bytes' r e h =
      Returns-mono (Committed target bytes) (Committed target bytes') r
        (λ out c. record { holds = c.holds ∙ e; outcome = c.outcome }) h

  commit_at :
      (s : Iap) (buffer : PageBuffer)
      → let s' = record s { page_buffer = buffer } in
        IsOpen target s'
        → Returns
            (Committed target (if final_write_succeeds p s' then image s' else flashed s.log))
            (iap_commit p s')
  unfolding iap_commit iap_write_page_buffer
  commit_at s null o = elim (o.page) [ ]
  commit_at s freed o = elim (o.page) [ ]
  commit_at s (live b) o =
      let bytes = take s.page_buffer_ix b in
      let result = p.esp_ota_write s.log s.ota_handle bytes in
      let log = wrote s.ota_handle bytes result ∷ s.log in
      elim (Bool-cases (s.page_buffer_ix == 0)) [
        | inl empty ↦ rw empty (
            rw (take-zero s.page_buffer_ix b (ground arith)) (
              rw append-nil (
                finish_at (record s { page_buffer = live b }) b refl o.is_initialized o.is_open
                  o.programs)))
        | inr pending ↦ elim (Bool-cases (is_zero result)) [
          | inl good ↦
              rw (pending, good)
                (Committed-of (flashed log) (flashed s.log ++ bytes) _ (rw good)
                  (finish_at _ b refl o.is_initialized o.is_open o.programs))
          | inr bad ↦
              rw (pending, bad)
                (Committed-of (flashed log) (flashed s.log) _ (rw bad)
                  (finish_at _ b refl o.is_initialized o.is_open o.programs))
        ]
      ]

  -- `iap_commit` returns, and either reports success with the session closed, the image completed
  -- and `target` made the boot partition, or reports a failure. The flash then holds the image, but
  -- for the bytes in the page buffer if their write failed.
  pub iap_commit-Committed :
      (s : Iap)
      → IsOpen target s
      → Returns
          (Committed target (if final_write_succeeds p s then image s else flashed s.log))
          (iap_commit p s)
  iap_commit-Committed s o = commit_at s s.page_buffer o

  finish-KeepsBoot : (s : Iap) → Ensures (KeepsBoot (boots s.log)) (iap_finish p true s)
  unfolding iap_finish
  finish-KeepsBoot s = ground arith

  pub iap_commit-KeepsBoot : (s : Iap) → Ensures (KeepsBoot (boots s.log)) (iap_commit p s)
  unfolding iap_commit iap_write_page_buffer
  iap_commit-KeepsBoot s =
      Ensures->>= (λ out. boots out.1.log ≡ boots s.log) (KeepsBoot (boots s.log))
        (iap_write_page_buffer p s) _ (ground arith)
        (λ out same. rw same at (finish-KeepsBoot out.1))

  abbrev Succeeded : IapErr × Iap → Type 0
  Succeeded out = out.0 ≡ ok

  finish_succeeds :
      (s : Iap) (b : List ℕ)
      → Activates p
      → s.page_buffer ≡ live b
      → s.initialized ≡ true
      → s.session_open ≡ true
      → Returns Succeeded (iap_finish p true s)
  unfolding iap_finish
  finish_succeeds s b a e i o =
      let log = ended s.ota_handle (p.esp_ota_end s.log s.ota_handle) ∷ s.log in
      ground (arith, a.ends s.log s.ota_handle, a.sets log s.partition_to_program)

  -- The buffer is still there when the session is finished.
  commit_succeeds_at :
      (s : Iap) (buffer : PageBuffer)
      → let s' = record s { page_buffer = buffer } in
        IsOpen target s' → Activates p → Returns Succeeded (iap_commit p s')
  unfolding iap_commit iap_write_page_buffer
  commit_succeeds_at s null o a = elim (o.page) [ ]
  commit_succeeds_at s freed o a = elim (o.page) [ ]
  commit_succeeds_at s (live b) o a =
      let result = p.esp_ota_write s.log s.ota_handle (take s.page_buffer_ix b) in
      elim (Bool-cases (s.page_buffer_ix == 0)) [
        | inl empty ↦ rw empty (
            finish_succeeds (record s { page_buffer = live b }) b a refl o.is_initialized o.is_open)
        | inr pending ↦ elim (Bool-cases (is_zero result)) [
          | inl good ↦ rw (pending, good) (finish_succeeds _ b a refl o.is_initialized o.is_open)
          | inr bad ↦ rw (pending, bad) (finish_succeeds _ b a refl o.is_initialized o.is_open)
        ]
      ]

  -- What a commit of a whole image, and one that loses the buffered bytes, leave behind.
  abbrev pub Activated : List ℕ → IapErr × Iap → Type 0
  Activated bytes out =
      (out.0 ≡ ok) × IsClosed out.1 × ActivatedNow target out.1.log × (flashed out.1.log ≡ bytes)

  Committed-Activated :
      (bytes : List ℕ) (out : IapErr × Iap)
      → Committed target bytes out
      → out.0 ≡ ok
      → Activated bytes out
  Committed-Activated bytes out c good = ground (arith, c.holds, c.outcome)

  -- If the platform completes and activates any image, `iap_commit` reports success and activates
  -- the partition. The flash then holds the image if the final write succeeds. If that write fails,
  -- the result is the same, and the flash lacks the bytes that were in the page buffer.
  pub iap_commit-Activated :
      (s : Iap)
      → IsOpen target s
      → Activates p
      → Returns
          (Activated (if final_write_succeeds p s then image s else flashed s.log))
          (iap_commit p s)
  iap_commit-Activated s o a =
      let bytes = if final_write_succeeds p s then image s else flashed s.log in
      Returns-and (Committed target bytes) Succeeded (Activated bytes) (iap_commit p s)
        (Committed-Activated bytes) (iap_commit-Committed s o)
        (commit_succeeds_at s s.page_buffer o a)

  -- `iap_abort` closes an open session and activates nothing, whatever `esp_ota_end` replies.
  pub iap_abort-IsClosed :
      (s : Iap)
      → s.initialized ≡ true
      → s.session_open ≡ true
      → s.page_buffer ≢ freed
      → Returns
          (λ out.
            (out.0 ≡ ok)
            × IsClosed out.1
            × (out.1.log ≡ ended s.ota_handle (p.esp_ota_end s.log s.ota_handle) ∷ s.log))
          (iap_abort p s)
  unfolding iap_abort iap_finish
  iap_abort-IsClosed s i o b = ground arith
