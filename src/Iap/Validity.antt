-- ===== src/Iap/Validity.antt =====
-- What holds of the state of main/iap.c between two calls: the page buffer is allocated only while
-- a session is open, and the index stays inside it.
pub mod Begin
use esp32_ota_https.Prelude.{
  ◌==◌, Bool-cases, is_zero, length, drop, Run, done, Ensures, Returns, Ensures->>=, Returns->>=,
  memcpy, Ensures-mono, memcpy-length, Returns→Ensures, ℕ, zero, suc, ◌+◌, ◌-◌, ◌%◌, ◌^◌, ◌≤◌, ◌≡◌,
  refl, ◌∙◌, ◌≢◌, inl, inr, Bool, true, false, Option, none, some, List, [], ◌∷◌, arith,
}
use esp32_ota_https.Flash.{Partition, ended, activated, Log, Platform}
use esp32_ota_https.Iap.{
  IapErr, ok, write_failed, PageBuffer, null, freed, live, page_size, Iap, initial, iap_init,
  nof_bytes_to_copy, iap_write_page_buffer, write_round, write_loop, iap_write, finish_session,
  iap_finish, iap_commit, iap_abort,
}

-- How the buffer and its index fit the session flag. An open session has no buffer only after a
-- commit that failed.
abbrev pub BufferFits : Bool → PageBuffer → ℕ → Type 0
BufferFits open_now null ix = ix ≡ 0
BufferFits true freed ix = ⊥
BufferFits false freed ix = ix ≡ 0
BufferFits true (live block) ix = (length block ≡ page_size) × (ix ≤ page_size)
BufferFits false (live block) ix = ⊥

abbrev pub is_some : Option Partition → Bool
is_some none = false
is_some (some target) = true

-- The newest call is an `esp_ota_end` that succeeded.
abbrev pub JustEnded : Log → Type 0
JustEnded (ended h r ∷ log) = is_zero r ≡ true
JustEnded _ = ⊥

-- A boot partition was set only to a partition, and only right after an image was completed.
abbrev pub Activations : Log → Type 0
Activations [] = Unit
Activations (activated target r ∷ log) = JustEnded log × (is_some target ≡ true) × Activations log
Activations (_ ∷ log) = Activations log

pub record IsValid (s : Iap) : Type 0 where
  pub open_initialized : s.session_open ≡ true → s.initialized ≡ true
  pub open_programs : s.session_open ≡ true → is_some s.partition_to_program ≡ true
  pub buffer_fits : BufferFits s.session_open s.page_buffer s.page_buffer_ix
  pub activations : Activations s.log

abbrev pub KeepsValid : IapErr × Iap → Type 0
KeepsValid out = IsValid out.1

pub initial-IsValid : IsValid initial
initial-IsValid = ground arith

pub iap_init-IsValid : (s : Iap) → IsValid s → IsValid (iap_init s).1
unfolding iap_init
iap_init-IsValid s v = ground arith

-- What the program relies on: a block that `malloc` returns has the size that was asked for.
abbrev pub MallocGives : Platform → Type 0
MallocGives p = (log : Log) (n : ℕ) (b : List ℕ) → p.malloc log n ≡ some b → length b ≡ n

-- With a boot partition to start from, the code does not leave its defined behaviour, and returns.
abbrev pub BootKnown : Platform → Type 0
BootKnown p = (log : Log) → p.esp_ota_get_boot_partition log ≢ none

module _ (p : Platform) where
  finish_session-IsValid :
      (commit : Bool) (s : Iap)
      → IsValid s
      → s.session_open ≡ true
      → Returns KeepsValid (finish_session p commit s)
  unfolding finish_session
  finish_session-IsValid commit s v o = ground arith

  iap_finish-IsValid :
      (commit : Bool) (s : Iap) → IsValid s → Returns KeepsValid (iap_finish p commit s)
  unfolding iap_finish
  iap_finish-IsValid commit s v = ground (arith, finish_session-IsValid commit s v)

  -- A call in the middle of a session leaves it open.
  abbrev KeepsSession : Iap → IapErr × Iap → Type 0
  KeepsSession s out = IsValid out.1 × (out.1.session_open ≡ s.session_open)

  write_page-IsValid : (s : Iap) → IsValid s → Returns (KeepsSession s) (iap_write_page_buffer p s)
  unfolding iap_write_page_buffer
  write_page-IsValid s v = ground arith

  pub iap_commit-IsValid : (s : Iap) → IsValid s → Returns KeepsValid (iap_commit p s)
  unfolding iap_commit
  iap_commit-IsValid s v =
      Returns->>= (KeepsSession s) KeepsValid (iap_write_page_buffer p s)
        (λ out. iap_finish p true out.1) (write_page-IsValid s v)
        (λ out h. iap_finish-IsValid true out.1 h.0)

  pub iap_abort-IsValid : (s : Iap) → IsValid s → Returns KeepsValid (iap_abort p s)
  unfolding iap_abort
  iap_abort-IsValid s v = iap_finish-IsValid false s v

  round-IsValid_at :
      (s : Iap) (buffer : PageBuffer) (bytes : List ℕ) (len : ℕ)
      → let s' = record s { page_buffer = buffer } in
        IsValid s' → s.session_open ≡ true → Ensures (KeepsSession s') (write_round p s' bytes len)
  unfolding write_round
  round-IsValid_at s null bytes len v o = tt
  round-IsValid_at s freed bytes len v o = tt
  round-IsValid_at s (live b) bytes len v o =
      let n = nof_bytes_to_copy s len in
      let Copied : List ℕ → Type 0 =
        λ b'. (length b' ≡ length b) × (s.page_buffer_ix + n ≤ length b) in
      Ensures->>= Copied (KeepsSession (record s { page_buffer = live b }))
        (memcpy b s.page_buffer_ix bytes n) _ (memcpy-length b s.page_buffer_ix bytes n)
        λ b' h.
          let s' = record s {
            page_buffer = live b';
            page_buffer_ix = (s.page_buffer_ix + n) % 2 ^ 16;
          } in
          let v' : IsValid s' = ground (arith, h) in
          ground (
            arith,
            Returns→Ensures (KeepsSession s') (iap_write_page_buffer p s')
                (write_page-IsValid s' v'),
          )

  after_round :
      (s : Iap) (rest : Run (IapErr × Iap)) (out : IapErr × Iap)
      → KeepsSession s out
      → Ensures (KeepsSession s) rest
      → Ensures (KeepsSession s) (elim (out.0) [ ok ↦ rest | _ ↦ done (write_failed, out.1) ])
  after_round s rest (ok, s') h k = k
  after_round s rest (_, s') h k = h

  write_loop-IsValid :
      (fuel : ℕ) (s : Iap) (bytes : List ℕ) (len : ℕ)
      → IsValid s
      → s.session_open ≡ true
      → Ensures (KeepsSession s) (write_loop p fuel s bytes len)
  unfolding write_loop
  write_loop-IsValid zero s bytes len v o = tt
  write_loop-IsValid (suc fuel) s bytes len v o = elim (Bool-cases (len == 0)) [
    | inl none_left ↦ rw none_left (v, refl)
    | inr some_left ↦ rw some_left (
        Ensures->>= (KeepsSession s) (KeepsSession s) (write_round p s bytes len) _
          (round-IsValid_at s s.page_buffer bytes len v o)
          λ out h.
            let n = nof_bytes_to_copy s len in
            let rest = write_loop p fuel out.1 (drop n bytes) (len - n) in
            after_round s rest out h (
              Ensures-mono (KeepsSession out.1) (KeepsSession s) rest (λ _ k. (k.0, k.1 ∙ h.1))
                (write_loop-IsValid fuel out.1 (drop n bytes) (len - n) (h.0) (h.1 ∙ o))))
  ]

  pub iap_write-IsValid :
      (s : Iap) (bytes : List ℕ) (len : ℕ)
      → IsValid s
      → Ensures KeepsValid (iap_write p s bytes len)
  unfolding iap_write
  iap_write-IsValid s bytes len v = elim (Bool-cases s.initialized) [
    | inl up ↦ elim (Bool-cases s.session_open) [
      | inl open_now ↦
          simp (up, open_now)
            (Ensures-mono (KeepsSession s) KeepsValid (write_loop p (len + 2) s bytes len)
              (λ _ k. k.0) (write_loop-IsValid (len + 2) s bytes len v open_now))
      | inr closed ↦ simp (up, closed) v
    ]
    | inr down ↦ simp down v
  ]
