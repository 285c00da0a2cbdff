-- ===== src/Ota/Start.antt =====
-- The start of an update in main/iap_https.c: the first fragment of an image opens a session, also
-- where an earlier update has left one open.
use esp32_ota_https.Prelude.{
  if◌then◌else◌, Bool-cases, done, ◌>>=◌, Returns, Returns->>=, Returns-mono, Returns->>=_then,
  Returns-else, ℕ, ◌≡◌, refl, ◌≢◌, ◌⊎◌, inl, inr, Bool, true, false, [], ◌∷◌, arith,
}
use esp32_ota_https.Flash.{Partition, ended, Platform}
use esp32_ota_https.Iap.{
  IapErr, ok, session_already_open, PageBuffer, null, freed, live, Iap, iap_begin, iap_abort,
}
use esp32_ota_https.Iap.Image.{image}
use esp32_ota_https.Iap.Validity.{BufferFits, IsValid, MallocGives, BootKnown}
use esp32_ota_https.Iap.Begin.{Opened, Begun, iap_begin-Begun}
use esp32_ota_https.Iap.Session.{IsClosed, iap_abort-IsClosed}
use esp32_ota_https.Ota.{Ota, is_ok, is_already_open, begin_again, start_session}
use esp32_ota_https.Ota.Update.{Updating}

-- No update is under way. Below, a session may still be open.
pub record Idle (o : Ota) : Type 0 where
  pub no_session : o.has_iap_session ≡ false
  pub is_initialized : o.iap.initialized ≡ true
  pub valid : IsValid o.iap

-- An attempt to begin: a session with an empty image, or none.
abbrev pub Tried : IapErr × Iap → Type 0
Tried out =
    ((target : Partition) × Opened target out)
    ⊎ (is_ok out.0 ≡ false) × (is_already_open out.0 ≡ false) × (out.1.session_open ≡ false)

-- A session with an empty image, for some partition.
abbrev pub Fresh : Ota → Type 0
Fresh o =
    (target : Partition) × Updating target o × (image o.iap ≡ []) × (o.total_nof_bytes_received ≡ 0)

-- What `start_session` leaves behind.
abbrev pub Started : Bool × Ota → Type 0
Started out =
    ((out.0 ≡ true) × Fresh out.1)
    ⊎ (out.0 ≡ false) × (out.1.iap.session_open ≡ false) × (out.1.has_iap_session ≡ false)

module _ (p : Platform) where
  Begun→Tried : (s : Iap) (out : IapErr × Iap) → Begun s out → Tried out
  Begun→Tried s out (inl begun) = inl begun
  Begun→Tried s out (inr (e, closed, same)) = inr (ground (arith, e), ground (arith, e), closed)

  iap_begin-Tried :
      (s : Iap)
      → MallocGives p
      → BootKnown p
      → s.initialized ≡ true
      → s.session_open ≡ false
      → Returns Tried (iap_begin p s)
  iap_begin-Tried s gives known up closed =
      Returns-mono (Begun s) Tried (iap_begin p s) (Begun→Tried s)
        (iap_begin-Begun p s gives known up closed)

  begin_again_settled :
      (out : IapErr × Iap) → is_already_open out.0 ≡ false → begin_again p out.0 out.1 ≡ done out
  unfolding begin_again
  begin_again_settled out settled = rw (settled, begin_again) refl

  begin_again-Tried : (out : IapErr × Iap) → Tried out → Returns Tried (begin_again p out.0 out.1)
  begin_again-Tried out (inl (target, h)) =
      rw (begin_again_settled out (ground (arith, h.0))) (inl (target, h))
  begin_again-Tried out (inr refused) = rw (begin_again_settled out (refused.1)) (inr refused)

  not-freed : (buffer : PageBuffer) (ix : ℕ) → BufferFits true buffer ix → buffer ≢ freed
  not-freed null ix h e = cc
  not-freed freed ix h e = h
  not-freed (live b) ix h e = cc

  begin_refused :
      (s : Iap)
      → s.initialized ≡ true
      → s.session_open ≡ true
      → iap_begin p s ≡ done (session_already_open, s)
  unfolding iap_begin
  begin_refused s up opened = simp (up, opened) refl

  -- An open session is aborted, and another one is begun.
  reopen-Tried :
      (s : Iap)
      → MallocGives p
      → BootKnown p
      → s.initialized ≡ true
      → s.session_open ≡ true
      → IsValid s
      → Returns Tried (iap_begin p s >>= λ out. begin_again p out.0 out.1)
  unfolding begin_again
  reopen-Tried s gives known up opened v =
      let Closed : IapErr × Iap → Type 0 = λ out.
        (out.0 ≡ ok)
        × IsClosed out.1
        × (out.1.log ≡ ended s.ota_handle (p.esp_ota_end s.log s.ota_handle) ∷ s.log) in
      let any : Partition = record { label = ""; address = 0 } in
      let fits : BufferFits true s.page_buffer s.page_buffer_ix = rw opened at (v.buffer_fits) in
      rw (begin_refused s up opened) (
        Returns->>= Closed Tried (iap_abort p s) _
          (iap_abort-IsClosed p any s up opened (not-freed s.page_buffer s.page_buffer_ix fits))
          (λ out closed.
            iap_begin-Tried out.1 gives known closed.1.is_initialized closed.1.is_closed))

  begin-Tried :
      (s : Iap)
      → MallocGives p
      → BootKnown p
      → s.initialized ≡ true
      → IsValid s
      → Returns Tried (iap_begin p s >>= λ out. begin_again p out.0 out.1)
  begin-Tried s gives known up v = elim (Bool-cases s.session_open) [
    | inl opened ↦ reopen-Tried s gives known up opened v
    | inr closed ↦
        Returns->>= Tried Tried (iap_begin p s) _ (iap_begin-Tried s gives known up closed)
          begin_again-Tried
  ]

  pub start_session-Started :
      (o : Ota) → MallocGives p → BootKnown p → Idle o → Returns Started (start_session p o)
  unfolding start_session
  start_session-Started o gives known idle =
      Returns-else Started o.has_iap_session _ _ (idle.no_session) (
        Returns->>=_then Tried Started (iap_begin p o.iap) _ _
          (begin-Tried o.iap gives known idle.is_initialized idle.valid) started)
    where
      started :
          (out : IapErr × Iap)
          → Tried out
          → let o' = record o { iap = out.1 } in
            Returns Started (
              done (
                if is_ok out.0
                then (true, record o' { total_nof_bytes_received = 0; has_iap_session = true })
                else (false, o')))
      started out (inl (target, (good, opened, empty))) =
          let session : Updating target
              (record o { iap = out.1; total_nof_bytes_received = 0; has_iap_session = true }) =
            record { session = refl; programming = opened } in
          rw good (inl (refl, (target, session, empty, refl)))
      started out (inr (bad, settled, closed)) = rw bad (inr (refl, closed, idle.no_session))
