-- ===== src/Ota/Update.antt =====
-- `iap_https_firmware_body_callback` of main/iap_https.c: what a fragment of the image, and the end
-- of the image, do to the update.
use esp32_ota_https.Prelude.{
  ltb, if◌then◌else◌, is_zero, length, take, done, ◌>>=◌, Returns, Returns->>=, Returns-mono,
  Returns-and-Ensures, ℕ, ◌+◌, ◌%◌, ◌^◌, ◌≤◌, ◌<◌, ◌≡◌, refl, ap, ◌∙◌, ◌≢◌, ◌⊎◌, inl, inr, true,
  false, ◌||◌, List, [], ◌∷◌, ◌++◌, arith,
}
use esp32_ota_https.Flash.{Partition, ended, Log, Platform, flashed}
use esp32_ota_https.Iap.{
  IapErr, ok, PageBuffer, null, freed, live, Iap, iap_write, iap_commit, iap_abort,
}
use esp32_ota_https.Iap.Image.{Written, iap_write-Written, image, IsPage, IsOpen, LastWriteFailed}
use esp32_ota_https.Iap.Session.{
  IsClosed, IsBroken, ActivatedNow, boots, KeepsBoot, Committed, final_write_succeeds,
  iap_commit-Committed, iap_commit-KeepsBoot, iap_abort-IsClosed,
}
use esp32_ota_https.Http.{ContinueReceiving, continue_receiving, stop_receiving}
use esp32_ota_https.Ota.{
  Ota, is_ok, start_session, write_fragment, finish_update, iap_https_firmware_body_callback,
}
use esp32_ota_https.Ota.Task.{iap_https_update_in_progress, iap_https_new_firmware_installed}

-- An update is under way: fragments go to the flash.
pub record Updating (target : Partition) (o : Ota) : Type 0 where
  pub session : o.has_iap_session ≡ true
  pub programming : IsOpen target o.iap

-- Every write to the flash succeeds.
abbrev pub WritesSucceed : Platform → Type 0
WritesSucceed p =
    (log : Log) (handle : ℕ) (bytes : List ℕ) → is_zero (p.esp_ota_write log handle bytes) ≡ true

-- A write failed, and the session was ended after it.
abbrev pub AbortedWrite : Platform → Log → Type 0
AbortedWrite p [] = ⊥
AbortedWrite p (ended h r ∷ log) = LastWriteFailed p log
AbortedWrite p (_ ∷ log) = ⊥

module _ (p : Platform) (target : Partition) where
  -- What the callback leaves behind when it gets `bytes`.
  abbrev pub FragmentDone : Ota → List ℕ → ℕ → ContinueReceiving × Ota → Type 0
  FragmentDone o bytes n out =
      ((out.0 ≡ continue_receiving)
        × Updating target out.1
        × (image out.1.iap ≡ image o.iap ++ bytes)
        × (out.1.total_nof_bytes_received ≡ (o.total_nof_bytes_received + n) % 2 ^ 32)
        × (out.1.config ≡ o.config))
      ⊎ ((out.0 ≡ stop_receiving)
          × IsClosed out.1.iap
          × (iap_https_update_in_progress out.1 ≡ true)
          × (iap_https_new_firmware_installed out.1 ≡ iap_https_new_firmware_installed o)
          × AbortedWrite p out.1.iap.log)

  -- A session whose write has failed is aborted.
  abbrev Abandoned : Ota → Iap → ContinueReceiving × Ota → Type 0
  Abandoned o s out =
      (out.0 ≡ stop_receiving)
      × IsClosed out.1.iap
      × (iap_https_update_in_progress out.1 ≡ iap_https_update_in_progress o)
      × (iap_https_new_firmware_installed out.1 ≡ iap_https_new_firmware_installed o)
      × (out.1.iap.log ≡ ended s.ota_handle (p.esp_ota_end s.log s.ota_handle) ∷ s.log)

  live-ne-freed : (buffer : PageBuffer) → IsPage buffer → buffer ≢ freed
  live-ne-freed null h e = h
  live-ne-freed freed h e = h
  live-ne-freed (live b) h e = cc

  abandon-done :
      (o : Ota) (s : Iap)
      → IsOpen target s
      → Returns
          (Abandoned o s)
          (iap_abort p s >>= λ out. done (stop_receiving, record o { iap = out.1 }))
  unfolding iap_https_update_in_progress iap_https_new_firmware_installed
  abandon-done o s i =
      let Closed : IapErr × Iap → Type 0 = λ out.
        (out.0 ≡ ok)
        × IsClosed out.1
        × (out.1.log ≡ ended s.ota_handle (p.esp_ota_end s.log s.ota_handle) ∷ s.log) in
      Returns->>= Closed (Abandoned o s) (iap_abort p s) _
        (iap_abort-IsClosed p target s i.is_initialized i.is_open
          (live-ne-freed s.page_buffer i.page))
        (λ out c. (refl, c.1, refl, refl, c.2))

  -- What `write_fragment` does with the result of `iap_write`.
  after_write :
      (buffer : List ℕ) (n : ℕ) (o : Ota) (out : IapErr × Iap)
      → Updating target o
      → Written p target o.iap buffer n out
      → let o' = record o {
        iap = out.1;
        total_nof_bytes_received = (o.total_nof_bytes_received + n) % 2 ^ 32;
      } in
        Returns (FragmentDone o (take n buffer) n) (
          if is_ok out.0
          then done (continue_receiving, o')
          else (iap_abort p out.1 >>= λ r. done (stop_receiving, record o' { iap = r.1 })))
  unfolding iap_https_update_in_progress iap_https_new_firmware_installed
  after_write buffer n o out u w = elim (w.outcome) [
    | inl good ↦ rw (good.0) (
        inl (
          refl,
          record { session = u.session; programming = w.still_open },
          w.grown ∙ ap (λ k. image o.iap ++ take k buffer) (good.1),
          refl,
          refl,
        ))
    | inr bad ↦
        let o' = record o {
          iap = out.1;
          total_nof_bytes_received = (o.total_nof_bytes_received + n) % 2 ^ 32;
        } in
        rw (bad.0) (
          Returns-mono (Abandoned o' out.1) (FragmentDone o (take n buffer) n)
            (iap_abort p out.1 >>= λ r. done (stop_receiving, record o' { iap = r.1 }))
            (λ _ a. inr (a.0, a.1, a.2 ∙ u.session, a.3, rw (a.4) (bad.1)))
            (abandon-done o' out.1 (w.still_open)))
  ]

  pub write_fragment-done :
      (buffer : List ℕ) (n : ℕ) (o : Ota)
      → Updating target o
      → n < 2 ^ 16
      → n ≤ length buffer
      → Returns (FragmentDone o (take n buffer) n) (write_fragment p buffer n o)
  unfolding write_fragment
  write_fragment-done buffer n o u small h =
      let no_wrap : n % 2 ^ 16 ≡ n = omega arith in
      rw no_wrap (
        Returns->>= (Written p target o.iap buffer n) (FragmentDone o (take n buffer) n)
          (iap_write p o.iap buffer n) _
          (iap_write-Written p target o.iap buffer n (u.programming) h small)
          (λ out w. after_write buffer n o out u w))

  -- A fragment of less than 64 KB that arrives during an update is appended to the image and the
  -- callback asks for more. If a write to the flash fails, the session is aborted and the callback
  -- asks for no more; the module then goes on reporting that an update is in progress.
  pub firmware_fragment-done :
      (buffer : List ℕ) (n : ℕ) (o : Ota)
      → Updating target o
      → 0 < n
      → n < 2 ^ 16
      → n ≤ length buffer
      → Returns (FragmentDone o (take n buffer) n) (iap_https_firmware_body_callback p buffer n o)
  unfolding iap_https_firmware_body_callback start_session
  firmware_fragment-done buffer n o u some_bytes small h =
      let positive : ltb 0 n ≡ true = ground arith in
      simp (u.session, positive) (write_fragment-done buffer n o u small h)

  -- What the last call of the callback leaves behind, when bytes have been received.
  pub record FinishDone (o : Ota) (out : ContinueReceiving × Ota) : Type 0 where
    pub stops : out.0 ≡ stop_receiving
    pub not_in_progress : iap_https_update_in_progress out.1 ≡ false
    pub reports_new : iap_https_new_firmware_installed out.1 ≡ true
    pub reboots : out.1.restarted ≡ (o.restarted || o.config.auto_reboot)
    pub holds :
        flashed out.1.iap.log
        ≡ (if final_write_succeeds p o.iap then image o.iap else flashed o.iap.log)
    pub outcome :
        IsClosed out.1.iap × ActivatedNow target out.1.iap.log
        ⊎ IsBroken out.1.iap × (boots out.1.iap.log ≡ boots o.iap.log)

  abbrev CommitGives : Ota → IapErr × Iap → Type 0
  CommitGives o =
      Committed target (if final_write_succeeds p o.iap then image o.iap else flashed o.iap.log)

  commit-FinishDone :
      (o : Ota) (out : IapErr × Iap)
      → CommitGives o out
      → KeepsBoot (boots o.iap.log) out
      → FinishDone o (
        stop_receiving,
        record o {
          has_iap_session = false;
          iap = out.1;
          has_new_firmware = true;
          restarted = o.restarted || o.config.auto_reboot;
        },
      )
  unfolding iap_https_update_in_progress iap_https_new_firmware_installed
  commit-FinishDone o out c k = record {
    stops = refl;
    not_in_progress = refl;
    reports_new = refl;
    reboots = refl;
    holds = c.holds;
    outcome = elim (c.outcome) [
      | inl good ↦ inl (good.1, good.2)
      | inr bad ↦ elim k [
        | inl good ↦ absurd (ground (arith, good, bad.0))
        | inr kept ↦ inr (bad.1, kept)
      ]
    ];
  }

  -- When all fragments have been received, the callback is called with length 0. It commits the
  -- image, and reports a new firmware and reboots, if so configured, whether the commit succeeds or
  -- not. If the commit fails, the boot partition is as it was and the IAP session stays open, without
  -- a page buffer.
  pub firmware_end-FinishDone :
      (buffer : List ℕ) (o : Ota)
      → Updating target o
      → 0 < o.total_nof_bytes_received
      → o.total_nof_bytes_received < 2 ^ 31
      → Returns (FinishDone o) (iap_https_firmware_body_callback p buffer 0 o)
  unfolding iap_https_firmware_body_callback start_session finish_update
  firmware_end-FinishDone buffer o u some_bytes small =
      let positive : ltb 0 o.total_nof_bytes_received ≡ true = ground arith in
      let fits : ltb o.total_nof_bytes_received (2 ^ 31) ≡ true = ground arith in
      simp (u.session, positive, fits)
        (Returns->>= (λ out. CommitGives o out × KeepsBoot (boots o.iap.log) out) (FinishDone o)
          (iap_commit p o.iap) _
          (Returns-and-Ensures (CommitGives o) (KeepsBoot (boots o.iap.log)) _ (iap_commit p o.iap)
            (λ out c k. (c, k)) (iap_commit-Committed p target o.iap (u.programming))
            (iap_commit-KeepsBoot p target o.iap))
          (λ out (c, k). commit-FinishDone o out c k))
