-- ===== src/Ota/Install.antt =====
-- A whole update: the fragments that main/https_client.c hands to the firmware callback of
-- main/iap_https.c, one after the other, and the final call with length 0.
use esp32_ota_https.Prelude.{
  ltb, if◌then◌else◌, length, take, length-append, take-ge, Run, done, ◌>>=◌, Returns, Returns->>=,
  ℕ, ◌+◌, ◌^◌, ◌<◌, ◌≡◌, refl, ap, ◌∙◌, inl, inr, true, false, List, [], ◌∷◌, ◌++◌, append-nil,
  append_assoc, arith,
}
use esp32_ota_https.Flash.{Partition, wrote, ended, Log, Platform, flashed}
use esp32_ota_https.Iap.{Iap, iap_commit}
use esp32_ota_https.Iap.Image.{buffered, image, LastWriteFailed}
use esp32_ota_https.Iap.Session.{
  IsClosed, ActivatedNow, final_write_succeeds, Activates, Activated, iap_commit-Activated,
}
use esp32_ota_https.Http.{ContinueReceiving, continue_receiving, stop_receiving}
use esp32_ota_https.Ota.{Ota, start_session, finish_update, iap_https_firmware_body_callback}
use esp32_ota_https.Ota.Task.{iap_https_update_in_progress, iap_https_new_firmware_installed}
use esp32_ota_https.Ota.Update.{
  Updating, WritesSucceed, AbortedWrite, FragmentDone, firmware_fragment-done,
}

-- The calls of the callback for the fragments that are given, as `https_tls_callback` makes them:
-- another one is delivered only if the callback asks for more.
unfoldable pub deliver : Platform → List (List ℕ) → Ota → Run (ContinueReceiving × Ota)
deliver p [] o = iap_https_firmware_body_callback p [] 0 o
deliver p (fragment ∷ fragments) o = do
  (cr, o') ← iap_https_firmware_body_callback p fragment (length fragment) o
  elim cr [
    | continue_receiving ↦ deliver p fragments o'
    | stop_receiving ↦ done (stop_receiving, o')
  ]

-- All fragments together.
abbrev pub joined : List (List ℕ) → List ℕ
joined [] = []
joined (fragment ∷ fragments) = fragment ++ joined fragments

-- What `https_tls_callback` delivers: no empty fragment, and none of 64 KB or more.
abbrev pub AreFragments : List (List ℕ) → Type 0
AreFragments [] = Unit
AreFragments (fragment ∷ fragments) =
    (0 < length fragment) × (length fragment < 2 ^ 16) × AreFragments fragments

module _ (p : Platform) (target : Partition) where
  -- A write that has failed contradicts a flash on which every write succeeds.
  not-LastWriteFailed : (log : Log) → WritesSucceed p → ¬ LastWriteFailed p log
  not-LastWriteFailed [] writes h = h
  not-LastWriteFailed (wrote handle bytes r ∷ log) writes h =
      ground (arith, writes log handle bytes, h)
  not-LastWriteFailed (_ ∷ log) writes h = h

  pub not-AbortedWrite : (log : Log) → WritesSucceed p → ¬ AbortedWrite p log
  not-AbortedWrite [] writes h = h
  not-AbortedWrite (ended handle r ∷ log) writes h = not-LastWriteFailed log writes h
  not-AbortedWrite (_ ∷ log) writes h = h

  -- What a whole update leaves behind: its bytes are in the flash, and are what the device boots.
  abbrev pub Installed : List ℕ → ContinueReceiving × Ota → Type 0
  Installed bytes out =
      (out.0 ≡ stop_receiving)
      × (flashed out.1.iap.log ≡ bytes)
      × ActivatedNow target out.1.iap.log
      × IsClosed out.1.iap
      × (iap_https_new_firmware_installed out.1 ≡ true)
      × (iap_https_update_in_progress out.1 ≡ false)

  final_write_succeeds_lem : (s : Iap) → WritesSucceed p → final_write_succeeds p s ≡ true
  final_write_succeeds_lem s writes =
      ground (arith, writes s.log s.ota_handle (buffered s.page_buffer s.page_buffer_ix))

  pub Installed-at_end :
      (buffer : List ℕ) (o : Ota)
      → Updating target o
      → WritesSucceed p
      → Activates p
      → 0 < o.total_nof_bytes_received
      → o.total_nof_bytes_received < 2 ^ 31
      → Returns (Installed (image o.iap)) (iap_https_firmware_body_callback p buffer 0 o)
  unfolding iap_https_firmware_body_callback start_session finish_update
      iap_https_new_firmware_installed iap_https_update_in_progress
  Installed-at_end buffer o u writes acts some_bytes small =
      let positive : ltb 0 o.total_nof_bytes_received ≡ true = ground arith in
      let fits : ltb o.total_nof_bytes_received (2 ^ 31) ≡ true = ground arith in
      let good = final_write_succeeds_lem o.iap writes in
      let Committing =
        Activated p target
          (if final_write_succeeds p o.iap then image o.iap else flashed o.iap.log) in
      simp (u.session, positive, fits)
        (Returns->>= Committing (Installed (image o.iap)) (iap_commit p o.iap) _
          (iap_commit-Activated p target o.iap (u.programming) acts)
          (λ out c. (refl, c.3 ∙ rw good, c.2, c.1, refl, refl)))

  -- All fragments of an update under way are delivered: the flash then holds the image so far and the
  -- fragments, in order and without a gap, `target` is the boot partition, the session is closed and
  -- the module reports a new firmware. This is so for every division of the image into fragments that
  -- are not empty and have less than 64 KB, on a flash on which no write and no activation fails, for
  -- an image below 2 GB that is not empty.
  pub deliver-Installed :
      (fragments : List (List ℕ)) (o : Ota)
      → Updating target o
      → AreFragments fragments
      → WritesSucceed p
      → Activates p
      → 0 < o.total_nof_bytes_received + length (joined fragments)
      → o.total_nof_bytes_received + length (joined fragments) < 2 ^ 31
      → Returns (Installed (image o.iap ++ joined fragments)) (deliver p fragments o)
  unfolding deliver
  deliver-Installed [] o u f writes acts some_bytes small =
      rw append-nil (Installed-at_end [] o u writes acts (omega arith) (omega arith))
  deliver-Installed (fragment ∷ fragments) o u f writes acts some_bytes small =
      let n = length fragment in
      let whole : take n fragment ≡ fragment = take-ge n fragment (omega arith) in
      Returns->>= (FragmentDone p target o (take n fragment) n)
        (Installed (image o.iap ++ (fragment ++ joined fragments)))
        (iap_https_firmware_body_callback p fragment n o) _
        (firmware_fragment-done p target fragment n o u (f.0) (f.1) (omega arith))
        λ out h. elim h [
          | inl next ↦
              let total : out.1.total_nof_bytes_received ≡ o.total_nof_bytes_received + n =
                next.3 ∙ omega (arith, length-append fragment (joined fragments)) in
              let grown : image out.1.iap ≡ image o.iap ++ fragment =
                next.2 ∙ ap (λ b. image o.iap ++ b) whole in
              rw (next.0) (
                rw (← append_assoc (image o.iap) fragment (joined fragments)) (
                  (rw (← grown) (
                    deliver-Installed fragments out.1 (next.1) (f.2) writes acts
                      (omega (arith, total, length-append fragment (joined fragments)))
                      (omega (arith, total, length-append fragment (joined fragments)))))))
          | inr over ↦ absurd (not-AbortedWrite out.1.iap.log writes (over.4))
        ]
