-- ===== src/Ota/Schedule/Live.antt =====
-- What the task of main/iap_https.c gets to, under every order of turns: a bit that is set leads to
-- its request.
use esp32_ota_https.Prelude.{
  if◌then◌else◌, Bool-cases, ℕ, ◌+◌, ◌≤◌, ◌≡◌, refl, ap, ◌∙◌, ◌≢◌, ◌⊎◌, inl, inr, Bool, true, false,
  ◌||◌, List, arith,
}
use esp32_ota_https.Flash.{Platform}
use esp32_ota_https.Http.Request.{Mallocs}
use esp32_ota_https.Tls.{Mbedtls}
use esp32_ota_https.Ota.{Ota}
use esp32_ota_https.Ota.Task.{
  TimerCalls, iap_https_prepare_timer, iap_https_trigger_processing,
  iap_https_periodic_check_timer_callback, iap_https_check_for_update,
}
use esp32_ota_https.Ota.Frame.{SameFirmware}
use esp32_ota_https.Ota.Frame.Check.{iap_https_check_for_update-SameFirmware}
use esp32_ota_https.Ota.Schedule.{
  Phase, waiting, woken, downloading, downloaded, checking, checked, prepared, Station, Turn, task,
  check_now, timer_fires, choose, check_bit, download_bit, armed, task_turn, turn,
}
use esp32_ota_https.Ota.Schedule.Progress.{
  Progress, Progress-request, cost, cost_bound, online_turns, Eventually, ranked,
}

module _ {Cert : Type 0} (p : Platform) (m : Mbedtls Cert) (mem : ℕ → Mallocs) where
  -- The bit for the download is set, and not about to be cleared.
  abbrev DownloadDue : Station Cert → Type 0
  DownloadDue s = (download_bit s ≡ true) × (s.phase ≢ downloaded)

  abbrev to_download : Phase → ℕ
  to_download downloading = 0
  to_download (woken c d) = if d then 1 else if c then 6 else 3
  to_download waiting = 2
  to_download prepared = 3
  to_download checked = 4
  to_download checking = 5
  to_download downloaded = 6

  -- Where the turn of the request returns, it has gone on in this way.
  abbrev Nearer : Phase → ℕ → Station Cert → Type 0
  Nearer at n s' = DownloadDue s' × (to_download s'.phase + n ≤ to_download at)

  prepared-download :
      (timers : TimerCalls) (o : Ota)
      → (iap_https_prepare_timer timers o).download_image_bit ≡ o.download_image_bit
  unfolding iap_https_prepare_timer
  prepared-download timers o = ground arith

  kept-due :
      (o o' : Ota) → SameFirmware o o' → o.download_image_bit ≡ true → o'.download_image_bit ≡ true
  kept-due o o' same due = elim (same.download) [ inl e ↦ e ∙ due | inr e ↦ e ]

  woken-due :
      (c d : Bool) (timers : TimerCalls) (s : Station Cert)
      → DownloadDue s
      → Nearer (woken c d) 1 (record s { phase = choose c d })
  woken-due c true timers s due = ((due.0, λ e. cc), omega arith)
  woken-due true false timers s due = ((due.0, λ e. cc), omega arith)
  woken-due false false timers s due = ((due.0, λ e. cc), omega arith)

  due_task :
      (at : Phase) (online : Bool) (timers : TimerCalls) (s : Station Cert)
      → s.phase ≡ at
      → DownloadDue s
      → (at ≡ downloading)
        ⊎ Progress
            (Nearer at (cost (task online timers)))
            (at ≡ checking)
            (task_turn p m mem at online timers s)
  due_task downloading online timers s e due = inl refl
  due_task downloaded online timers s e due = absurd (due.1 e)
  due_task waiting online timers s e due =
      let some_bit : check_bit s || download_bit s ≡ true = ground (arith, due.0) in
      rw (some_bit, due.0) (inr ((refl, λ h. cc), omega (arith, cost_bound (task online timers))))
  due_task (woken c d) true timers s e due = inr (woken-due c d timers s due)
  due_task (woken c d) false timers s e due = inr (
    due,
    let same : to_download s.phase ≡ to_download (woken c d) = ap to_download e in
        omega (arith, same),
  )
  due_task checking online timers s e due = inr (
      Progress-request (λ system. SameFirmware s.system.ota system.ota) _ (checking ≡ checking)
        (iap_https_check_for_update p m mem s.system)
        (λ system. record s { system = system; phase = checked }) refl
        (iap_https_check_for_update-SameFirmware p m mem s.system)
        (λ system same. (
          (kept-due s.system.ota system.ota same (due.0), λ h. cc),
          omega (arith, cost_bound (task online timers)),
        )))
  due_task checked online timers s e due = inr (
    (prepared-download timers s.system.ota ∙ due.0, λ h. cc),
    omega (arith, cost_bound (task online timers)),
  )
  due_task prepared online timers s e due =
      inr ((due.0, λ h. cc), omega (arith, cost_bound (task online timers)))

  due_turn :
      (t : Turn) (s : Station Cert)
      → DownloadDue s
      → (s.phase ≡ downloading)
        ⊎ Progress (Nearer s.phase (cost t)) (s.phase ≡ checking) (turn p m mem t s)
  unfolding turn iap_https_trigger_processing iap_https_periodic_check_timer_callback
  due_turn (task online timers) s due = due_task s.phase online timers s refl due
  due_turn check_now s due = elim (Bool-cases (check_bit s)) [
    | inl set ↦ rw set (inr (due, omega arith))
    | inr clear ↦ rw clear (inr (due, omega arith))
  ]
  due_turn timer_fires s due = elim (Bool-cases (armed s)) [
    | inl running ↦ rw running (inr (due, omega arith))
    | inr dormant ↦ rw dormant (inr (due, omega arith))
  ]

  to_download-zero : (at : Phase) → to_download at ≡ 0 → at ≡ downloading
  to_download-zero waiting h = absurd (omega (arith, h))
  to_download-zero (woken c true) h = absurd (omega (arith, h))
  to_download-zero (woken true false) h = absurd (omega (arith, h))
  to_download-zero (woken false false) h = absurd (omega (arith, h))
  to_download-zero downloading h = refl
  to_download-zero downloaded h = absurd (omega (arith, h))
  to_download-zero checking h = absurd (omega (arith, h))
  to_download-zero checked h = absurd (omega (arith, h))
  to_download-zero prepared h = absurd (omega (arith, h))

  to_download_bound : (at : Phase) → to_download at ≤ 6
  to_download_bound waiting = omega arith
  to_download_bound (woken c true) = omega arith
  to_download_bound (woken true false) = omega arith
  to_download_bound (woken false false) = omega arith
  to_download_bound downloading = omega arith
  to_download_bound downloaded = omega arith
  to_download_bound checking = omega arith
  to_download_bound checked = omega arith
  to_download_bound prepared = omega arith

  -- Once the bit for the download is set, the task comes to a download, in each order of turns, within
  -- six of its own turns with the network connected, if it is not about to clear that bit. All
  -- that can keep it from that is a check under way whose request does not return.
  pub download_starts :
      (turns : List Turn) (s : Station Cert)
      → download_bit s ≡ true
      → s.phase ≢ downloaded
      → 6 ≤ online_turns turns
      → Eventually p m mem (λ s'. s'.phase ≡ downloading) (λ s'. s'.phase ≡ checking) turns s
  download_starts turns s due open_bit enough =
      ranked p m mem (λ s'. s'.phase ≡ downloading) (λ s'. s'.phase ≡ checking) DownloadDue
        (λ s'. to_download s'.phase) (λ s' i. to_download-zero s'.phase) due_turn turns s
        (due, open_bit) (omega (arith, to_download_bound s.phase))
