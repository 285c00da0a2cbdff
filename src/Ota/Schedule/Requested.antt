-- ===== src/Ota/Schedule/Requested.antt =====
-- A check that is asked for in main/iap_https.c: when the task comes to it.
use esp32_ota_https.Prelude.{
  if◌then◌else◌, Bool-cases, ℕ, ◌+◌, ◌≤◌, ◌≡◌, refl, ap, ◌∙◌, ◌⊎◌, inl, inr, Bool, true, false,
  ◌||◌, List, arith,
}
use esp32_ota_https.Flash.{Platform}
use esp32_ota_https.Http.Request.{Mallocs}
use esp32_ota_https.Tls.{Mbedtls}
use esp32_ota_https.Ota.Task.{
  TimerCalls, iap_https_trigger_processing, iap_https_periodic_check_timer_callback,
  iap_https_download_image,
}
use esp32_ota_https.Ota.Frame.{SameSchedule}
use esp32_ota_https.Ota.Frame.Download.{iap_https_download_image-SameSchedule}
use esp32_ota_https.Ota.Schedule.{
  Phase, waiting, woken, downloading, downloaded, checking, checked, prepared, Station, Turn, task,
  check_now, timer_fires, choose, check_bit, download_bit, armed, task_turn, turn,
}
use esp32_ota_https.Ota.Schedule.Progress.{
  Progress, Progress-request, cost, cost_bound, online_turns, Eventually, ranked,
}

module _ {Cert : Type 0} (p : Platform) (m : Mbedtls Cert) (mem : ℕ → Mallocs) where
  -- The task is not at the end of a check, where the bit will be cleared without another check.
  abbrev pub BeforeCheck : Phase → Type 0
  BeforeCheck checked = ⊥
  BeforeCheck prepared = ⊥
  BeforeCheck _ = Unit

  -- The bit for a check is set, and not about to be cleared.
  abbrev CheckDue : Station Cert → Type 0
  CheckDue s = (check_bit s ≡ true) × BeforeCheck s.phase

  abbrev to_check : Bool → Phase → ℕ
  to_check d checking = 0
  to_check d (woken c d') = if d' then 5 else if c then 1 else 7
  to_check d waiting = if d then 6 else 2
  to_check d downloaded = 3
  to_check d downloading = 4
  to_check d checked = 7
  to_check d prepared = 7

  to_check-zero : (d : Bool) (at : Phase) → to_check d at ≡ 0 → at ≡ checking
  to_check-zero true waiting h = absurd (omega (arith, h))
  to_check-zero false waiting h = absurd (omega (arith, h))
  to_check-zero d (woken c true) h = absurd (omega (arith, h))
  to_check-zero d (woken true false) h = absurd (omega (arith, h))
  to_check-zero d (woken false false) h = absurd (omega (arith, h))
  to_check-zero d downloading h = absurd (omega (arith, h))
  to_check-zero d downloaded h = absurd (omega (arith, h))
  to_check-zero d checking h = refl
  to_check-zero d checked h = absurd (omega (arith, h))
  to_check-zero d prepared h = absurd (omega (arith, h))

  to_check_bound : (d : Bool) (at : Phase) → to_check d at ≤ 7
  to_check_bound true waiting = omega arith
  to_check_bound false waiting = omega arith
  to_check_bound d (woken c true) = omega arith
  to_check_bound d (woken true false) = omega arith
  to_check_bound d (woken false false) = omega arith
  to_check_bound d downloading = omega arith
  to_check_bound d downloaded = omega arith
  to_check_bound d checking = omega arith
  to_check_bound d checked = omega arith
  to_check_bound d prepared = omega arith

  to_check-waiting : (d : Bool) → to_check d waiting ≤ 6
  to_check-waiting true = omega arith
  to_check-waiting false = omega arith

  -- Where the turn returns, the task has come nearer to the check.
  abbrev Nearer : Bool → Phase → ℕ → Station Cert → Type 0
  Nearer d at n s' = CheckDue s' × (to_check (download_bit s') s'.phase + n ≤ to_check d at)

  woken-due :
      (c d : Bool) (s : Station Cert)
      → CheckDue s
      → Nearer (download_bit s) (woken c d) 1 (record s { phase = choose c d })
  woken-due c true s due = ((due.0, tt), omega arith)
  woken-due true false s due = ((due.0, tt), omega arith)
  woken-due false false s due = ((due.0, tt), omega (arith, to_check-waiting (download_bit s)))

  waiting-due :
      (c d : Bool) (t : Turn) (s : Station Cert)
      → c ≡ true
      → check_bit s ≡ true
      → Nearer d waiting (cost t) (record s { phase = woken c d })
  waiting-due true true t s e due = ((due, tt), omega (arith, cost_bound t))
  waiting-due true false t s e due = ((due, tt), omega (arith, cost_bound t))
  waiting-due false d t s e due = absurd (ground (arith, e))

  due_task :
      (at : Phase) (online : Bool) (timers : TimerCalls) (s : Station Cert)
      → s.phase ≡ at
      → CheckDue s
      → BeforeCheck at
      → (at ≡ checking)
        ⊎ Progress
            (Nearer (download_bit s) at (cost (task online timers)))
            (at ≡ downloading)
            (task_turn p m mem at online timers s)
  due_task checking online timers s e due before = inl refl
  due_task waiting online timers s e due before =
      let some_bit : check_bit s || download_bit s ≡ true = ground (arith, due.0) in
      rw some_bit
        (inr (waiting-due (check_bit s) (download_bit s) (task online timers) s (due.0) (due.0)))
  due_task (woken c d) true timers s e due before = inr (woken-due c d s due)
  due_task (woken c d) false timers s e due before =
      let same : to_check (download_bit s) s.phase ≡ to_check (download_bit s) (woken c d) =
        ap (to_check (download_bit s)) e in
      inr (due, omega (arith, same))
  due_task downloading online timers s e due before = inr (
      Progress-request (λ system. SameSchedule s.system.ota system.ota) _
        (downloading ≡ downloading) (iap_https_download_image p m mem s.system)
        (λ system. record s { system = system; phase = downloaded }) refl
        (iap_https_download_image-SameSchedule p m mem s.system)
        (λ system same.
          ((same.same_check ∙ due.0, tt), omega (arith, cost_bound (task online timers)))))
  due_task downloaded online timers s e due before =
      inr ((due.0, tt), omega (arith, cost_bound (task online timers)))
  due_task checked online timers s e due before = absurd before
  due_task prepared online timers s e due before = absurd before

  due_turn :
      (t : Turn) (s : Station Cert)
      → CheckDue s
      → (s.phase ≡ checking)
        ⊎ Progress
            (Nearer (download_bit s) s.phase (cost t))
            (s.phase ≡ downloading)
            (turn p m mem t s)
  unfolding turn iap_https_trigger_processing iap_https_periodic_check_timer_callback
  due_turn (task online timers) s due = due_task s.phase online timers s refl due (due.1)
  due_turn check_now s due = simp (due.0) (inr ((refl, due.1), omega arith))
  due_turn timer_fires s due = elim (Bool-cases (armed s)) [
    | inl running ↦ rw running (inr ((refl, due.1), omega arith))
    | inr dormant ↦ rw dormant (inr (due, omega arith))
  ]

  -- Once the bit for a check is set, the task comes to a check, in each order of turns, within seven of
  -- its own turns with the network connected, if it is not at the end of an earlier check; a
  -- download that is due comes first. All that can keep it from that is a download whose request
  -- does not return.
  pub check_starts :
      (turns : List Turn) (s : Station Cert)
      → check_bit s ≡ true
      → BeforeCheck s.phase
      → 7 ≤ online_turns turns
      → Eventually p m mem (λ s'. s'.phase ≡ checking) (λ s'. s'.phase ≡ downloading) turns s
  check_starts turns s due before enough =
      ranked p m mem (λ s'. s'.phase ≡ checking) (λ s'. s'.phase ≡ downloading) CheckDue
        (λ s'. to_check (download_bit s') s'.phase)
        (λ s' i. to_check-zero (download_bit s') s'.phase) due_turn turns s (due, before)
        (omega (arith, to_check_bound (download_bit s) s.phase))
