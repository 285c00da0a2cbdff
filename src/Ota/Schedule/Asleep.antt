-- ===== src/Ota/Schedule/Asleep.antt =====
-- The one order of turns in which the device of main/iap_https.c stops polling: the period of the timer
-- ends between its restart and the clearing of the bit at the end of a check.
use esp32_ota_https.Prelude.{
  done, Returns, ℕ, ◌≡◌, refl, Bool, true, false, ◌||◌, List, [], ◌∷◌, arith,
}
use esp32_ota_https.Flash.{Platform}
use esp32_ota_https.Http.Request.{Mallocs}
use esp32_ota_https.Tls.{Mbedtls}
use esp32_ota_https.Ota.Task.{TimerCalls, iap_https_periodic_check_timer_callback}
use esp32_ota_https.Ota.Schedule.{
  Phase, waiting, woken, downloading, downloaded, checking, checked, prepared, Station, Turn, task,
  check_now, timer_fires, check_bit, download_bit, armed, with_ota, task_turn, turn, run_turns,
}

-- The application asks for no check.
abbrev pub Unasked : List Turn → Type 0
Unasked [] = Unit
Unasked (task online timers ∷ turns) = Unasked turns
Unasked (check_now ∷ turns) = ⊥
Unasked (timer_fires ∷ turns) = Unasked turns

-- The task waits, no bit is set, and the timer does not run.
abbrev pub IsAsleep : {Cert : Type 0} → Station Cert → Type 0
IsAsleep s =
    (s.phase ≡ waiting) × (check_bit s ≡ false) × (download_bit s ≡ false) × (armed s ≡ false)

module _ {Cert : Type 0} (p : Platform) (m : Mbedtls Cert) (mem : ℕ → Mallocs) where
  task-IsAsleep :
      (at : Phase) (online : Bool) (timers : TimerCalls) (s : Station Cert)
      → s.phase ≡ at
      → at ≡ waiting
      → IsAsleep s
      → task_turn p m mem at online timers s ≡ done s
  task-IsAsleep waiting online timers s e here h =
      let no_bit : check_bit s || download_bit s ≡ false = ground (arith, h.1, h.2) in
      rw no_bit refl
  task-IsAsleep (woken c d) online timers s e here h = absurd cc
  task-IsAsleep downloading online timers s e here h = absurd cc
  task-IsAsleep downloaded online timers s e here h = absurd cc
  task-IsAsleep checking online timers s e here h = absurd cc
  task-IsAsleep checked online timers s e here h = absurd cc
  task-IsAsleep prepared online timers s e here h = absurd cc

  run_turns-IsAsleep :
      (turns : List Turn) (s : Station Cert)
      → IsAsleep s
      → Unasked turns
      → Returns IsAsleep (run_turns p m mem turns s)
  unfolding run_turns turn
  run_turns-IsAsleep [] s h unasked = h
  run_turns-IsAsleep (task online timers ∷ turns) s h unasked =
      rw (task-IsAsleep s.phase online timers s refl (h.0) h) (run_turns-IsAsleep turns s h unasked)
  run_turns-IsAsleep (check_now ∷ turns) s h unasked = absurd unasked
  run_turns-IsAsleep (timer_fires ∷ turns) s h unasked =
      simp (h.3) (run_turns-IsAsleep turns s h unasked)

  -- If the period of the timer ends at the very end of a check, behind the restart of the timer and
  -- before the bit is cleared, and no download is due, then the device never checks again by itself:
  -- in each later order of turns the task waits, no bit is set and the timer does not run,
  -- until the application asks for a check.
  pub timer_race-IsAsleep :
      (turns : List Turn) (s : Station Cert) (online : Bool) (timers : TimerCalls)
      → s.phase ≡ prepared
      → armed s ≡ true
      → download_bit s ≡ false
      → Unasked turns
      → Returns IsAsleep (run_turns p m mem (timer_fires ∷ task online timers ∷ turns) s)
  unfolding run_turns turn iap_https_periodic_check_timer_callback
  timer_race-IsAsleep turns s online timers at armed no_download unasked =
      simp (armed, at)
        (run_turns-IsAsleep turns
          (with_ota (record (s.system.ota) { check_for_update_bit = false; timer_runs = false })
            (record s { phase = waiting }))
          (refl, refl, no_download, refl) unasked)
