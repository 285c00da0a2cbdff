-- ===== src/Ota/Schedule/Tests.antt =====
-- The task of main/iap_https.c on concrete stations and in concrete orders of turns.
use esp32_ota_https.Iap.Sample.{good_flash}
use esp32_ota_https.Ota.Sample.{tls, device, online, memory, good_timers}
use esp32_ota_https.Ota.Schedule.{
  waiting, woken, downloading, checking, prepared, Station, Turn, task, check_now, timer_fires,
  turn, run_turns,
}
use esp32_ota_https.Ota.Schedule.Live.{download_starts}
use esp32_ota_https.Ota.Schedule.Requested.{check_starts}
use esp32_ota_https.Ota.Schedule.Polling.{Polls, Calm, run_turns-Polls}
use esp32_ota_https.Ota.Schedule.Asleep.{IsAsleep, timer_race-IsAsleep}
use esp32_ota_https.Ota.Task.{iap_https_trigger_processing, iap_https_periodic_check_timer_callback}
use esp32_ota_https.Prelude.{
  Ensures, Returns, ℕ, ◌≡◌, refl, inl, inr, true, false, List, [], ◌∷◌, arith,
}
use esp32_ota_https.Ota.Schedule.Progress.{Eventually}

-- A download is due, and the task has been woken for it.
abbrev woken_up : Station ℕ
woken_up = record {
  system = record online { ota = record device { check_for_update_bit = true } };
  phase = woken true true;
}

-- The application and the timer come between, and the network is lost once.
abbrev disturbed : List Turn
disturbed =
    task true good_timers
    ∷ check_now
    ∷ task false good_timers
    ∷ task true good_timers
    ∷ timer_fires
    ∷ task true good_timers
    ∷ task true good_timers
    ∷ task true good_timers
    ∷ task true good_timers
    ∷ task true good_timers
    ∷ []

-- A check has set the bit for the download, and is at its end.
abbrev check_over : Station ℕ
check_over = record woken_up {
  system = record online { ota = record device { check_for_update_bit = true; timer_runs = true } };
  phase = prepared;
}

download_starts_example :
    Eventually good_flash tls memory
      (λ s'. s'.phase ≡ downloading)
      (λ s'. s'.phase ≡ checking)
      disturbed
      check_over
download_starts_example =
    download_starts good_flash tls memory disturbed check_over refl (λ e. cc) (omega arith)

check_starts_example :
    Eventually good_flash tls memory
      (λ s'. s'.phase ≡ checking)
      (λ s'. s'.phase ≡ downloading)
      disturbed
      woken_up
check_starts_example = check_starts good_flash tls memory disturbed woken_up refl tt (omega arith)

-- A call and the end of the period come between the first turns of a round.
abbrev calm_turns : List Turn
calm_turns = check_now ∷ task true good_timers ∷ timer_fires ∷ task true good_timers ∷ []

calm_turns-Calm : Calm good_flash tls memory calm_turns (record check_over { phase = waiting })
unfolding turn iap_https_trigger_processing iap_https_periodic_check_timer_callback
calm_turns-Calm = (tt, ((refl, refl), (tt, ((refl, refl), tt))))

run_turns-Polls_example :
    Ensures Polls
      (run_turns good_flash tls memory calm_turns (record check_over { phase = waiting }))
run_turns-Polls_example =
    run_turns-Polls good_flash tls memory calm_turns (record check_over { phase = waiting })
      (inl (inr refl)) calm_turns-Calm

timer_race-IsAsleep_example : Returns IsAsleep (
    run_turns good_flash tls memory
      (timer_fires
        ∷ task true good_timers
        ∷ task true good_timers
        ∷ timer_fires
        ∷ task true good_timers
        ∷ [])
      (record check_over {
        system = record online {
          ota = record device { download_image_bit = false; timer_runs = true };
        };
      }))
timer_race-IsAsleep_example =
    timer_race-IsAsleep good_flash tls memory
      (task true good_timers ∷ timer_fires ∷ task true good_timers ∷ [])
      (record check_over {
        system = record online {
          ota = record device { download_image_bit = false; timer_runs = true };
        };
      })
      true good_timers refl refl refl tt
