-- ===== src/Ota/Schedule.antt =====
-- `iap_https_task` of main/iap_https.c and what runs beside it: the application that asks for a check,
-- and the timer.
--
-- The task is cut where another of them can come between: at its waits, and between the calls that
-- touch the event bits and the timer. What a request itself does is one turn, since neither the
-- application nor the timer touches anything that a request reads or writes. The timer is of the
-- one-shot kind.
pub mod Undisturbed
pub mod Progress
pub mod Live
pub mod Requested
pub mod Polling
pub mod Asleep
pub mod Sound
pub mod Secured
mod Tests
use esp32_ota_https.Prelude.{if◌then◌else◌, Run, done, ◌>>=◌, ℕ, Bool, false, ◌||◌, List, [], ◌∷◌}
use esp32_ota_https.Flash.{Platform}
use esp32_ota_https.Http.Request.{Mallocs}
use esp32_ota_https.Tls.{Mbedtls}
use esp32_ota_https.Ota.{Ota}
use esp32_ota_https.Ota.Task.{
  System, TimerCalls, iap_https_prepare_timer, iap_https_trigger_processing,
  iap_https_periodic_check_timer_callback, iap_https_check_for_update, iap_https_download_image,
}

-- Where the task stands: at the wait for the event bits; with the two bits that this wait has returned,
-- at the wait for the network; before and after each of the two requests; and, in a check, behind the
-- start of the timer.
pub data Phase : Type 0 where
  waiting : Phase
  woken : Bool → Bool → Phase
  downloading downloaded checking checked prepared : Phase

pub record Station (Cert : Type 0) : Type 0 where
  pub system : System Cert
  pub phase : Phase

-- A turn of the task, with whether the network is connected and what the calls for the timer give,
-- if they matter to it; a call of `iap_https_check_now`; the end of the timer's period.
pub data Turn : Type 0 where
  task : Bool → TimerCalls → Turn
  check_now timer_fires : Turn

-- What the task does with the bits that it was woken by.
abbrev pub choose : Bool → Bool → Phase
choose check download = if download then downloading else if check then checking else waiting

module _ {Cert : Type 0} where
  abbrev pub check_bit : Station Cert → Bool
  check_bit s = s.system.ota.check_for_update_bit

  abbrev pub download_bit : Station Cert → Bool
  download_bit s = s.system.ota.download_image_bit

  abbrev pub armed : Station Cert → Bool
  armed s = s.system.ota.timer_runs

  abbrev pub with_ota : Ota → Station Cert → Station Cert
  with_ota o s = record s { system = record (s.system) { ota = o } }

module _ {Cert : Type 0} (p : Platform) (m : Mbedtls Cert) (mem : ℕ → Mallocs) where
  -- A turn of `iap_https_task`.
  abbrev pub task_turn : Phase → Bool → TimerCalls → Station Cert → Run (Station Cert)
  task_turn waiting online timers s =
      if check_bit s || download_bit s
      then done (record s { phase = woken (check_bit s) (download_bit s) })
      else done s
  task_turn (woken c d) online timers s =
      if online then done (record s { phase = choose c d }) else done s
  task_turn downloading online timers s = do
    system ← iap_https_download_image p m mem s.system
    done (record s { system = system; phase = downloaded })
  task_turn downloaded online timers s = done (
      with_ota (record (s.system.ota) { download_image_bit = false })
        (record s { phase = waiting }))
  task_turn checking online timers s = do
    system ← iap_https_check_for_update p m mem s.system
    done (record s { system = system; phase = checked })
  task_turn checked online timers s =
      let o = iap_https_prepare_timer timers s.system.ota in
      done (with_ota o (record s { phase = prepared }))
  task_turn prepared online timers s = done (
      with_ota (record (s.system.ota) { check_for_update_bit = false })
        (record s { phase = waiting }))

  unfoldable pub turn : Turn → Station Cert → Run (Station Cert)
  turn (task online timers) s = task_turn s.phase online timers s
  turn check_now s = done (with_ota (iap_https_trigger_processing s.system.ota) s)
  turn timer_fires s =
      if armed s
      then done (
          with_ota
            (record (iap_https_periodic_check_timer_callback s.system.ota) { timer_runs = false })
            s)
      else done s

  -- The turns one after the other, in any order.
  unfoldable pub run_turns : List Turn → Station Cert → Run (Station Cert)
  unfolding turn
  run_turns [] s = done s
  run_turns (t ∷ turns) s = turn t s >>= λ s'. run_turns turns s'

-- The task after `iap_https_init`, which has started the timer if one is needed.
abbrev pub started : {Cert : Type 0} → System Cert → Station Cert
started system = record { system = system; phase = waiting }
