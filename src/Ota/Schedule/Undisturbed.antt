-- ===== src/Ota/Schedule/Undisturbed.antt =====
-- The rounds of `iap_https_task` of main/iap_https.c, turn by turn.
use esp32_ota_https.Prelude.{
  if◌then◌else◌, replicate, done, ◌>>=◌, >>=_same, ℕ, ◌≡◌, refl, Bool, true, false, ◌||◌, List,
  arith,
}
use esp32_ota_https.Flash.{Platform}
use esp32_ota_https.Http.Request.{Mallocs}
use esp32_ota_https.Tls.{Mbedtls}
use esp32_ota_https.Ota.Task.{
  System, TimerCalls, iap_https_check_for_update, iap_https_download_image, task_round,
}
use esp32_ota_https.Ota.Schedule.{
  waiting, woken, Station, Turn, task, download_bit, turn, run_turns,
}

module _ {Cert : Type 0} (p : Platform) (m : Mbedtls Cert) (mem : ℕ → Mallocs) where
  -- The turns of a round.
  abbrev pub round_turns : TimerCalls → Bool → List Turn
  round_turns timers download_bit =
      if download_bit then replicate 3 (task true timers) else replicate 4 (task true timers)

  -- What a round leaves behind.
  abbrev pub after_round : System Cert → Station Cert
  after_round system = record { system = system; phase = waiting }

  -- What is said of `task_round` holds of the task beside the others: if nothing comes between and the
  -- network is connected, the turns of the task from one wait to the next are the round
  -- `task_round`, for every pair of bits of which one at least is set.
  pub run_round :
      (s : Station Cert) (c d : Bool) (timers : TimerCalls)
      → s.phase ≡ woken c d
      → c || d ≡ true
      → run_turns p m mem (round_turns timers d) s
        ≡ (task_round p m mem timers c d s.system >>= λ system. done (after_round system))
  unfolding run_turns turn task_round
  run_round s c true timers at some_bit =
      rw (at, run_turns)
        (>>=_same (iap_https_download_image p m mem s.system) _ _ _ _ (λ system. refl))
  run_round s true false timers at some_bit =
      rw (at, run_turns)
        (>>=_same (iap_https_check_for_update p m mem s.system) _ _ _ _ (λ system. refl))
  run_round s false false timers at some_bit = absurd (ground (arith, some_bit))
