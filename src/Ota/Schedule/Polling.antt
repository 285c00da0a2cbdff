-- ===== src/Ota/Schedule/Polling.antt =====
-- The periodic checks of main/iap_https.c: while the server wants the device to poll, a check is due or
-- the timer for the next one runs.
use mathlib.Core.Path.{subst}
use esp32_ota_https.Prelude.{
  ltb, Bool-cases, Run, Ensures, Ensures->>=, Ensures-trivial, Ensures-if, Ensures-both, ℕ, ◌≡◌,
  refl, sym, ap, ◌∙◌, ◌⊎◌, inl, inr, Bool, true, false, ◌||◌, Option, none, some, List, [], ◌∷◌,
  arith,
}
use esp32_ota_https.Flash.{Platform}
use esp32_ota_https.Iap.{iap_init}
use esp32_ota_https.Http.Request.{Mallocs}
use esp32_ota_https.Tls.{Mbedtls, Net, Tls, TlsInit, wifi_tls_create_context}
use esp32_ota_https.Ota.{Config, Ota}
use esp32_ota_https.Ota.Task.{
  TimerCalls, iap_https_prepare_timer, iap_https_trigger_processing,
  iap_https_periodic_check_timer_callback, iap_https_check_for_update, iap_https_download_image,
  iap_https_init,
}
use esp32_ota_https.Ota.Frame.{SameSchedule, SameFirmware}
use esp32_ota_https.Ota.Frame.Check.{iap_https_check_for_update-SameFirmware}
use esp32_ota_https.Ota.Frame.Download.{iap_https_download_image-SameSchedule}
use esp32_ota_https.Ota.Schedule.{
  Phase, waiting, woken, downloading, downloaded, checking, checked, prepared, Station, Turn, task,
  check_now, timer_fires, choose, check_bit, download_bit, armed, with_ota, task_turn, turn,
  run_turns, started,
}

module _ {Cert : Type 0} where
  -- The interval is 0, or the timer runs.
  abbrev pub IsArmed : Station Cert → Type 0
  IsArmed s = (s.system.ota.config.polling_interval_s ≡ 0) ⊎ (armed s ≡ true)

  -- No check is forgotten. While one is under way its bit is set, and at its end the timer runs.
  abbrev pub PollsAt : Phase → Station Cert → Type 0
  PollsAt waiting s = IsArmed s ⊎ (check_bit s ≡ true)
  PollsAt (woken c d) s = (IsArmed s ⊎ (check_bit s ≡ true)) × ((c ≡ false) ⊎ (check_bit s ≡ true))
  PollsAt downloading s = IsArmed s ⊎ (check_bit s ≡ true)
  PollsAt downloaded s = IsArmed s ⊎ (check_bit s ≡ true)
  PollsAt checking s = check_bit s ≡ true
  PollsAt checked s = check_bit s ≡ true
  PollsAt prepared s = IsArmed s

  abbrev pub Polls : Station Cert → Type 0
  Polls s = PollsAt s.phase s

-- A timer that is needed can be created, and one of the two calls that start it succeeds.
abbrev pub StartsTimer : TimerCalls → Type 0
StartsTimer t = (t.created ≡ true) × (t.changed || t.reset ≡ true)

-- The timer is started where that is needed, and its period does not end at the very end of a check,
-- between the restart of the timer and the clearing of the bit.
abbrev pub CalmTurn : Turn → Phase → Type 0
CalmTurn (task online timers) at = StartsTimer timers
CalmTurn check_now at = Unit
CalmTurn timer_fires prepared = ⊥
CalmTurn timer_fires _ = Unit

module _ {Cert : Type 0} (p : Platform) (m : Mbedtls Cert) (mem : ℕ → Mallocs) where
  abbrev pub Calm : List Turn → Station Cert → Type 0
  Calm [] s = Unit
  Calm (t ∷ turns) s = CalmTurn t s.phase × Ensures (Calm turns) (turn p m mem t s)

  -- The timer is started if it is needed.
  prepared_timer :
      (t : TimerCalls) (o : Ota)
      → StartsTimer t
      → let o' = iap_https_prepare_timer t o in
        (o'.config.polling_interval_s ≡ 0) ⊎ (o'.timer_runs ≡ true)
  unfolding iap_https_prepare_timer
  prepared_timer t o starts = go o.check_for_updates_timer refl
    where
      runs : o.timer_runs || t.changed || t.reset ≡ true
      runs = ground (arith, starts.1)

      go :
          (timer : Option ℕ)
          → o.check_for_updates_timer ≡ timer
          → let o' = iap_https_prepare_timer t o in
            (o'.config.polling_interval_s ≡ 0) ⊎ (o'.timer_runs ≡ true)
      go none e = elim (Bool-cases (ltb 0 o.config.polling_interval_s)) [
        | inl wanted ↦ rw (wanted, e, starts.0) (inr runs)
        | inr unwanted ↦ rw (unwanted, e) (inl (ground (arith, unwanted)))
      ]
      go (some k) e = elim (Bool-cases (ltb 0 o.config.polling_interval_s)) [
        | inl wanted ↦ rw (wanted, e) (inr runs)
        | inr unwanted ↦ rw (unwanted, e) (inl (ground (arith, unwanted)))
      ]

  choose-Polls :
      (c d : Bool) (s : Station Cert)
      → PollsAt (woken c d) s
      → PollsAt (choose c d) (record s { phase = choose c d })
  choose-Polls c true s (h, k) = h
  choose-Polls true false s (h, inl e) = absurd (ground (arith, e))
  choose-Polls true false s (h, inr e) = e
  choose-Polls false false s (h, k) = h

  task_turn-Polls :
      (at : Phase) (online : Bool) (timers : TimerCalls) (s : Station Cert)
      → StartsTimer timers
      → s.phase ≡ at
      → PollsAt at s
      → Ensures Polls (task_turn p m mem at online timers s)
  task_turn-Polls waiting online timers s starts e h =
      elim (Bool-cases (check_bit s || download_bit s)) [
        | inl some_bit ↦
            rw some_bit
              (h, (elim (Bool-cases (check_bit s)) [ inl set ↦ inr set | inr clear ↦ inl clear ]))
        | inr none_bit ↦ rw none_bit (subst (λ a. PollsAt a s) (sym e) h)
      ]
  task_turn-Polls (woken c d) true timers s starts e h = choose-Polls c d s h
  task_turn-Polls (woken c d) false timers s starts e h = subst (λ a. PollsAt a s) (sym e) h
  task_turn-Polls downloading online timers s starts e h =
      Ensures->>= (λ system. SameSchedule s.system.ota system.ota) Polls
        (iap_https_download_image p m mem s.system) _
        (iap_https_download_image-SameSchedule p m mem s.system)
        (λ system same. elim h [
          | inl (inl never) ↦
              inl (inl (ap (λ config. config.polling_interval_s) same.same_config ∙ never))
          | inl (inr running) ↦ inl (inr (same.same_runs ∙ running))
          | inr set ↦ inr (same.same_check ∙ set)
        ])
  task_turn-Polls downloaded online timers s starts e h = h
  task_turn-Polls checking online timers s starts e h =
      Ensures->>= (λ system. SameFirmware s.system.ota system.ota) Polls
        (iap_https_check_for_update p m mem s.system) _
        (iap_https_check_for_update-SameFirmware p m mem s.system)
        (λ system same. same.same_check ∙ h)
  task_turn-Polls checked online timers s starts e h = prepared_timer timers s.system.ota starts
  task_turn-Polls prepared online timers s starts e h = inl h

  -- The bit for a check is set, where no check ends.
  bit-Polls :
      (at : Phase) (s : Station Cert) → check_bit s ≡ true → CalmTurn timer_fires at → PollsAt at s
  bit-Polls waiting s set calm = inr set
  bit-Polls (woken c d) s set calm = (inr set, inr set)
  bit-Polls downloading s set calm = inr set
  bit-Polls downloaded s set calm = inr set
  bit-Polls checking s set calm = set
  bit-Polls checked s set calm = set
  bit-Polls prepared s set calm = absurd calm

  trigger-Polls :
      (at : Phase) (s : Station Cert)
      → PollsAt at s
      → PollsAt at (with_ota (iap_https_trigger_processing s.system.ota) s)
  unfolding iap_https_trigger_processing
  trigger-Polls at s h = elim (Bool-cases (check_bit s)) [
    | inl set ↦ simp set h
    | inr clear ↦ simp clear (at_clear at h)
  ]
    where
      at_clear :
          (at : Phase)
          → PollsAt at s
          → PollsAt at (with_ota (record (s.system.ota) { check_for_update_bit = true }) s)
      at_clear waiting h = inr refl
      at_clear (woken c d) h = (inr refl, inr refl)
      at_clear downloading h = inr refl
      at_clear downloaded h = inr refl
      at_clear checking h = refl
      at_clear checked h = refl
      at_clear prepared h = h

  turn-Polls :
      (t : Turn) (s : Station Cert)
      → CalmTurn t s.phase
      → Polls s
      → Ensures Polls (turn p m mem t s)
  unfolding turn iap_https_periodic_check_timer_callback
  turn-Polls (task online timers) s calm h = task_turn-Polls s.phase online timers s calm refl h
  turn-Polls check_now s calm h = trigger-Polls s.phase s h
  turn-Polls timer_fires s calm h = elim (Bool-cases (armed s)) [
    | inl running ↦ simp running (
        bit-Polls s.phase
          (with_ota
            (record (iap_https_periodic_check_timer_callback s.system.ota) { timer_runs = false })
            s)
          refl calm)
    | inr dormant ↦ simp dormant h
  ]

  -- While the interval is not 0, a check is due or the timer runs, after every order of turns, and so
  -- the device goes on polling. `xTimerCreate` succeeds, and so does one of `xTimerChangePeriod` and
  -- `xTimerReset`, each of which starts the timer; and its period does not end between its restart
  -- and the clearing of the bit at the end of a check.
  pub run_turns-Polls :
      (turns : List Turn) (s : Station Cert)
      → Polls s
      → Calm turns s
      → Ensures Polls (run_turns p m mem turns s)
  unfolding run_turns
  run_turns-Polls [] s h calm = h
  run_turns-Polls (t ∷ turns) s h calm =
      Ensures->>= (λ s'. Polls s' × Calm turns s') Polls (turn p m mem t s) _
        (Ensures-both Polls (Calm turns) (turn p m mem t s) (turn-Polls t s (calm.0) h) (calm.1))
        (λ s' (h', calm'). run_turns-Polls turns s' h' calm')

  -- The device polls from the start: `iap_https_init` has started the timer if the configuration asks
  -- for it and the calls for the timer succeed.
  pub iap_https_init-Polls :
      (n : Net) (allocations : List Bool) (group_created : Bool) (timers : TimerCalls)
      (metadata firmware : List ℕ) (config : Config) (o : Ota)
      → StartsTimer timers
      → Ensures
          (λ system. Polls (started system))
          (iap_https_init p m mem n allocations group_created timers metadata firmware config o)
  unfolding iap_https_init
  iap_https_init-Polls n allocations group_created timers metadata firmware config o starts =
      let o' = record o {
        config = config;
        iap = (iap_init o.iap).1;
        check_for_update_bit = false;
        download_image_bit = false;
      } in
      let params : TlsInit = record {
        host_name = some config.server_host_name;
        port = some config.server_port;
        root_ca_public_key_pem = some config.server_root_ca_public_key_pem;
        peer_public_key_pem = some config.peer_public_key_pem;
      } in
      let created : Run (Option (Tls Cert)) = wifi_tls_create_context n allocations params in
      Ensures->>= (λ _. Unit {0}) (λ system. Polls (started system)) created _
        (Ensures-trivial created)
        (λ context _.
          Ensures-if (λ system. Polls (started system)) group_created _ _
            (inl (prepared_timer timers o' starts)) tt)
