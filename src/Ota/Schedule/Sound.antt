-- ===== src/Ota/Schedule/Sound.antt =====
-- The firmware through every order of turns of the task of main/iap_https.c, the application and the
-- timer.
use esp32_ota_https.Prelude.{
  Run, ◌>>=◌, Ensures, Ensures->>=, Ensures-mono, Ensures-trivial, Ensures-if, ℕ, Bool, false, ◌||◌,
  Option, some, List, [], ◌∷◌, arith,
}
use esp32_ota_https.Flash.{Platform}
use esp32_ota_https.Iap.{iap_init}
use esp32_ota_https.Iap.Validity.{iap_init-IsValid, MallocGives, BootKnown}
use esp32_ota_https.Http.Request.{Mallocs}
use esp32_ota_https.Tls.{Mbedtls, Net, Tls, TlsInit, wifi_tls_create_context}
use esp32_ota_https.Ota.{Config, Ota}
use esp32_ota_https.Ota.Task.{
  TimerCalls, iap_https_prepare_timer, iap_https_trigger_processing,
  iap_https_periodic_check_timer_callback, iap_https_check_for_update, request_image,
  iap_https_download_image, iap_https_init,
}
use esp32_ota_https.Ota.Frame.{SameFirmware}
use esp32_ota_https.Ota.Frame.Check.{iap_https_check_for_update-SameFirmware}
use esp32_ota_https.Ota.Sound.{
  IsSound, check-IsSound, request_image-IsSound, iap_https_download_image-IsSound,
}
use esp32_ota_https.Ota.Schedule.{
  Phase, waiting, woken, downloading, downloaded, checking, checked, prepared, Station, Turn, task,
  check_now, timer_fires, check_bit, download_bit, armed, task_turn, turn, run_turns, started,
}
use esp32_ota_https.Iap.Boot.{FindsByLabel}
use esp32_ota_https.Iap.Spared.{iap_init-Spares}

module _ {Cert : Type 0} (p : Platform) (gives : MallocGives p) (known : BootKnown p)
    (finds : FindsByLabel p) (m : Mbedtls Cert) (mem : ℕ → Mallocs) where
  abbrev StationSound : Station Cert → Type 0
  StationSound s = IsSound p s.system.ota

  prepared-IsSound :
      (timers : TimerCalls) (o : Ota) → IsSound p o → IsSound p (iap_https_prepare_timer timers o)
  unfolding iap_https_prepare_timer
  prepared-IsSound timers o h = ground (arith, h)

  task_turn-IsSound :
      (at : Phase) (online : Bool) (timers : TimerCalls) (s : Station Cert)
      → StationSound s
      → Ensures StationSound (task_turn p m mem at online timers s)
  task_turn-IsSound waiting online timers s h =
      Ensures-if StationSound (check_bit s || download_bit s) _ _ h h
  task_turn-IsSound (woken c d) online timers s h = Ensures-if StationSound online _ _ h h
  task_turn-IsSound downloading online timers s h =
      Ensures->>= (λ system. IsSound p system.ota) StationSound
        (iap_https_download_image p m mem s.system) _
        (iap_https_download_image-IsSound p gives known finds m mem s.system h)
        (λ system kept. kept)
  task_turn-IsSound downloaded online timers s h = record {
    valid = h.valid;
    spares = h.spares;
    total_fits = h.total_fits;
  }
  task_turn-IsSound checking online timers s h =
      Ensures->>= (λ system. SameFirmware s.system.ota system.ota) StationSound
        (iap_https_check_for_update p m mem s.system) _
        (iap_https_check_for_update-SameFirmware p m mem s.system)
        (λ system same. check-IsSound p s.system.ota system.ota same h)
  task_turn-IsSound checked online timers s h = prepared-IsSound timers s.system.ota h
  task_turn-IsSound prepared online timers s h = record {
    valid = h.valid;
    spares = h.spares;
    total_fits = h.total_fits;
  }

  turn-IsSound :
      (t : Turn) (s : Station Cert) → StationSound s → Ensures StationSound (turn p m mem t s)
  unfolding turn iap_https_periodic_check_timer_callback iap_https_trigger_processing
  turn-IsSound (task online timers) s h = task_turn-IsSound s.phase online timers s h
  turn-IsSound check_now s h = ground (arith, h)
  turn-IsSound timer_fires s h =
      Ensures-if StationSound (armed s) _ _
        (record { valid = h.valid; spares = h.spares; total_fits = h.total_fits }) h

  run_turns-IsSound :
      (turns : List Turn) (s : Station Cert)
      → IsSound p s.system.ota
      → Ensures (λ s'. IsSound p s'.system.ota) (run_turns p m mem turns s)
  unfolding run_turns
  run_turns-IsSound [] s h = h
  run_turns-IsSound (t ∷ turns) s h =
      Ensures->>= StationSound StationSound (turn p m mem t s) _ (turn-IsSound t s h)
        (λ s' h'. run_turns-IsSound turns s' h')

  iap_https_init-IsSound :
      (n : Net) (allocations : List Bool) (group_created : Bool) (timers : TimerCalls)
      (metadata firmware : List ℕ) (config : Config) (o : Ota)
      → IsSound p o
      → Ensures
          (λ system. IsSound p system.ota)
          (iap_https_init p m mem n allocations group_created timers metadata firmware config o)
  unfolding iap_https_init
  iap_https_init-IsSound n allocations group_created timers metadata firmware config o h =
      let params : TlsInit = record {
        host_name = some config.server_host_name;
        port = some config.server_port;
        root_ca_public_key_pem = some config.server_root_ca_public_key_pem;
        peer_public_key_pem = some config.peer_public_key_pem;
      } in
      let created : Run (Option (Tls Cert)) = wifi_tls_create_context n allocations params in
      let o' = record o {
        config = config;
        iap = (iap_init o.iap).1;
        check_for_update_bit = false;
        download_image_bit = false;
      } in
      let sound : IsSound p o' = record {
        valid = iap_init-IsValid o.iap h.valid;
        spares = iap_init-Spares p o.iap h.spares;
        total_fits = h.total_fits;
      } in
      Ensures->>= (λ _. Unit {0}) (λ system. IsSound p system.ota) created _
        (Ensures-trivial created)
        (λ context _.
          Ensures-if (λ system. IsSound p system.ota) group_created _ _
            (prepared-IsSound timers o' sound) tt)

  -- From `iap_https_init` on, after every order of turns that returns, and at the end of a download
  -- that begins then, or where that restarts the device, whatever the server answers and whatever
  -- fails: `esp_ota_begin`, which erases a partition, was never called for one that was the
  -- boot partition then; the boot partition was changed only right after an `esp_ota_end` that
  -- succeeded; the page buffer is allocated only while a session is open, with the index inside it;
  -- an open session knows its partition; and the count of the bytes received is below 2 ^ 32. A block
  -- from `malloc` has the size asked for, the boot partition is known, a partition that is found has
  -- the label asked for, and all this holds of the state before.
  pub run_turns-iap_https_init :
      (n : Net) (allocations : List Bool) (group_created : Bool) (timers : TimerCalls)
      (metadata firmware : List ℕ) (config : Config) (o : Ota) (turns : List Turn)
      → IsSound p o
      → Ensures
          (λ s.
            IsSound p s.system.ota
            × Ensures (λ system. IsSound p system.ota) (request_image p m mem s.system))
          (iap_https_init p m mem n allocations group_created timers metadata firmware config o
            >>= λ system. run_turns p m mem turns (started system))
  run_turns-iap_https_init n allocations group_created timers metadata firmware config o turns h =
      let Downloads : Station Cert → Type 0 = λ s.
        IsSound p s.system.ota
        × Ensures (λ system. IsSound p system.ota) (request_image p m mem s.system) in
      Ensures->>= (λ system. IsSound p system.ota) Downloads
        (iap_https_init p m mem n allocations group_created timers metadata firmware config o) _
        (iap_https_init-IsSound n allocations group_created timers metadata firmware config o h)
        (λ system sound.
          Ensures-mono StationSound Downloads (run_turns p m mem turns (started system))
            (λ s kept. (kept, request_image-IsSound p gives known finds m mem s.system kept))
            (run_turns-IsSound turns (started system) sound))
