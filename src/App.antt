-- ===== src/App.antt =====
-- main/main.c: how the application sets up the updates.
mod Tests
use mathlib.Core.Path.{subst}
use esp32_ota_https.Prelude.{
  if◌then◌else◌, pos, replicate, Run, done, fault, ◌>>=◌, Returns, ℕ, ◌*◌, ◌%◌, ◌^◌, ◌≡◌, refl, sym,
  ap, ◌∙◌, ◌≢◌, ◌⊎◌, inl, inr, Bool, true, false, Option, none, some, List, [], ◌∷◌, ◌++◌, arith,
}
use esp32_ota_https.CText.{codes, skip_space, read_digits, read_sign, to_int, atoi, strncpy}
use esp32_ota_https.Flash.{Platform}
use esp32_ota_https.Iap.{Iap, iap_init}
use esp32_ota_https.Http.Request.{Mallocs}
use esp32_ota_https.Tls.{
  Mbedtls, Net, Tls, all_true, new_context, create_context_for, wifi_tls_create_context,
}
use esp32_ota_https.Ota.{Config, Ota, path_size}
use esp32_ota_https.Ota.Task.{
  System, text_in, http_metadata_request, TimerCalls, iap_https_prepare_timer,
  iap_https_trigger_processing, connect, iap_https_check_for_update, iap_https_init,
}
use esp32_ota_https.Ota.Timer.{TimersWork, TimerPrepared, iap_https_prepare_timer-TimerPrepared}
use esp32_ota_https.Http.{success, invalid_args, https_validate_request}

-- `ota_config`, as `init_ota` fills it. The two texts with the certificates of main/main.h are
-- arguments.
unfoldable pub ota_config : List ℕ → List ℕ → Run Config
ota_config root_ca_pem peer_pem = do
  metadata_path ← strncpy (codes "/esp32/ota.txt" ++ 0 ∷ []) path_size
  done (record {
    current_software_version = pos 1;
    server_host_name = codes "www.classycode.io";
    server_port = codes "443";
    server_root_ca_public_key_pem = root_ca_pem;
    peer_public_key_pem = peer_pem;
    server_metadata_path = metadata_path;
    server_firmware_path = replicate path_size 0;
    polling_interval_s = 5;
    auto_reboot = true;
  })

module _ {Cert : Type 0} (p : Platform) (m : Mbedtls Cert) (mem : ℕ → Mallocs) where
  -- `init_ota`; the arguments behind the certificates are those of `iap_https_init`.
  unfoldable pub init_ota :
      List ℕ
      → List ℕ
      → Net
      → List Bool
      → Bool
      → TimerCalls
      → List ℕ
      → List ℕ
      → Ota
      → Run (System Cert)
  unfolding ota_config
  init_ota root_ca_pem peer_pem n allocations group_created timers metadata firmware o = do
    config ← ota_config root_ca_pem peer_pem
    system ← iap_https_init p m mem n allocations group_created timers metadata firmware config o
    done (record system { ota = iap_https_trigger_processing system.ota })

  -- What the set-up leaves behind.
  pub record SetUp (timers : TimerCalls) (root_ca_pem peer_pem : List ℕ) (allocated : Bool)
      (s : System Cert) : Type 0 where
    -- a check is due at once, and the next one in five seconds
    pub asked : s.ota.check_for_update_bit ≡ true
    pub not_due : s.ota.download_image_bit ≡ false
    pub timer : s.ota.check_for_updates_timer ≡ some (timers.ms_to_ticks 5000)
    pub runs : s.ota.timer_runs ≡ true
    -- what is asked for
    pub metadata_path : text_in s.ota.config.server_metadata_path ≡ codes "/esp32/ota.txt"
    pub asks :
        (http_metadata_request s.ota.config s.metadata_buffer).path ≡ some (codes "/esp32/ota.txt")
    pub accepted :
        (https_validate_request (some (http_metadata_request s.ota.config s.metadata_buffer))
            ≡ success)
          × (s.metadata_buffer ≢ [])
        ⊎ (https_validate_request (some (http_metadata_request s.ota.config s.metadata_buffer))
            ≡ invalid_args)
          × (s.metadata_buffer ≡ [])
    pub no_firmware_path : text_in s.ota.config.server_firmware_path ≡ []
    pub is_initialized : s.ota.iap.initialized ≡ true
    -- whom to ask
    pub connects_to :
        (allocated ≡ true)
          × ((c : Tls Cert) × (s.tls_context ≡ some c)
              × (c.server_host_name ≡ codes "www.classycode.io")
              × (c.server_port ≡ 443)
              × (c.server_root_ca_public_key_pem ≡ root_ca_pem)
              × (c.peer_public_key_pem ≡ peer_pem))
        ⊎ (allocated ≡ false)
          × (s.tls_context ≡ none)
          × (iap_https_check_for_update p m mem s ≡ fault)

  port_443 : atoi (codes "443" ++ 0 ∷ []) ≡ done (pos 443)
  unfolding atoi skip_space read_sign read_digits to_int
  port_443 = refl

  iap_init-initialized : (s : Iap) → (iap_init s).1.initialized ≡ true
  unfolding iap_init
  iap_init-initialized s = ground arith

  -- The timer is started with five seconds.
  abbrev timed : TimerCalls → Ota → Ota
  timed timers o = record o {
    check_for_updates_timer = some (timers.ms_to_ticks 5000);
    timer_runs = true;
  }

  prepared_timer :
      (timers : TimerCalls) (o : Ota)
      → TimersWork timers
      → o.config.polling_interval_s ≡ 5
      → iap_https_prepare_timer timers o ≡ timed timers o
  prepared_timer timers o works five =
      go (iap_https_prepare_timer timers o) refl
        (iap_https_prepare_timer-TimerPrepared timers o works)
    where
      go :
          (o' : Ota)
          → iap_https_prepare_timer timers o ≡ o'
          → TimerPrepared timers o o'
          → o' ≡ timed timers o
      go o' e (set, same) =
          let five' : o'.config.polling_interval_s ≡ 5 =
            ap (λ x. x.config.polling_interval_s) same ∙ five in
          let ticks = ap (λ i. some (timers.ms_to_ticks ((1000 * i) % 2 ^ 32))) five' in
          elim set [
            | inl no_timer ↦ absurd (omega (arith, five', no_timer.0))
            | inr started ↦
                same
                ∙ ap (λ t. record o { check_for_updates_timer = t; timer_runs = o'.timer_runs })
                    (started.1 ∙ ticks)
                ∙ ap (λ b. record (timed timers o) { timer_runs = b }) started.2
          ]

  -- The request for the metadata is accepted if its buffer is there.
  accepted_by :
      (config : Config) (buffer : List ℕ)
      → let result = https_validate_request (some (http_metadata_request config buffer)) in
        text_in config.server_metadata_path ≡ codes "/esp32/ota.txt"
        → (result ≡ success) × (buffer ≢ []) ⊎ (result ≡ invalid_args) × (buffer ≡ [])
  unfolding https_validate_request
  accepted_by config [] e = rw e (inr (refl, refl))
  accepted_by config (c ∷ buffer) e = rw e (inl (refl, λ h. cc))

  -- The configuration that `ota_config` gives.
  abbrev settings : List ℕ → List ℕ → Config
  settings root_ca_pem peer_pem = record {
    current_software_version = pos 1;
    server_host_name = codes "www.classycode.io";
    server_port = codes "443";
    server_root_ca_public_key_pem = root_ca_pem;
    peer_public_key_pem = peer_pem;
    server_metadata_path = codes "/esp32/ota.txt" ++ replicate 242 0;
    server_firmware_path = replicate path_size 0;
    polling_interval_s = 5;
    auto_reboot = true;
  }

  -- `init_ota`, with an event group and with calls for the timer that succeed: a check is due at once,
  -- by a request for the path of the metadata, which is valid exactly if its buffer has been
  -- allocated, and the timer runs. If the TLS context and its parts are allocated, it has the server
  -- and the port of the configuration, with its two certificates; otherwise the TLS context is
  -- NULL, which is not tested, and the check that has been asked for is undefined.
  pub init_ota-SetUp :
      (timers : TimerCalls) (root_ca_pem peer_pem : List ℕ) (n : Net) (allocations : List Bool)
      (metadata firmware : List ℕ) (o : Ota)
      → TimersWork timers
      → Returns
          (SetUp timers root_ca_pem peer_pem (all_true allocations))
          (init_ota root_ca_pem peer_pem n allocations true timers metadata firmware o)
  unfolding init_ota ota_config iap_https_init wifi_tls_create_context create_context_for
      iap_https_trigger_processing strncpy connect iap_https_check_for_update
  init_ota-SetUp timers root_ca_pem peer_pem n allocations metadata firmware o works =
      rw (port_443) (go (all_true allocations))
    where
      o' : Ota
      o' = record o {
        config = settings root_ca_pem peer_pem;
        check_for_update_bit = false;
        download_image_bit = false;
        iap = (iap_init o.iap).1;
      }

      set_up : Option (Tls Cert) → Ota → System Cert
      set_up context o″ = record {
        ota = iap_https_trigger_processing o″;
        tls_context = context;
        request_nr = 0;
        metadata_buffer = metadata;
        firmware_buffer = firmware;
      }

      context : Tls Cert
      context = new_context n (codes "www.classycode.io") root_ca_pem peer_pem 443

      go :
          (allocated : Bool)
          → SetUp timers root_ca_pem peer_pem allocated (
              set_up (if allocated then some context else none) (iap_https_prepare_timer timers o'))
      go true =
          subst (λ t. SetUp timers root_ca_pem peer_pem true (set_up (some context) t))
            (sym (prepared_timer timers o' works refl))
            (record {
              asked = refl;
              not_due = refl;
              timer = refl;
              runs = refl;
              asks = refl;
              accepted = accepted_by (settings root_ca_pem peer_pem) metadata refl;
              metadata_path = refl;
              no_firmware_path = refl;
              is_initialized = iap_init-initialized o.iap;
              connects_to = inl (refl, (context, refl, refl, refl, refl, refl));
            })
      go false =
          subst (λ t. SetUp timers root_ca_pem peer_pem false (set_up none t))
            (sym (prepared_timer timers o' works refl))
            (record {
              asked = refl;
              not_due = refl;
              timer = refl;
              runs = refl;
              asks = refl;
              accepted = accepted_by (settings root_ca_pem peer_pem) metadata refl;
              metadata_path = refl;
              no_firmware_path = refl;
              is_initialized = iap_init-initialized o.iap;
              connects_to = inr (refl, refl, refl);
            })
