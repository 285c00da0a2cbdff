-- ===== src/Ota/Task.antt =====
-- The set-up and the task of main/iap_https.c: what is requested from the server, and when.
use esp32_ota_https.Prelude.{
  ltb, ◌==◌, if◌then◌else◌, ℤ, is_zero, Run, done, blocked, fault, ◌>>=◌, Ensures, Ensures->>=,
  Ensures-if, ℕ, ◌*◌, ◌%◌, ◌^◌, Bool, true, false, ◌&&◌, ◌||◌, not, Option, none, some, List, [],
  ◌∷◌,
}
use esp32_ota_https.Flash.{Platform}
use esp32_ota_https.Iap.{iap_init}
use esp32_ota_https.Http.{wait_for_complete_body, stream_body, http_get, HttpRequest}
use esp32_ota_https.Http.Request.{Mallocs, Sent, https_send_request}
use esp32_ota_https.Tls.{Mbedtls, Net, Tls, TlsInit, wifi_tls_create_context}
use esp32_ota_https.Tls.Connection.{wifi_tls_connect}
use esp32_ota_https.Ota.{
  Config, Ota, iap_https_metadata_body_callback, iap_https_error_callback,
  iap_https_firmware_body_callback,
}

-- The two response buffers, the counter of requests and the TLS context (none for NULL) stand
-- beside the module's own state.
pub record System (Cert : Type 0) : Type 0 where
  pub ota : Ota
  pub tls_context : Option (Tls Cert)
  pub request_nr : ℕ
  pub metadata_buffer : List ℕ
  pub firmware_buffer : List ℕ

abbrev pub metadata_buffer_len : ℕ
metadata_buffer_len = 512

abbrev pub firmware_buffer_len : ℕ
firmware_buffer_len = 4096

-- The text in an array of the configuration: the bytes before the first 0.
abbrev pub text_in : List ℕ → List ℕ
text_in [] = []
text_in (c ∷ text) = if c == 0 then [] else c ∷ text_in text

-- The pointer to a response buffer with these contents. `malloc` gives no empty block for these sizes:
-- the buffer that is not there, NULL, is the empty list.
abbrev pub buffer_at : List ℕ → Option (List ℕ)
buffer_at [] = none
buffer_at (c ∷ block) = some (c ∷ block)

-- `http_metadata_request`, whose buffer's contents stand in the system.
abbrev pub http_metadata_request : Config → List ℕ → HttpRequest Ota
http_metadata_request config buffer = record {
  verb = http_get;
  host = some config.server_host_name;
  path = some (text_in config.server_metadata_path);
  response_buffer = buffer_at buffer;
  response_buffer_len = metadata_buffer_len;
  error_callback = some iap_https_error_callback;
  response_mode = wait_for_complete_body;
  body_callback = some iap_https_metadata_body_callback;
}

-- `http_firmware_data_request`
abbrev pub http_firmware_data_request : Platform → Config → List ℕ → HttpRequest Ota
http_firmware_data_request p config buffer = record {
  verb = http_get;
  host = some config.server_host_name;
  path = some (text_in config.server_firmware_path);
  response_buffer = buffer_at buffer;
  response_buffer_len = firmware_buffer_len;
  error_callback = some iap_https_error_callback;
  response_mode = stream_body;
  body_callback = some (iap_https_firmware_body_callback p);
}

-- What the calls of FreeRTOS for the timer give: whether `xTimerCreate`, `xTimerChangePeriod`,
-- `xTimerReset` and `xTimerDelete` succeed, and `pdMS_TO_TICKS`.
pub record TimerCalls : Type 0 where
  pub created : Bool
  pub changed : Bool
  pub reset : Bool
  pub deleted : Bool
  pub ms_to_ticks : ℕ → ℕ

-- `iap_https_prepare_timer`. A new timer has a period of 1000 ticks and does not run;
-- `xTimerChangePeriod` and `xTimerReset` both start a timer that does not run. A failure of the
-- creation ends the function, and the others are not looked at or only logged.
unfoldable pub iap_https_prepare_timer : TimerCalls → Ota → Ota
iap_https_prepare_timer t o =
    let period = t.ms_to_ticks ((1000 * o.config.polling_interval_s) % 2 ^ 32) in
    let start = λ (old : ℕ). record o {
      check_for_updates_timer = some (if t.changed then period else old);
      timer_runs = o.timer_runs || t.changed || t.reset;
    } in
    let new_timer = if t.created then start 1000 else o in
    let stopped = record o {
      check_for_updates_timer = none;
      timer_runs = o.timer_runs && not t.deleted;
    } in
    if ltb 0 o.config.polling_interval_s
    then elim (o.check_for_updates_timer) [ none ↦ new_timer | some old ↦ start old ]
    else elim (o.check_for_updates_timer) [ none ↦ o | some old ↦ stopped ]

-- `iap_https_trigger_processing`, called by `iap_https_check_now`.
unfoldable pub iap_https_trigger_processing : Ota → Ota
iap_https_trigger_processing o =
    if o.check_for_update_bit then o else record o { check_for_update_bit = true }

-- `iap_https_periodic_check_timer_callback`
unfoldable pub iap_https_periodic_check_timer_callback : Ota → Ota
iap_https_periodic_check_timer_callback o = record o { check_for_update_bit = true }

-- `iap_https_update_in_progress` and `iap_https_new_firmware_installed`
unfoldable pub iap_https_update_in_progress : Ota → Bool
iap_https_update_in_progress o = o.has_iap_session

unfoldable pub iap_https_new_firmware_installed : Ota → Bool
iap_https_new_firmware_installed o = o.has_new_firmware

module _ {Cert : Type 0} where
  -- What an HTTP request leaves behind is put back into the system.
  abbrev pub after_metadata : System Cert → Sent Cert Ota → System Cert
  after_metadata s r = record s {
    ota = r.app;
    tls_context = r.tls;
    request_nr = r.request_nr;
    metadata_buffer = r.buffer;
  }

  abbrev pub after_firmware : System Cert → Sent Cert Ota → System Cert
  after_firmware s r = record s {
    ota = r.app;
    tls_context = r.tls;
    request_nr = r.request_nr;
    firmware_buffer = r.buffer;
  }

module _ {Cert : Type 0} (p : Platform) (m : Mbedtls Cert) (mem : ℕ → Mallocs) where
  -- `wifi_tls_connect`, which is undefined on NULL.
  unfoldable pub connect : Option (Tls Cert) → Run (ℤ × Tls Cert)
  connect none = fault
  connect (some c) = wifi_tls_connect m c

  unfoldable pub iap_https_check_for_update : System Cert → Run (System Cert)
  unfolding connect
  iap_https_check_for_update s = do
    (tls_result, c) ← connect s.tls_context
    let r = http_metadata_request s.ota.config s.metadata_buffer
    let request = do
      outcome ←
          https_send_request m (mem s.request_nr) s.request_nr (some c) (some r) s.metadata_buffer
            s.ota
      done (after_metadata s outcome)
    if is_zero tls_result then request else done (record s { tls_context = some c })

  -- The body of `iap_https_download_image`. Where that calls `esp_restart`, the state of the module is
  -- that of the call, and only the connection is closed behind it. The result of `wifi_tls_connect`
  -- is only logged.
  unfoldable pub request_image : System Cert → Run (System Cert)
  unfolding connect
  request_image s = do
    (_, c) ← connect s.tls_context
    let o = record (s.ota) { has_iap_session = false }
    let r = http_firmware_data_request p o.config s.firmware_buffer
    outcome ←
        https_send_request m (mem s.request_nr) s.request_nr (some c) (some r) s.firmware_buffer o
    done (after_firmware s outcome)

  -- `esp_restart` does not return, and so neither does the download that calls it.
  unfoldable pub iap_https_download_image : System Cert → Run (System Cert)
  iap_https_download_image s =
      request_image s >>= λ s'. if s'.ota.restarted then blocked else done s'

  -- What a request for an image keeps, a download that returns keeps.
  pub download-Ensures :
      (P : System Cert → Type 0) (s : System Cert)
      → Ensures P (request_image s)
      → Ensures P (iap_https_download_image s)
  unfolding iap_https_download_image
  download-Ensures P s h =
      Ensures->>= P P (request_image s) (λ s'. if s'.ota.restarted then blocked else done s') h
        (λ s' kept. Ensures-if P s'.ota.restarted blocked (done s') tt kept)

  -- One round of the loop of `iap_https_task`, once a bit is set and the network is connected; the
  -- bits are those that the wait has returned.
  unfoldable pub task_round : TimerCalls → Bool → Bool → System Cert → Run (System Cert)
  task_round timers check_bit download_bit s =
      let download = do
        s' ← iap_https_download_image s
        done (record s' { ota = record (s'.ota) { download_image_bit = false } })
      in let check = do
        s' ← iap_https_check_for_update s
        let o = iap_https_prepare_timer timers s'.ota
        done (record s' { ota = record o { check_for_update_bit = false } })
        in if download_bit then download else if check_bit then check else done s

  -- `iap_https_init`: the result of `wifi_tls_create_context` is kept without a test, and so are
  -- the two response buffers. `n` and `allocations` are what the new TLS context depends
  -- on. If `xEventGroupCreate` has returned NULL, the task that is started waits on it, which is
  -- undefined.
  unfoldable pub iap_https_init :
      Net → List Bool → Bool → TimerCalls → List ℕ → List ℕ → Config → Ota → Run (System Cert)
  iap_https_init n allocations group_created timers metadata firmware config o = do
    let params : TlsInit = record {
      host_name = some config.server_host_name;
      port = some config.server_port;
      root_ca_public_key_pem = some config.server_root_ca_public_key_pem;
      peer_public_key_pem = some config.peer_public_key_pem;
    }
    context ← wifi_tls_create_context n allocations params
    let o' = record o {
      config = config;
      iap = (iap_init o.iap).1;
      check_for_update_bit = false;
      download_image_bit = false;
    }
    let system : System Cert = record {
      ota = iap_https_prepare_timer timers o';
      tls_context = context;
      request_nr = 0;
      metadata_buffer = metadata;
      firmware_buffer = firmware;
    }
    if group_created then done system else fault
