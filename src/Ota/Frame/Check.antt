-- ===== src/Ota/Frame/Check.antt =====
-- What a check for an update of main/iap_https.c leaves alone.
use mathlib.Core.Option.{some-injective}
use esp32_ota_https.Prelude.{
  ◌==◌, Bool-cases, ℤ, is_zero, ◌==ℤ◌, to_u32, done, Ensures, Ensures->>=, Ensures-trivial,
  Ensures-if, Ensures-found, ℕ, refl, inl, inr, true, Option, none, some, List,
}
use esp32_ota_https.CText.{codes, strncpy}
use esp32_ota_https.Flash.{Platform}
use esp32_ota_https.Http.{http_parse_key_value_int, http_parse_key_value_string}
use esp32_ota_https.Http.Request.{Mallocs, https_send_request}
use esp32_ota_https.Http.Frame.{CallbacksKeep}
use esp32_ota_https.Http.Kept.{https_send_request-Kept}
use esp32_ota_https.Tls.{Mbedtls}
use esp32_ota_https.Ota.{
  Config, Ota, path_size, set_interval, compare_version, process_version,
  iap_https_metadata_body_callback, iap_https_error_callback,
}
use esp32_ota_https.Ota.Task.{System, http_metadata_request, connect, iap_https_check_for_update}
use esp32_ota_https.Ota.Frame.{SameFirmware}

abbrev same_firmware : (o : Ota) → SameFirmware o o
same_firmware o = record {
  same_check = refl;
  same_timer = refl;
  same_runs = refl;
  same_session = refl;
  same_new = refl;
  same_iap = refl;
  same_total = refl;
  same_restarted = refl;
  download = inl refl;
}

module _ (o₀ : Ota) where
  with_config :
      (o : Ota) (config : Config)
      → SameFirmware o₀ o
      → SameFirmware o₀ (record o { config = config })
  with_config o config h = record {
    same_check = h.same_check;
    same_timer = h.same_timer;
    same_runs = h.same_runs;
    same_session = h.same_session;
    same_new = h.same_new;
    same_iap = h.same_iap;
    same_total = h.same_total;
    same_restarted = h.same_restarted;
    download = h.download;
  }

  set_interval-SameFirmware :
      (interval : Option ℤ) (o : Ota)
      → SameFirmware o₀ o
      → SameFirmware o₀ (set_interval interval o)
  set_interval-SameFirmware none o h = h
  set_interval-SameFirmware (some v) o h =
      elim (Bool-cases (to_u32 v == o.config.polling_interval_s)) [
        | inl same ↦ rw same h
        | inr other ↦
            rw other (with_config o (record (o.config) { polling_interval_s = to_u32 v }) h)
      ]

  due : (o : Ota) → SameFirmware o₀ o → SameFirmware o₀ (record o { download_image_bit = true })
  due o h = record {
    same_check = h.same_check;
    same_timer = h.same_timer;
    same_runs = h.same_runs;
    same_session = h.same_session;
    same_new = h.same_new;
    same_iap = h.same_iap;
    same_total = h.same_total;
    same_restarted = h.same_restarted;
    download = inr refl;
  }

  compare_version-SameFirmware :
      (version : ℤ) (file_name : List ℕ) (o : Ota)
      → SameFirmware o₀ o
      → Ensures (SameFirmware o₀) (compare_version version file_name o)
  unfolding compare_version
  compare_version-SameFirmware version file_name o h =
      Ensures->>= (λ _. Unit {0}) (SameFirmware o₀) (strncpy file_name path_size) _
        (Ensures-trivial (strncpy file_name path_size))
        (λ path _.
          let o' = record o { config = record (o.config) { server_firmware_path = path } } in
          let h' = with_config o (record (o.config) { server_firmware_path = path }) h in
          elim (Bool-cases (version ==ℤ o.config.current_software_version)) [
            | inl same ↦ rw same h'
            | inr other ↦ rw other (due o' h')
          ])

  process_version-SameFirmware :
      (buffer : List ℕ) (version : ℤ) (o : Ota)
      → SameFirmware o₀ o
      → Ensures (SameFirmware o₀) (process_version buffer version o)
  unfolding process_version
  process_version-SameFirmware buffer version o h =
      Ensures-found (SameFirmware o₀) (http_parse_key_value_string buffer (codes "FILE=") path_size)
        _ _ h (λ file_name. compare_version-SameFirmware version file_name o h)

  metadata_callback-SameFirmware :
      (buffer : List ℕ) (n : ℕ) (o : Ota)
      → SameFirmware o₀ o
      → Ensures (λ out. SameFirmware o₀ out.1) (iap_https_metadata_body_callback buffer n o)
  unfolding iap_https_metadata_body_callback
  metadata_callback-SameFirmware buffer n o h =
      let interval = http_parse_key_value_int buffer (codes "INTERVAL=") in
      let version = http_parse_key_value_int buffer (codes "VERSION=") in
      Ensures->>= (λ _. Unit {0}) _ interval _ (Ensures-trivial interval)
        (λ i _.
          let h' = set_interval-SameFirmware i o h in
          Ensures->>= (λ _. Unit {0}) _ version _ (Ensures-trivial version)
            (λ v _.
              Ensures->>= (SameFirmware o₀) _ _ _ (versioned v (set_interval i o) h')
                (λ o' kept. kept)))
    where
      versioned :
          (v : Option ℤ) (o' : Ota)
          → SameFirmware o₀ o'
          → Ensures
              (SameFirmware o₀)
              (elim v [ none ↦ done o' | some k ↦ process_version buffer k o' ])
      versioned none o' h' = h'
      versioned (some k) o' h' = process_version-SameFirmware buffer k o' h'

  metadata_request-CallbacksKeep :
      (config : Config) (buffer : List ℕ)
      → CallbacksKeep (SameFirmware o₀) (http_metadata_request config buffer)
  unfolding iap_https_error_callback
  metadata_request-CallbacksKeep config buffer = record {
    errors = λ f e info a same h. rw (← some-injective iap_https_error_callback f same) h;
    bodies = λ f b n a same h.
        rw (← some-injective iap_https_metadata_body_callback f same)
          (metadata_callback-SameFirmware b n a h);
  }

module _ {Cert : Type 0} (p : Platform) (m : Mbedtls Cert) (mem : ℕ → Mallocs) where
  -- A check for an update that returns, whatever the server sends and whatever fails, leaves the IAP
  -- module, the flags for a session, for a new firmware and for a restart, the count of the bytes
  -- received, the timer and its own event bit as they
  -- are, and does not take back a download that is due.
  pub iap_https_check_for_update-SameFirmware :
      (s : System Cert)
      → Ensures (λ s'. SameFirmware s.ota s'.ota) (iap_https_check_for_update p m mem s)
  unfolding iap_https_check_for_update
  iap_https_check_for_update-SameFirmware s =
      let r = http_metadata_request s.ota.config s.metadata_buffer in
      let opened = connect p m mem s.tls_context in
      let Same : System Cert → Type 0 = λ s'. SameFirmware s.ota s'.ota in
      Ensures->>= (λ _. Unit {0}) Same opened _ (Ensures-trivial opened)
        (λ out _.
          Ensures-if Same (is_zero out.0) _ _
            (Ensures->>= (λ sent_all. SameFirmware s.ota sent_all.app) Same
              (https_send_request m (mem s.request_nr) s.request_nr (some out.1) (some r)
                s.metadata_buffer s.ota)
              _
              (https_send_request-Kept m (SameFirmware s.ota) r
                (metadata_request-CallbacksKeep s.ota s.ota.config s.metadata_buffer)
                (mem s.request_nr) s.request_nr (some out.1) s.metadata_buffer s.ota
                (same_firmware s.ota))
              (λ last kept. kept))
            (same_firmware s.ota))
