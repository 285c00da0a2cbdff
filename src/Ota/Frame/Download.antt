-- ===== src/Ota/Frame/Download.antt =====
-- What a download of main/iap_https.c leaves alone.
use mathlib.Core.Option.{some-injective}
use esp32_ota_https.Prelude.{
  ltb, if◌then◌else◌, Bool-cases, Ensures, Ensures->>=, Ensures-trivial, Ensures-if, ℕ, ◌+◌, ◌%◌,
  ◌^◌, refl, inl, inr, Bool, true, false, ◌&&◌, ◌||◌, some, List,
}
use esp32_ota_https.Flash.{Platform}
use esp32_ota_https.Iap.{IapErr, Iap, iap_begin, iap_write, iap_commit, iap_abort}
use esp32_ota_https.Http.Request.{Mallocs, https_send_request}
use esp32_ota_https.Http.Frame.{CallbacksKeep}
use esp32_ota_https.Http.Kept.{https_send_request-Kept}
use esp32_ota_https.Tls.{Mbedtls}
use esp32_ota_https.Ota.{
  Config, Ota, is_ok, iap_https_error_callback, begin_again, start_session, write_fragment,
  finish_update, iap_https_firmware_body_callback,
}
use esp32_ota_https.Ota.Task.{
  System, http_firmware_data_request, connect, request_image, iap_https_download_image,
  download-Ensures,
}
use esp32_ota_https.Ota.Frame.{SameSchedule}

abbrev pub same_schedule : (o : Ota) → SameSchedule o o
same_schedule o = record {
  same_check = refl;
  same_download = refl;
  same_timer = refl;
  same_runs = refl;
  same_config = refl;
}

module _ (p : Platform) (o₀ : Ota) where
  abbrev Sch : {B : Type 0} → B × Ota → Type 0
  Sch out = SameSchedule o₀ out.1

  abbrev with_iap :
      (o : Ota) (s : Iap) (session new restarted : Bool) (total : ℕ)
      → SameSchedule o₀ o
      → SameSchedule o₀ (record o {
        iap = s;
        has_iap_session = session;
        has_new_firmware = new;
        restarted = restarted;
        total_nof_bytes_received = total;
      })
  with_iap o s session new restarted total h = record {
    same_check = h.same_check;
    same_download = h.same_download;
    same_timer = h.same_timer;
    same_runs = h.same_runs;
    same_config = h.same_config;
  }

  start_session-Sch : (o : Ota) → SameSchedule o₀ o → Ensures Sch (start_session p o)
  unfolding start_session
  start_session-Sch o h = Ensures-if Sch o.has_iap_session _ _ h (
      Ensures->>= (λ _. Unit {0}) Sch (iap_begin p o.iap) _ (Ensures-trivial (iap_begin p o.iap))
        (λ out _.
          Ensures->>= (λ _. Unit {0}) Sch (begin_again p out.0 out.1) _
            (Ensures-trivial (begin_again p out.0 out.1)) (λ out' _. go out')))
    where
      go :
          (out : IapErr × Iap)
          → let o' = record o { iap = out.1 } in
            let opened : Bool × Ota =
              if is_ok out.0
              then (true, record o' { total_nof_bytes_received = 0; has_iap_session = true })
              else (false, o') in
            SameSchedule o₀ opened.1
      go out = elim (Bool-cases (is_ok out.0)) [
        | inl good ↦ rw good (with_iap o out.1 true o.has_new_firmware o.restarted 0 h)
        | inr bad ↦ rw bad (
            with_iap o out.1 o.has_iap_session o.has_new_firmware o.restarted
              o.total_nof_bytes_received h)
      ]

  write_fragment-Sch :
      (buffer : List ℕ) (n : ℕ) (o : Ota)
      → SameSchedule o₀ o
      → Ensures Sch (write_fragment p buffer n o)
  unfolding write_fragment
  write_fragment-Sch buffer n o h =
      let wrote = iap_write p o.iap buffer (n % 2 ^ 16) in
      let total = (o.total_nof_bytes_received + n) % 2 ^ 32 in
      Ensures->>= (λ _. Unit {0}) Sch wrote _ (Ensures-trivial wrote)
        (λ out _.
          Ensures-if Sch (is_ok out.0) _ _
            (with_iap o out.1 o.has_iap_session o.has_new_firmware o.restarted total h)
            (Ensures->>= (λ _. Unit {0}) Sch (iap_abort p out.1) _
              (Ensures-trivial (iap_abort p out.1))
              (λ out' _.
                with_iap o out'.1 o.has_iap_session o.has_new_firmware o.restarted total h)))

  finish_update-Sch : (o : Ota) → SameSchedule o₀ o → Ensures Sch (finish_update p o)
  unfolding finish_update
  finish_update-Sch o h =
      let total = o.total_nof_bytes_received in
      Ensures-if Sch (ltb 0 total && ltb total (2 ^ 31)) _ _
        (Ensures->>= (λ _. Unit {0}) Sch (iap_commit p o.iap) _
          (Ensures-trivial (iap_commit p o.iap))
          (λ out _. with_iap o out.1 false true (o.restarted || o.config.auto_reboot) total h))
        (Ensures->>= (λ _. Unit {0}) Sch (iap_abort p o.iap) _ (Ensures-trivial (iap_abort p o.iap))
          (λ out _. with_iap o out.1 false o.has_new_firmware o.restarted total h))

  firmware_callback-Sch :
      (buffer : List ℕ) (n : ℕ) (o : Ota)
      → SameSchedule o₀ o
      → Ensures Sch (iap_https_firmware_body_callback p buffer n o)
  unfolding iap_https_firmware_body_callback
  firmware_callback-Sch buffer n o h =
      Ensures->>= Sch Sch (start_session p o) _ (start_session-Sch o h) (λ out kept.
        Ensures-if Sch out.0 _ _
          (Ensures-if Sch (ltb 0 n) _ _ (write_fragment-Sch buffer n out.1 kept)
            (finish_update-Sch out.1 kept))
          kept)

  firmware_request-CallbacksKeep :
      (config : Config) (buffer : List ℕ)
      → CallbacksKeep (SameSchedule o₀) (http_firmware_data_request p config buffer)
  unfolding iap_https_error_callback
  firmware_request-CallbacksKeep config buffer = record {
    errors = λ f e info a same h. rw (← some-injective iap_https_error_callback f same) h;
    bodies = λ f b n a same h.
        rw (← some-injective (iap_https_firmware_body_callback p) f same)
          (firmware_callback-Sch b n a h);
  }

module _ {Cert : Type 0} (p : Platform) (m : Mbedtls Cert) (mem : ℕ → Mallocs) where
  request_image-SameSchedule :
      (s : System Cert) → Ensures (λ s'. SameSchedule s.ota s'.ota) (request_image p m mem s)
  unfolding request_image
  request_image-SameSchedule s =
      let same =
        with_iap p s.ota s.ota s.ota.iap false s.ota.has_new_firmware s.ota.restarted
          s.ota.total_nof_bytes_received (same_schedule s.ota) in
      let r = http_firmware_data_request p s.ota.config s.firmware_buffer in
      let o = record (s.ota) { has_iap_session = false } in
      let opened = connect p m mem s.tls_context in
      Ensures->>= (λ _. Unit {0}) (λ s'. SameSchedule s.ota s'.ota) opened _
        (Ensures-trivial opened)
        (λ out _.
          Ensures->>= (λ sent_all. SameSchedule s.ota sent_all.app)
            (λ s'. SameSchedule s.ota s'.ota)
            (https_send_request m (mem s.request_nr) s.request_nr (some out.1) (some r)
              s.firmware_buffer o)
            _
            (https_send_request-Kept m (SameSchedule s.ota) r
              (firmware_request-CallbacksKeep p s.ota s.ota.config s.firmware_buffer)
              (mem s.request_nr) s.request_nr (some out.1) s.firmware_buffer o same)
            (λ last kept. kept))

  -- A download that returns, whatever the server sends and whatever fails, leaves the two event bits,
  -- the timer and the configuration as they are.
  pub iap_https_download_image-SameSchedule :
      (s : System Cert)
      → Ensures (λ s'. SameSchedule s.ota s'.ota) (iap_https_download_image p m mem s)
  iap_https_download_image-SameSchedule s =
      download-Ensures p m mem (λ s'. SameSchedule s.ota s'.ota) s (request_image-SameSchedule s)
