-- ===== src/Ota/Sound.antt =====
-- What main/iap_https.c keeps of the firmware, through each callback and each request.
use mathlib.Core.Option.{some-injective}
use mathlib.Core.Path.{subst}
use esp32_ota_https.Prelude.{
  ltb, if◌then◌else◌, Bool-cases, Run, Ensures, Ensures->>=, Returns→Ensures, Ensures-trivial,
  Ensures-if, Ensures-both, ℕ, ◌+◌, ◌%◌, ◌^◌, ◌<◌, sym, inl, inr, Bool, true, false, ◌&&◌, some,
  List, arith,
}
use esp32_ota_https.Flash.{Platform}
use esp32_ota_https.Iap.{IapErr, Iap, iap_begin, iap_write, iap_commit, iap_abort}
use esp32_ota_https.Iap.Validity.{
  IsValid, MallocGives, BootKnown, iap_commit-IsValid, iap_abort-IsValid, iap_write-IsValid,
}
use esp32_ota_https.Http.Request.{Mallocs, https_send_request}
use esp32_ota_https.Http.Frame.{CallbacksKeep}
use esp32_ota_https.Http.Kept.{https_send_request-Kept}
use esp32_ota_https.Tls.{Mbedtls}
use esp32_ota_https.Ota.{
  Config, Ota, is_ok, is_already_open, iap_https_error_callback, begin_again, start_session,
  write_fragment, finish_update, iap_https_firmware_body_callback,
}
use esp32_ota_https.Ota.Task.{
  System, http_firmware_data_request, connect, request_image, iap_https_download_image,
  download-Ensures,
}
use esp32_ota_https.Ota.Frame.{SameFirmware}
use esp32_ota_https.Iap.Spared.{
  SparesBoot, iap_write-Spares, iap_commit-Spares, iap_abort-Spares, iap_begin-Spares,
}
use esp32_ota_https.Iap.Boot.{FindsByLabel}
use esp32_ota_https.Iap.Validity.Begin.{iap_begin-IsValid}

-- The state of the IAP module is valid, the boot partition has never been erased, and the
-- count of the bytes received is that of an `int`.
pub record IsSound (p : Platform) (o : Ota) : Type 0 where
  pub valid : IsValid o.iap
  pub spares : SparesBoot p o.iap.log
  pub total_fits : o.total_nof_bytes_received < 2 ^ 32

pub check-IsSound : (p : Platform) (o o' : Ota) → SameFirmware o o' → IsSound p o → IsSound p o'
check-IsSound p o o' same h = record {
  valid = subst IsValid (sym (same.same_iap)) h.valid;
  spares = subst (λ s. SparesBoot p s.log) (sym (same.same_iap)) h.spares;
  total_fits = rw (same.same_total) h.total_fits;
}

module _ (p : Platform) (gives : MallocGives p) (known : BootKnown p) (finds : FindsByLabel p) where
  abbrev Sound : {B : Type 0} → B × Ota → Type 0
  Sound out = IsSound p out.1

  abbrev Guards : Iap → Type 0
  Guards s = IsValid s × SparesBoot p s.log

  abbrev Guarded : IapErr × Iap → Type 0
  Guarded out = Guards out.1

  -- A call of main/iap.c that keeps both.
  both :
      (m : Run (IapErr × Iap))
      → Ensures (λ out. IsValid out.1) m
      → Ensures (λ out. SparesBoot p out.1.log) m
      → Ensures Guarded m
  both m h k = Ensures-both (λ out. IsValid out.1) (λ out. SparesBoot p out.1.log) m h k

  aborted : (s : Iap) → Guards s → Ensures Guarded (iap_abort p s)
  aborted s (v, b) =
      both (iap_abort p s)
        (Returns→Ensures (λ out. IsValid out.1) (iap_abort p s) (iap_abort-IsValid p s v))
        (iap_abort-Spares p s b)

  committed : (s : Iap) → Guards s → Ensures Guarded (iap_commit p s)
  committed s (v, b) =
      both (iap_commit p s)
        (Returns→Ensures (λ out. IsValid out.1) (iap_commit p s) (iap_commit-IsValid p s v))
        (iap_commit-Spares p s b)

  begun : (s : Iap) → Guards s → Ensures Guarded (iap_begin p s)
  begun s (v, b) =
      both (iap_begin p s)
        (Returns→Ensures (λ out. IsValid out.1) (iap_begin p s)
          (iap_begin-IsValid p s gives known v))
        (iap_begin-Spares p s finds b)

  begin_again-Guarded : (r : IapErr) (s : Iap) → Guards s → Ensures Guarded (begin_again p r s)
  unfolding begin_again
  begin_again-Guarded r s v =
      Ensures-if Guarded (is_already_open r) _ _
        (Ensures->>= Guarded Guarded (iap_abort p s) _ (aborted s v) (λ out v'. begun out.1 v')) v

  start_session-Sound : (o : Ota) → IsSound p o → Ensures Sound (start_session p o)
  unfolding start_session
  start_session-Sound o h = Ensures-if Sound o.has_iap_session _ _ h (
      Ensures->>= Guarded Sound (iap_begin p o.iap) _ (begun o.iap (h.valid, h.spares)) (λ out v.
        Ensures->>= Guarded Sound (begin_again p out.0 out.1) _ (begin_again-Guarded out.0 out.1 v)
          go))
    where
      go :
          (out : IapErr × Iap)
          → Guards out.1
          → let o' = record o { iap = out.1 } in
            let opened : Bool × Ota =
              if is_ok out.0
              then (true, record o' { total_nof_bytes_received = 0; has_iap_session = true })
              else (false, o') in
            IsSound p opened.1
      go out v = elim (Bool-cases (is_ok out.0)) [
        | inl good ↦ rw good (record { valid = v.0; spares = v.1; total_fits = omega arith })
        | inr bad ↦ rw bad (record { valid = v.0; spares = v.1; total_fits = h.total_fits })
      ]

  write_fragment-Sound :
      (buffer : List ℕ) (n : ℕ) (o : Ota)
      → IsSound p o
      → Ensures Sound (write_fragment p buffer n o)
  unfolding write_fragment
  write_fragment-Sound buffer n o h =
      Ensures->>= Guarded Sound (iap_write p o.iap buffer (n % 2 ^ 16)) _
        (both (iap_write p o.iap buffer (n % 2 ^ 16))
          (iap_write-IsValid p o.iap buffer (n % 2 ^ 16) h.valid)
          (iap_write-Spares p o.iap buffer (n % 2 ^ 16) h.spares))
        (λ out v. Ensures-if Sound (is_ok out.0) _ _ (counted out.1 v) (
          Ensures->>= Guarded Sound (iap_abort p out.1) _ (aborted out.1 v)
            (λ out' v'. counted out'.1 v')))
    where
      counted :
          (s : Iap)
          → Guards s
          → IsSound p (record o {
            iap = s;
            total_nof_bytes_received = (o.total_nof_bytes_received + n) % 2 ^ 32;
          })
      counted s v = record { valid = v.0; spares = v.1; total_fits = omega arith }

  finish_update-Sound : (o : Ota) → IsSound p o → Ensures Sound (finish_update p o)
  unfolding finish_update
  finish_update-Sound o h =
      let total = o.total_nof_bytes_received in
      Ensures-if Sound (ltb 0 total && ltb total (2 ^ 31)) _ _
        (Ensures->>= Guarded Sound (iap_commit p o.iap) _ (committed o.iap (h.valid, h.spares))
          (λ out v. record { valid = v.0; spares = v.1; total_fits = h.total_fits }))
        (Ensures->>= Guarded Sound (iap_abort p o.iap) _ (aborted o.iap (h.valid, h.spares))
          (λ out v. record { valid = v.0; spares = v.1; total_fits = h.total_fits }))

  firmware_callback-Sound :
      (buffer : List ℕ) (n : ℕ) (o : Ota)
      → IsSound p o
      → Ensures Sound (iap_https_firmware_body_callback p buffer n o)
  unfolding iap_https_firmware_body_callback
  firmware_callback-Sound buffer n o h =
      Ensures->>= Sound Sound (start_session p o) _ (start_session-Sound o h) (λ out kept.
        Ensures-if Sound out.0 _ _
          (Ensures-if Sound (ltb 0 n) _ _ (write_fragment-Sound buffer n out.1 kept)
            (finish_update-Sound out.1 kept))
          kept)

  firmware_request-IsSound :
      (config : Config) (buffer : List ℕ)
      → CallbacksKeep (IsSound p) (http_firmware_data_request p config buffer)
  unfolding iap_https_error_callback
  firmware_request-IsSound config buffer = record {
    errors = λ f e info a same h. rw (← some-injective iap_https_error_callback f same) h;
    bodies = λ f b n a same h.
        rw (← some-injective (iap_https_firmware_body_callback p) f same)
          (firmware_callback-Sound b n a h);
  }

  module _ {Cert : Type 0} (m : Mbedtls Cert) (mem : ℕ → Mallocs) where
    abbrev SystemSound : System Cert → Type 0
    SystemSound s = IsSound p s.ota

    pub request_image-IsSound :
        (s : System Cert)
        → IsSound p s.ota
        → Ensures (λ s'. IsSound p s'.ota) (request_image p m mem s)
    unfolding request_image
    request_image-IsSound s h =
        let r = http_firmware_data_request p s.ota.config s.firmware_buffer in
        let o = record (s.ota) { has_iap_session = false } in
        let sound : IsSound p o = record {
          valid = h.valid;
          spares = h.spares;
          total_fits = h.total_fits;
        } in
        let opened = connect p m mem s.tls_context in
        Ensures->>= (λ _. Unit {0}) SystemSound opened _ (Ensures-trivial opened)
          (λ out _.
            Ensures->>= (λ sent_all. IsSound p sent_all.app) SystemSound
              (https_send_request m (mem s.request_nr) s.request_nr (some out.1) (some r)
                s.firmware_buffer o)
              _
              (https_send_request-Kept m (IsSound p) r
                (firmware_request-IsSound s.ota.config s.firmware_buffer) (mem s.request_nr)
                s.request_nr (some out.1) s.firmware_buffer o sound)
              (λ last kept. kept))

    pub iap_https_download_image-IsSound :
        (s : System Cert)
        → IsSound p s.ota
        → Ensures (λ s'. IsSound p s'.ota) (iap_https_download_image p m mem s)
    iap_https_download_image-IsSound s h =
        download-Ensures p m mem SystemSound s (request_image-IsSound s h)
