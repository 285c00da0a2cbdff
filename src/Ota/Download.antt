-- ===== src/Ota/Download.antt =====
-- The callback for the firmware image of main/iap_https.c as the consumer of a response body: what
-- main/wifi_tls.c reads from the network ends up in the flash.
use esp32_ota_https.Prelude.{
  ltb, if◌then◌else◌, ℤ, pos, length, take, length-append, length-take, Run, done, Returns,
  Returns->>=, Returns-mono, ℕ, ◌+◌, ◌^◌, ◌≤◌, ◌<◌, ◌≡◌, refl, ap, ◌∙◌, ◌⊎◌, inl, inr, Bool, true,
  false, List, [], ◌++◌, arith,
}
use esp32_ota_https.Flash.{Partition, Platform}
use esp32_ota_https.Iap.Image.{image}
use esp32_ota_https.Iap.Validity.{MallocGives, BootKnown}
use esp32_ota_https.Iap.Session.{Activates}
use esp32_ota_https.Http.{ContinueReceiving, continue_receiving, stop_receiving, Exchange}
use esp32_ota_https.Http.Stream.{Consumer}
use esp32_ota_https.Ota.{
  Ota, start_session, write_fragment, finish_update, iap_https_firmware_body_callback,
}
use esp32_ota_https.Ota.Task.{firmware_buffer_len, iap_https_update_in_progress}
use esp32_ota_https.Ota.Update.{
  Updating, WritesSucceed, FragmentDone, write_fragment-done, firmware_fragment-done,
}
use esp32_ota_https.Ota.Install.{not-AbortedWrite, Installed, Installed-at_end}
use esp32_ota_https.Ota.Start.{Idle, Started, start_session-Started}
use esp32_ota_https.Tls.{Tls}

-- The flash works: blocks are as large as asked for, the boot partition is known, and no write and
-- no activation fails.
pub record Works (p : Platform) : Type 0 where
  pub gives : MallocGives p
  pub known : BootKnown p
  pub writes : WritesSucceed p
  pub activates : Activates p

-- The callback has got `got`: nothing yet, or it has put it all into the image.
abbrev pub Receiving : List ℕ → Ota → Type 0
Receiving got o =
    Idle o × (got ≡ [])
    ⊎ ((target : Partition) × Updating target o
        × (image o.iap ≡ got)
        × (o.total_nof_bytes_received ≡ length got))

-- No session could be opened.
abbrev pub NotStarted : Ota → Type 0
NotStarted o = (o.iap.session_open ≡ false) × (iap_https_update_in_progress o ≡ false)

module _ (p : Platform) (works : Works p) where
  -- What a fragment does.
  abbrev pub Consumed : List ℕ → ContinueReceiving × Ota → Type 0
  Consumed got out =
      (out.0 ≡ continue_receiving) × Receiving got out.1
      ⊎ (out.0 ≡ stop_receiving) × NotStarted out.1

  fragment-Consumed :
      (target : Partition) (buffer got : List ℕ) (n : ℕ) (o : Ota)
      → image o.iap ≡ got
      → o.total_nof_bytes_received ≡ length got
      → n ≤ length buffer
      → length got + n < 2 ^ 31
      → (out : ContinueReceiving × Ota) → FragmentDone p target o (take n buffer) n out
      → Consumed (got ++ take n buffer) out
  fragment-Consumed target buffer got n o same total has small out (inl next) =
      let total' : out.1.total_nof_bytes_received ≡ length (got ++ take n buffer) =
        next.3 ∙ omega (arith, total, length-append got (take n buffer), length-take n buffer) in
      inl (next.0, inr (target, next.1, next.2 ∙ ap (λ bytes. bytes ++ take n buffer) same, total'))
  fragment-Consumed target buffer got n o same total has small out (inr over) =
      absurd (not-AbortedWrite p target out.1.iap.log works.writes (over.4))

  first-Consumed :
      (buffer : List ℕ) (n : ℕ) (o : Ota)
      → Idle o
      → 0 < n
      → n < 2 ^ 16
      → n ≤ length buffer
      → Returns (Consumed (take n buffer)) (iap_https_firmware_body_callback p buffer n o)
  unfolding iap_https_firmware_body_callback iap_https_update_in_progress
  first-Consumed buffer n o idle some_bytes small has =
      Returns->>= Started (Consumed (take n buffer)) (start_session p o) _
        (start_session-Started p o works.gives works.known idle) go
    where
      go :
          (out : Bool × Ota)
          → Started out
          → Returns (Consumed (take n buffer)) (
              let fragment = write_fragment p buffer n out.1 in
              let last = finish_update p out.1 in
              let refused : Run (ContinueReceiving × Ota) = done (stop_receiving, out.1) in
              if out.0 then if ltb 0 n then fragment else last else refused)
      go out (inl (started, (target, u, empty, none_yet))) =
          let positive : ltb 0 n ≡ true = ground arith in
          rw (started, positive)
            (Returns-mono (FragmentDone p target out.1 (take n buffer) n) (Consumed (take n buffer))
              (write_fragment p buffer n out.1)
              (fragment-Consumed target buffer [] n out.1 empty none_yet has (omega arith))
              (write_fragment-done p target buffer n out.1 u small has))
      go out (inr (refused, closed, idle_still)) = rw refused (inr (refl, (closed, idle_still)))

  -- The image is in the flash, and some partition with it is activated.
  abbrev pub InstalledAny : List ℕ → Ota → Type 0
  InstalledAny bytes o = (target : Partition) × Installed p target bytes (stop_receiving, o)

  pub Receiving-Consumed :
      (size : ℕ) (buffer got : List ℕ) (n : ℕ) (o : Ota)
      → size < 2 ^ 31
      → Receiving got o
      → 0 < n
      → n ≤ firmware_buffer_len
      → n ≤ length buffer
      → length got + n ≤ size
      → Returns (Consumed (got ++ take n buffer)) (iap_https_firmware_body_callback p buffer n o)
  Receiving-Consumed size buffer got n o small (inl (idle, none_yet)) some_bytes fits has within =
      rw none_yet (first-Consumed buffer n o idle some_bytes (omega arith) has)
  Receiving-Consumed size buffer got n o small (inr (target, u, same, total)) some_bytes fits has
        within =
      Returns-mono (FragmentDone p target o (take n buffer) n) (Consumed (got ++ take n buffer))
        (iap_https_firmware_body_callback p buffer n o)
        (fragment-Consumed target buffer got n o same total has (omega arith))
        (firmware_fragment-done p target buffer n o u some_bytes (omega arith) has)

  pub received-InstalledAny :
      (size : ℕ) (buffer got : List ℕ) (o : Ota)
      → 0 < size
      → size < 2 ^ 31
      → Receiving got o
      → length got ≡ size
      → Returns (λ out. InstalledAny got out.1) (iap_https_firmware_body_callback p buffer 0 o)
  received-InstalledAny size buffer got o some_bytes small (inl (idle, none_yet)) whole =
      let empty : length got ≡ 0 = rw none_yet refl in absurd (omega (arith, empty))
  received-InstalledAny size buffer got o some_bytes small (inr (target, u, same, total)) whole =
      Returns-mono (Installed p target (image o.iap)) (λ out. InstalledAny got out.1)
        (iap_https_firmware_body_callback p buffer 0 o)
        (λ out h. (target, (refl, h.1 ∙ same, h.2, h.3, h.4, h.5)))
        (Installed-at_end p target buffer o u works.writes works.activates (omega (arith, total))
          (omega (arith, total)))

  -- The callback for the firmware image is a consumer: every fragment goes to the image, and the end
  -- installs it.
  abbrev pub firmware_consumer :
      (size : ℕ)
      → 0 < size
      → size < 2 ^ 31
      → Consumer (iap_https_firmware_body_callback p) firmware_buffer_len size
  firmware_consumer size some_bytes small = record {
    Inv = Receiving;
    Stopped = NotStarted;
    Final = InstalledAny;
    step = λ buffer got n o inv positive fits has within.
        Receiving-Consumed size buffer got n o small inv positive fits has within;
    finish = λ buffer got o inv whole.
        received-InstalledAny size buffer got o some_bytes small inv whole;
  }

  -- What the download leaves behind: the response is over and the connection is closed, and the
  -- image is installed or the update was not started.
  abbrev pub ImageDownloaded : {Cert : Type 0} → List ℕ → ℤ × Tls Cert × Exchange Ota → Type 0
  ImageDownloaded bytes out =
      (out.0 ≡ pos 0)
      × (out.1.is_valid ≡ false)
      × (NotStarted out.2.app ⊎ InstalledAny bytes out.2.app)
