-- ===== src/Ota.antt =====
-- main/iap_https.c and main/iap_https.h: the module that coordinates firmware updates. Here: its
-- state and the two callbacks that get the bodies of the responses.
--
-- The static variables of the module are the fields of `Ota`; the state of main/iap.c, which only
-- this module uses, is one of them.
pub mod Task
pub mod Timer
pub mod Metadata
pub mod Install
pub mod Update
pub mod Start
pub mod Download
pub mod Frame
pub mod Round
pub mod Check
pub mod Schedule
pub mod Secured
pub mod Sound
pub mod Sample
mod Tests
mod RoundTests
mod CheckTests
use esp32_ota_https.Prelude.{
  ltb, ◌==◌, if◌then◌else◌, ℤ, ◌==ℤ◌, to_u32, Run, done, ◌>>=◌, ℕ, ◌+◌, ◌%◌, ◌^◌, Bool, true, false,
  ◌&&◌, ◌||◌, Option, none, some, List,
}
use esp32_ota_https.CText.{codes, strncpy}
use esp32_ota_https.Flash.{Platform}
use esp32_ota_https.Iap.{
  IapErr, ok, session_already_open, Iap, iap_begin, iap_write, iap_commit, iap_abort,
}
use esp32_ota_https.Http.{
  HttpErr, ContinueReceiving, continue_receiving, stop_receiving, http_parse_key_value_int,
  http_parse_key_value_string,
}

-- `iap_https_config_t`
pub record Config : Type 0 where
  pub current_software_version : ℤ
  pub server_host_name : List ℕ
  pub server_port : List ℕ
  pub server_root_ca_public_key_pem : List ℕ
  pub peer_public_key_pem : List ℕ
  pub server_metadata_path : List ℕ
  pub server_firmware_path : List ℕ
  pub polling_interval_s : ℕ
  pub auto_reboot : Bool

-- The two bits of the event group are Booleans. The timer is its period in
-- ticks, or none for NULL; `timer_runs` tells that FreeRTOS has it running. `restarted` tells that
-- `esp_restart` has been called, which does not return.
-- `total_nof_bytes_received` is an `int`, kept as its bits.
pub record Ota : Type 0 where
  pub config : Config
  pub check_for_update_bit : Bool
  pub download_image_bit : Bool
  pub check_for_updates_timer : Option ℕ
  pub timer_runs : Bool
  pub has_iap_session : Bool
  pub has_new_firmware : Bool
  pub total_nof_bytes_received : ℕ
  pub restarted : Bool
  pub iap : Iap

abbrev pub path_size : ℕ
path_size = 256

-- `IAP_OK` and `IAP_ERR_SESSION_ALREADY_OPEN`, as tests.
abbrev pub is_ok : IapErr → Bool
is_ok ok = true
is_ok _ = false

abbrev pub is_already_open : IapErr → Bool
is_already_open session_already_open = true
is_already_open _ = false

abbrev pub set_interval : Option ℤ → Ota → Ota
set_interval none o = o
set_interval (some v) o =
    if to_u32 v == o.config.polling_interval_s
    then o
    else record o { config = record (o.config) { polling_interval_s = to_u32 v } }

-- The metadata has a version and a file name: an update is due if the version is another one.
unfoldable pub compare_version : ℤ → List ℕ → Ota → Run Ota
compare_version version file_name o = do
  path ← strncpy file_name path_size
  let o' = record o { config = record (o.config) { server_firmware_path = path } }
  done (
      if version ==ℤ o.config.current_software_version
      then o'
      else record o' { download_image_bit = true })

unfoldable pub process_version : List ℕ → ℤ → Ota → Run Ota
unfolding compare_version
process_version buffer version o = do
  file ← http_parse_key_value_string buffer (codes "FILE=") path_size
  elim file [ none ↦ done o | some file_name ↦ compare_version version file_name o ]

-- `iap_https_metadata_body_callback`, which stops receiving in each case.
unfoldable pub iap_https_metadata_body_callback : List ℕ → ℕ → Ota → Run (ContinueReceiving × Ota)
unfolding process_version
iap_https_metadata_body_callback buffer bytes_received o = do
  interval ← http_parse_key_value_int buffer (codes "INTERVAL=")
  let o' = set_interval interval o
  version ← http_parse_key_value_int buffer (codes "VERSION=")
  o″ ← elim version [ none ↦ done o' | some v ↦ process_version buffer v o' ]
  done (stop_receiving, o″)

-- `iap_https_error_callback`, which only logs.
unfoldable pub iap_https_error_callback : HttpErr → ℤ → Ota → Run Ota
iap_https_error_callback error additional_info o = done o

module _ (p : Platform) where
  -- A session that is still open is aborted, and another one is begun.
  unfoldable pub begin_again : IapErr → Iap → Run (IapErr × Iap)
  begin_again r s =
      let again = do (_, s') ← iap_abort p s; iap_begin p s'
      in if is_already_open r then again else done (r, s)

  -- The session for the first fragment. The result tells whether there is one.
  unfoldable pub start_session : Ota → Run (Bool × Ota)
  unfolding begin_again
  start_session o =
      let start = do
        (r, s) ← iap_begin p o.iap
        (r', s') ← begin_again r s
        let o' = record o { iap = s' }
        done (
            if is_ok r'
            then (true, record o' { total_nof_bytes_received = 0; has_iap_session = true })
            else (false, o'))
      in if o.has_iap_session then done (true, o) else start

  -- A fragment is written. The length is converted to `uint16_t`.
  unfoldable pub write_fragment : List ℕ → ℕ → Ota → Run (ContinueReceiving × Ota)
  write_fragment buffer bytes_received o = do
    (r, s) ← iap_write p o.iap buffer (bytes_received % 2 ^ 16)
    let o' = record o {
      iap = s;
      total_nof_bytes_received = (o.total_nof_bytes_received + bytes_received) % 2 ^ 32;
    }
    let abandon = do (_, s') ← iap_abort p s; done (stop_receiving, record o' { iap = s' })
    if is_ok r then done (continue_receiving, o') else abandon

  -- All has been received. The result of the commit is only logged. Where `esp_restart` is called, the
  -- state is that of the moment of the call: see `iap_https_download_image`.
  unfoldable pub finish_update : Ota → Run (ContinueReceiving × Ota)
  finish_update o =
      let o' = record o { has_iap_session = false } in
      let commit = do
        (_, s) ← iap_commit p o'.iap
        done (
          stop_receiving,
          record o' {
            iap = s;
            has_new_firmware = true;
            restarted = o.restarted || o.config.auto_reboot;
          },
        )
      in let abandon = do (_, s) ← iap_abort p o'.iap; done (stop_receiving, record o' { iap = s })
        in let total = o.total_nof_bytes_received in
          if ltb 0 total && ltb total (2 ^ 31) then commit else abandon

  -- `iap_https_firmware_body_callback`
  unfoldable pub iap_https_firmware_body_callback : List ℕ → ℕ → Ota → Run (ContinueReceiving × Ota)
  iap_https_firmware_body_callback buffer bytes_received o = do
    (has_session, o') ← start_session o
    let fragment = write_fragment buffer bytes_received o'
    let last = finish_update o'
    let refused : Run (ContinueReceiving × Ota) = done (stop_receiving, o')
    if has_session then if ltb 0 bytes_received then fragment else last else refused
