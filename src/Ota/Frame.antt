-- ===== src/Ota/Frame.antt =====
-- What the two requests of main/iap_https.c leave alone, whatever the server answers and whatever
-- fails: a download does not touch the event bits, the timer or the configuration, and a check does
-- not touch the IAP module.
pub mod Download
pub mod Check
use esp32_ota_https.Prelude.{◌≡◌, ◌⊎◌, true}
use esp32_ota_https.Ota.{Ota}

-- What a download keeps.
pub record SameSchedule (o o' : Ota) : Type 0 where
  pub same_check : o'.check_for_update_bit ≡ o.check_for_update_bit
  pub same_download : o'.download_image_bit ≡ o.download_image_bit
  pub same_timer : o'.check_for_updates_timer ≡ o.check_for_updates_timer
  pub same_runs : o'.timer_runs ≡ o.timer_runs
  pub same_config : o'.config ≡ o.config

-- What a check keeps. The bit for the download may be set.
pub record SameFirmware (o o' : Ota) : Type 0 where
  pub same_check : o'.check_for_update_bit ≡ o.check_for_update_bit
  pub same_timer : o'.check_for_updates_timer ≡ o.check_for_updates_timer
  pub same_runs : o'.timer_runs ≡ o.timer_runs
  pub same_session : o'.has_iap_session ≡ o.has_iap_session
  pub same_new : o'.has_new_firmware ≡ o.has_new_firmware
  pub same_iap : o'.iap ≡ o.iap
  pub same_total : o'.total_nof_bytes_received ≡ o.total_nof_bytes_received
  pub same_restarted : o'.restarted ≡ o.restarted
  pub download : (o'.download_image_bit ≡ o.download_image_bit) ⊎ (o'.download_image_bit ≡ true)
