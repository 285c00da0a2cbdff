-- ===== src/Flash.antt =====
-- The platform under main/iap.c: the OTA functions of ESP-IDF, its partition table and the heap.
-- They are no code of this repository. A `Platform` gives their replies, each a function of the
-- calls made before, newest first; an `esp_err_t` is 0 (ESP_OK) on success.
use Prim.Native.String.{String}
use esp32_ota_https.Prelude.{ℕ, ℤ, Option, List, is_zero, if◌then◌else◌, [], ◌++◌, ◌∷◌}

-- The fields of `esp_partition_t` that the program reads.
pub record Partition : Type 0 where
  pub label : String
  pub address : ℕ

-- A call of the platform that touches the flash, with its reply.
pub data Event : Type 0 where
  began : Partition → ℤ → Event
  wrote : ℕ → List ℕ → ℤ → Event
  ended : ℕ → ℤ → Event
  activated : Option Partition → ℤ → Event

abbrev pub Log : Type 0
Log = List Event

pub record Platform : Type 0 where
  -- `malloc`: the contents of the new block, which are unspecified, or none for NULL
  pub malloc : Log → ℕ → Option (List ℕ)
  pub esp_ota_get_boot_partition : Log → Option Partition
  pub esp_partition_find_first : Log → String → Option Partition
  pub esp_ota_begin : Log → Partition → ℤ × ℕ
  pub esp_ota_write : Log → ℕ → List ℕ → ℤ
  pub esp_ota_end : Log → ℕ → ℤ
  pub esp_ota_set_boot_partition : Log → Option Partition → ℤ

-- The bytes that the flash holds since the last `esp_ota_begin` that succeeded: those of the
-- writes that succeeded, in order.
abbrev pub flashed : Log → List ℕ
flashed [] = []
flashed (began p r ∷ log) = if is_zero r then [] else flashed log
flashed (wrote h bytes r ∷ log) = if is_zero r then flashed log ++ bytes else flashed log
flashed (ended h r ∷ log) = flashed log
flashed (activated p r ∷ log) = flashed log
