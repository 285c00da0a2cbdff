-- ===== src/Iap/Image/Open.antt =====
-- A programming session of main/iap.c and the image that it has built so far.
-- The bytes that wait in the page buffer.
use esp32_ota_https.Prelude.{
  is_zero, length, take, ℕ, ◌+◌, ◌%◌, ◌^◌, ◌≤◌, ◌≡◌, true, false, some, List, [], ◌∷◌, ◌++◌,
}
use esp32_ota_https.Flash.{Partition, wrote, Log, Platform, flashed}
use esp32_ota_https.Iap.{PageBuffer, null, freed, live, page_size, Iap}

abbrev pub buffered : PageBuffer → ℕ → List ℕ
buffered null ix = []
buffered freed ix = []
buffered (live block) ix = take ix block

-- The image so far.
abbrev pub image : Iap → List ℕ
image s = flashed s.log ++ buffered s.page_buffer s.page_buffer_ix

abbrev pub IsPage : PageBuffer → Type 0
IsPage null = ⊥
IsPage freed = ⊥
IsPage (live block) = length block ≡ page_size

-- A session that programs `target`: the page buffer is allocated, whole pages are in the flash,
-- and the flash address has advanced by as much as was written.
pub record IsOpen (target : Partition) (s : Iap) : Type 0 where
  pub is_initialized : s.initialized ≡ true
  pub is_open : s.session_open ≡ true
  pub programs : s.partition_to_program ≡ some target
  pub page : IsPage s.page_buffer
  pub index : s.page_buffer_ix ≤ page_size
  pub address : s.cur_flash_address ≡ (target.address + length (flashed s.log)) % 2 ^ 32
  pub aligned : length (flashed s.log) % page_size ≡ 0

-- The last call of the flash was a write that failed.
abbrev pub LastWriteFailed : Platform → Log → Type 0
LastWriteFailed p [] = ⊥
LastWriteFailed p (wrote h bytes r ∷ log) = (r ≡ p.esp_ota_write log h bytes) × (is_zero r ≡ false)
LastWriteFailed p (_ ∷ log) = ⊥
