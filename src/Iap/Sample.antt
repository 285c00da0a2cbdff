-- ===== src/Iap/Sample.antt =====
-- Concrete platforms and states for main/iap.c: a flash on which every call succeeds, one on which
-- no image can be completed, and one on which every write fails.
use Prim.Native.String.{String}
use esp32_ota_https.Prelude.{
  pos, negsuc, replicate, length-replicate, ℕ, ◌≡◌, refl, true, some, [], ◌∷◌, arith,
}
use esp32_ota_https.Flash.{Partition, began, Platform}
use esp32_ota_https.Iap.{live, page_size, Iap}
use esp32_ota_https.Iap.Image.{IsOpen}
use esp32_ota_https.Iap.Boot.{FindsByLabel}
use esp32_ota_https.Iap.Validity.{MallocGives, BootKnown}
use esp32_ota_https.Iap.Session.{Activates}

abbrev pub at_label : String → Partition
at_label name = record { label = name; address = 65536 }

abbrev pub good_flash : Platform
good_flash = record {
  malloc = λ log n. some (replicate n 0);
  esp_ota_get_boot_partition = λ log. some (at_label "factory");
  esp_partition_find_first = λ log name. some (at_label name);
  esp_ota_begin = λ log target. (pos 0, 7);
  esp_ota_write = λ log handle bytes. pos 0;
  esp_ota_end = λ log handle. pos 0;
  esp_ota_set_boot_partition = λ log target. pos 0;
}

abbrev pub bad_flash : Platform
bad_flash = record good_flash { esp_ota_end = λ log handle. negsuc 0 }

-- The flash loses what is written to it.
abbrev pub deaf_flash : Platform
deaf_flash = record good_flash { esp_ota_write = λ log handle bytes. negsuc 0 }

abbrev pub opened : Iap
opened = record {
  initialized = true;
  session_open = true;
  partition_to_program = some (at_label "ota_0");
  ota_handle = 7;
  cur_flash_address = 65536;
  page_buffer = live (replicate page_size 0);
  page_buffer_ix = 0;
  log = began (at_label "ota_0") (pos 0) ∷ [];
}

pub opened-IsOpen : IsOpen (at_label "ota_0") opened
opened-IsOpen = record {
  is_initialized = refl;
  is_open = refl;
  programs = refl;
  page = length-replicate {A = ℕ} page_size 0;
  index = omega arith;
  address = refl;
  aligned = refl;
}

-- Two bytes wait in the page buffer.
abbrev pub pending : Iap
pending = record opened { page_buffer = live (replicate page_size 9); page_buffer_ix = 2 }

pub pending-IsOpen : IsOpen (at_label "ota_0") pending
pending-IsOpen = record {
  is_initialized = refl;
  is_open = refl;
  programs = refl;
  page = length-replicate {A = ℕ} page_size 9;
  index = omega arith;
  address = refl;
  aligned = refl;
}

pub good_flash-MallocGives : MallocGives good_flash
good_flash-MallocGives log n b e =
    let same : replicate n 0 ≡ b = cc in rw (← same) (length-replicate n 0)

pub good_flash-BootKnown : BootKnown good_flash
good_flash-BootKnown log e = cc

pub deaf_flash-Activates : Activates deaf_flash
deaf_flash-Activates = record { ends = λ log handle. refl; sets = λ log target. refl }

pub good_flash-FindsByLabel : FindsByLabel good_flash
good_flash-FindsByLabel log name target e =
    let same : at_label name ≡ target = cc in rw (← same) refl
