-- ===== src/Iap/Tests.antt =====
-- main/iap.c on concrete platforms.
use esp32_ota_https.Prelude.{
  negsuc, done, fault, Ensures, Returns, ◌≡◌, refl, true, some, [], ◌∷◌, arith,
}
use esp32_ota_https.Flash.{ended}
use esp32_ota_https.Iap.{
  fail, null, Iap, initial, free, iap_find_next_boot_partition, iap_begin, iap_write_page_buffer,
  iap_write, activate, finish_session, iap_finish, iap_commit,
}
use esp32_ota_https.Iap.Image.{Written, iap_write-Written}
use esp32_ota_https.Iap.Validity.{IsValid, initial-IsValid}
use esp32_ota_https.Iap.Begin.{Begun, iap_begin-Begun}
use esp32_ota_https.Iap.Session.{Committed, iap_commit-Committed, Activated, iap_commit-Activated}
use esp32_ota_https.Iap.Calls.{
  init, begin, commit, write, run, run-IsValid, iap_write-iap_commit_failed,
}
use esp32_ota_https.Iap.Sample.{
  at_label, good_flash, bad_flash, deaf_flash, opened, opened-IsOpen, pending, pending-IsOpen,
  good_flash-MallocGives, good_flash-BootKnown, deaf_flash-Activates,
}

-- The boot partition is "factory", so that the update goes to "ota_0".
find_example : iap_find_next_boot_partition good_flash [] ≡ done (some (at_label "ota_0"))
unfolding iap_find_next_boot_partition
find_example = refl

broken : Iap
broken = record opened {
  page_buffer = null;
  cur_flash_address = 0;
  log = ended 7 (negsuc 0) ∷ opened.log;
}

commit_failed : iap_commit bad_flash opened ≡ done (fail, broken)
unfolding iap_commit iap_write_page_buffer iap_finish finish_session activate free broken
commit_failed = refl

iap_write-Written_example :
    Returns
      (Written good_flash (at_label "ota_0") opened (1 ∷ 2 ∷ 3 ∷ []) 3)
      (iap_write good_flash opened (1 ∷ 2 ∷ 3 ∷ []) 3)
iap_write-Written_example =
    iap_write-Written good_flash (at_label "ota_0") opened (1 ∷ 2 ∷ 3 ∷ []) 3 opened-IsOpen
      (omega arith) (omega arith)

iap_begin-Begun_example :
    Returns
      (Begun (record initial { initialized = true }))
      (iap_begin good_flash (record initial { initialized = true }))
iap_begin-Begun_example =
    iap_begin-Begun good_flash (record initial { initialized = true }) good_flash-MallocGives
      good_flash-BootKnown refl refl

iap_commit-Committed_example :
    Returns (Committed (at_label "ota_0") (9 ∷ 9 ∷ [])) (iap_commit good_flash pending)
iap_commit-Committed_example =
    iap_commit-Committed good_flash (at_label "ota_0") pending pending-IsOpen

-- The commit succeeds, and the flash is empty.
iap_commit-Activated_example :
    Returns (Activated deaf_flash (at_label "ota_0") []) (iap_commit deaf_flash pending)
iap_commit-Activated_example =
    iap_commit-Activated deaf_flash (at_label "ota_0") pending pending-IsOpen deaf_flash-Activates

run-IsValid_example :
    Ensures IsValid (run good_flash (init ∷ begin ∷ write (1 ∷ 2 ∷ []) 2 ∷ commit ∷ []) initial)
run-IsValid_example =
    run-IsValid good_flash (init ∷ begin ∷ write (1 ∷ 2 ∷ []) 2 ∷ commit ∷ []) initial
      good_flash-MallocGives good_flash-BootKnown initial-IsValid

iap_write-iap_commit_failed_example :
    (broken.session_open ≡ true)
    × (broken.page_buffer ≡ null)
    × (iap_write bad_flash broken (1 ∷ []) 1 ≡ fault)
iap_write-iap_commit_failed_example =
    iap_write-iap_commit_failed bad_flash (at_label "ota_0") opened broken (1 ∷ []) 1 opened-IsOpen
      commit_failed (omega arith)
