-- ===== src/Iap.antt =====
-- main/iap.c and main/iap.h: the module that writes a firmware image to the flash.
--
-- `iap_state` is the record `Iap`; the flag bits of `module_state_flags` are two Booleans. Each
-- function takes the state and returns the new one beside its result. The state also holds the log
-- of the calls made to the flash. An access through a null or freed page buffer is a `fault`.
pub mod Image
pub mod Calls
pub mod Begin
pub mod Session
pub mod Boot
pub mod Spared
pub mod Validity
pub mod Sample
mod Tests
use text.Mathlib.Text.{◌==◌ as str_eq}
use esp32_ota_https.Prelude.{
  ℕ, zero, suc, ◌+◌, ◌-◌, ◌%◌, ◌^◌, ℤ, is_zero, Bool, true, false, Option, none, some, List, [],
  ◌∷◌, take, drop, ltb, ◌==◌, if◌then◌else◌, Run, done, blocked, fault, ◌>>=◌, memcpy,
}
use esp32_ota_https.Flash.{Partition, began, wrote, ended, activated, Log, Platform}

-- The results of the functions of this module, `iap_err_t`.
pub data IapErr : Type 0 where
  ok fail already_initialized not_initialized session_already_open out_of_memory : IapErr
  no_session partition_not_found write_failed : IapErr

-- `page_buffer`: NULL, a pointer to a block that has been freed, or a block with its contents.
pub data PageBuffer : Type 0 where
  null freed : PageBuffer
  live : List ℕ → PageBuffer

abbrev pub page_size : ℕ
page_size = 4096

pub record Iap : Type 0 where
  pub initialized : Bool
  pub session_open : Bool
  pub partition_to_program : Option Partition
  pub ota_handle : ℕ
  pub cur_flash_address : ℕ
  pub page_buffer : PageBuffer
  pub page_buffer_ix : ℕ
  pub log : Log

-- The static variable before the first call.
abbrev pub initial : Iap
initial = record {
  initialized = false;
  session_open = false;
  partition_to_program = none;
  ota_handle = 0;
  cur_flash_address = 0;
  page_buffer = null;
  page_buffer_ix = 0;
  log = [];
}

-- `free`: of NULL it does nothing, of a freed block it is a fault.
unfoldable pub free : PageBuffer → Run PageBuffer
free null = done null
free freed = fault
free (live bytes) = done freed

-- The block that a pointer leads to.
unfoldable pub deref : PageBuffer → Run (List ℕ)
deref null = fault
deref freed = fault
deref (live bytes) = done bytes

unfoldable pub iap_init : Iap → IapErr × Iap
iap_init s =
    if s.initialized
    then (already_initialized, s)
    else (ok, record s { initialized = true; session_open = false })

-- The number of bytes that one round of the loop copies: MIN(spaceRemaining, len).
abbrev pub nof_bytes_to_copy : Iap → ℕ → ℕ
nof_bytes_to_copy s len =
    let space_remaining = (page_size + 2 ^ 16 - s.page_buffer_ix) % 2 ^ 16 in
    if ltb space_remaining len then space_remaining else len

-- The end of `iap_finish`.
unfoldable pub close_session : Iap → Iap
close_session s = record s { ota_handle = 0; partition_to_program = none; session_open = false }

module _ (p : Platform) where
  -- The three tests of the label are made one after the other.
  unfoldable pub iap_find_next_boot_partition : Log → Run (Option Partition)
  iap_find_next_boot_partition log = elim (p.esp_ota_get_boot_partition log) [
    | none ↦ fault
    | some current ↦
        let find = p.esp_partition_find_first log in
        let next₀ = if str_eq "factory" current.label then find "ota_0" else none in
        let next₁ = if str_eq "ota_0" current.label then find "ota_1" else next₀ in
        done (if str_eq "ota_1" current.label then find "ota_0" else next₁)
  ]

  -- `iap_begin` from the call of `esp_ota_begin` on.
  unfoldable pub begin_ota : Partition → Iap → Run (IapErr × Iap)
  unfolding free
  begin_ota target s =
      let (result, handle) = p.esp_ota_begin s.log target in
      let s' = record s {
        cur_flash_address = target.address % 2 ^ 32;
        ota_handle = handle;
        log = began target result ∷ s.log;
      } in
      if is_zero result
      then done (ok, record s' { session_open = true })
      else do b ← free s'.page_buffer; done (fail, record s' { page_buffer = b })

  -- `iap_begin` from the search for the partition on.
  unfoldable pub begin_partition : Iap → Run (IapErr × Iap)
  unfolding free begin_ota
  begin_partition s = do
    next ← iap_find_next_boot_partition s.log
    elim next [
      | none ↦ do
        b ← free s.page_buffer
        done (partition_not_found, record s { partition_to_program = none; page_buffer = b })
      | some target ↦ begin_ota target (record s { partition_to_program = some target })
    ]

  -- `iap_begin` behind its two guards.
  unfoldable pub begin_session : Iap → Run (IapErr × Iap)
  unfolding begin_partition
  begin_session s =
      let s₀ = record s { page_buffer_ix = 0 } in
      elim (p.malloc s.log page_size) [
        | none ↦ done (out_of_memory, record s₀ { page_buffer = null })
        | some bytes ↦ begin_partition (record s₀ { page_buffer = live bytes })
      ]

  unfoldable pub iap_begin : Iap → Run (IapErr × Iap)
  unfolding begin_session
  iap_begin s =
      if s.initialized
      then if s.session_open then done (session_already_open, s) else begin_session s
      else done (not_initialized, s)

  -- The buffer's bytes below the index, handed to `esp_ota_write`.
  unfoldable pub iap_write_page_buffer : Iap → Run (IapErr × Iap)
  unfolding deref
  iap_write_page_buffer s = if s.page_buffer_ix == 0 then done (ok, s) else do
    block ← deref s.page_buffer
    let bytes = take s.page_buffer_ix block
    let result = p.esp_ota_write s.log s.ota_handle bytes
    let s' = record s { log = wrote s.ota_handle bytes result ∷ s.log }
    let s″ = record s' {
      cur_flash_address = (s.cur_flash_address + s.page_buffer_ix) % 2 ^ 32;
      page_buffer_ix = 0;
    }
    done (if is_zero result then (ok, s″) else (write_failed, s'))

  -- One round of the loop of `iap_write`: the copy, and the write of a page that is full.
  unfoldable pub write_round : Iap → List ℕ → ℕ → Run (IapErr × Iap)
  unfolding deref memcpy iap_write_page_buffer
  write_round s bytes len = do
    let n = nof_bytes_to_copy s len
    block ← deref s.page_buffer
    block' ← memcpy block s.page_buffer_ix bytes n
    let s' = record s {
      page_buffer = live block';
      page_buffer_ix = (s.page_buffer_ix + n) % 2 ^ 16;
    }
    if s'.page_buffer_ix == page_size then iap_write_page_buffer s' else done (ok, s')

  -- The loop, on fuel. What it was given and has not copied yet is `bytes`, of which `len` count.
  unfoldable pub write_loop : ℕ → Iap → List ℕ → ℕ → Run (IapErr × Iap)
  write_loop zero s bytes len = blocked
  write_loop (suc fuel) s bytes len =
      let n = nof_bytes_to_copy s len in
      let round = do
        (r, s') ← write_round s bytes len
        elim r [ ok ↦ write_loop fuel s' (drop n bytes) (len - n) | _ ↦ done (write_failed, s') ]
      in if len == 0 then done (ok, s) else round

  -- Each round but the first copies a byte at least.
  unfoldable pub iap_write : Iap → List ℕ → ℕ → Run (IapErr × Iap)
  unfolding write_loop
  iap_write s bytes len =
      if s.initialized
      then if s.session_open then write_loop (len + 2) s bytes len else done (no_session, s)
      else done (not_initialized, s)

  -- `esp_ota_set_boot_partition`, called only if `esp_ota_end` has succeeded.
  unfoldable pub activate : ℤ → Iap → Bool × Iap
  activate end_result s =
      let result = p.esp_ota_set_boot_partition s.log s.partition_to_program in
      if is_zero end_result
      then (is_zero result, record s { log = activated s.partition_to_program result ∷ s.log })
      else (false, s)

  -- `iap_finish` behind its two guards.
  unfoldable pub finish_session : Bool → Iap → Run (IapErr × Iap)
  unfolding free activate close_session
  finish_session commit s = do
    _ ← free s.page_buffer
    let result = p.esp_ota_end s.log s.ota_handle
    let s' = record s {
      page_buffer = null;
      page_buffer_ix = 0;
      cur_flash_address = 0;
      log = ended s.ota_handle result ∷ s.log;
    }
    let (good, s″) = activate result s'
    let committed : IapErr × Iap = if good then (ok, close_session s″) else (fail, s″)
    done (if commit then committed else (ok, close_session s'))

  unfoldable pub iap_finish : Bool → Iap → Run (IapErr × Iap)
  unfolding finish_session
  iap_finish commit s =
      if s.initialized
      then if s.session_open then finish_session commit s else done (no_session, s)
      else done (not_initialized, s)

  -- The result of the final write is logged, and then overwritten.
  unfoldable pub iap_commit : Iap → Run (IapErr × Iap)
  iap_commit s = do (_, s') ← iap_write_page_buffer s; iap_finish true s'

  unfoldable pub iap_abort : Iap → Run (IapErr × Iap)
  iap_abort s = iap_finish false s
