-- ===== src/Iap/Boot.antt =====
-- `iap_find_next_boot_partition` of main/iap.c: which partition an update is written to.
use Prim.Native.String.{String}
use text.Mathlib.Text.{◌==◌ as str_eq}
use text.Mathlib.TextEquality.{eq_iff}
use esp32_ota_https.Prelude.{
  if◌then◌else◌, done, Returns, done-injective, ◌≡◌, refl, sym, ap, ◌∙◌, ◌≢◌, Option, none, some,
  arith,
}
use esp32_ota_https.Flash.{Partition, Log, Platform}
use esp32_ota_https.Iap.{iap_find_next_boot_partition}

-- The order of the partitions that the comment in the function gives.
abbrev pub successor : String → Option String
successor label =
    if str_eq "ota_1" label
    then some "ota_0"
    else if str_eq "ota_0" label
    then some "ota_1"
    else if str_eq "factory" label
    then some "ota_0"
    else none

-- The partition with a label, if there is one to look for.
abbrev pub find_label : Platform → Log → Option String → Option Partition
find_label p log none = none
find_label p log (some label) = p.esp_partition_find_first log label

successor-ne : (label next : String) → successor label ≡ some next → next ≢ label
successor-ne label next h e = ground (
  arith,
  eq_iff "ota_1" label,
  eq_iff "ota_0" label,
  eq_iff "factory" label,
  eq_iff "ota_0" "ota_1",
  eq_iff "ota_0" "factory",
  eq_iff next label,
)

-- `esp_partition_find_first` finds a partition with the label that it is asked for.
abbrev pub FindsByLabel : Platform → Type 0
FindsByLabel p =
    (log : Log) (label : String) (target : Partition)
    → p.esp_partition_find_first log label ≡ some target
    → target.label ≡ label

module _ (p : Platform) where
  pub find-Returns :
      (log : Log)
      → p.esp_ota_get_boot_partition log ≢ none
      → Returns (λ _. Unit {0}) (iap_find_next_boot_partition p log)
  unfolding iap_find_next_boot_partition
  find-Returns log h = ground arith

  -- The update goes to the partition whose label follows the label of the boot partition.
  find_successor :
      (log : Log) (boot : Partition)
      → p.esp_ota_get_boot_partition log ≡ some boot
      → iap_find_next_boot_partition p log ≡ done (find_label p log (successor boot.label))
  unfolding iap_find_next_boot_partition
  find_successor log boot b = rw (b, iap_find_next_boot_partition) (ground arith)

  find_label-ne :
      (log : Log) (label : String) (next : Option String) (target : Partition)
      → FindsByLabel p
      → successor label ≡ next
      → find_label p log next ≡ some target
      → target.label ≢ label
  find_label-ne log label none target finds e f same = cc
  find_label-ne log label (some next) target finds e f same =
      successor-ne label next e (sym (finds log next target f) ∙ same)

  find_label-label :
      (log : Log) (next : Option String) (target : Partition)
      → FindsByLabel p
      → find_label p log next ≡ some target
      → next ≡ some target.label
  find_label-label log none target finds f = cc
  find_label-label log (some next) target finds f = ap some (sym (finds log next target f))

  -- A partition that is found for the update has the label that follows the label of the boot
  -- partition, and is never the boot partition itself.
  pub find-ne-boot :
      (log : Log) (boot target : Partition)
      → FindsByLabel p
      → p.esp_ota_get_boot_partition log ≡ some boot
      → iap_find_next_boot_partition p log ≡ done (some target)
      → (successor boot.label ≡ some target.label) × (target.label ≢ boot.label)
  find-ne-boot log boot target finds b e =
      let found : find_label p log (successor boot.label) ≡ some target =
        done-injective (sym (find_successor log boot b) ∙ e) in
      (
        find_label-label log (successor boot.label) target finds found,
        find_label-ne log boot.label (successor boot.label) target finds refl found,
      )
