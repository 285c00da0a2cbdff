-- ===== src/Ota/Metadata.antt =====
-- `iap_https_metadata_body_callback` of main/iap_https.c: when an update is requested.
use esp32_ota_https.Prelude.{
  ◌==◌, ==_iff, Bool-cases, ℤ, ◌==ℤ◌, to_u32, length, replicate, done, ◌>>=◌, Returns, Returns->>=,
  ℕ, suc, ◌-◌, ◌≡◌, refl, sym, ap, inl, inr, Bool, false, ◌||◌, not, Option, none, some, List, [],
  ◌∷◌, ◌++◌, arith,
}
use esp32_ota_https.CText.{codes, strncpy}
use esp32_ota_https.Http.{
  ContinueReceiving, stop_receiving, http_parse_key_value_int, http_parse_key_value_string,
}
use esp32_ota_https.Http.Lines.{IsLine, http_parse_key_value_string-IsLine, strncpy-line}
use esp32_ota_https.Ota.{
  Ota, path_size, set_interval, compare_version, process_version, iap_https_metadata_body_callback,
}

-- An update is due if the metadata has a version and a file, and the version is not the current
-- one.
abbrev pub due : Option ℤ → Option (List ℕ) → ℤ → Bool
due none file current = false
due (some version) none current = false
due (some version) (some file_name) current = not (version ==ℤ current)

-- The interval in seconds that the metadata asks for, if it does.
abbrev pub interval_of : Option ℤ → ℕ → ℕ
interval_of none old = old
interval_of (some v) old = to_u32 v

-- A value with its final 0 in the field `server_firmware_path`, which is padded with zeros.
abbrev pub padded : List ℕ → List ℕ
padded file_name = file_name ++ replicate (path_size - length file_name) 0

-- The path of the firmware.
abbrev pub path_of : Option ℤ → Option (List ℕ) → List ℕ → List ℕ
path_of none file old = old
path_of (some version) none old = old
path_of (some version) (some file_name) old = padded file_name

-- What the callback leaves behind when the searches for the three keys give these results.
pub record MetadataDone (interval version : Option ℤ) (file : Option (List ℕ)) (o : Ota)
    (out : ContinueReceiving × Ota) : Type 0 where
  pub stops : out.0 ≡ stop_receiving
  pub requests :
      out.1.download_image_bit
      ≡ (o.download_image_bit || due version file o.config.current_software_version)
  pub polls : out.1.config.polling_interval_s ≡ interval_of interval o.config.polling_interval_s
  pub keeps_version : out.1.config.current_software_version ≡ o.config.current_software_version
  pub keeps_iap : out.1.iap ≡ o.iap
  pub names : out.1.config.server_firmware_path ≡ path_of version file o.config.server_firmware_path

set_interval_polls :
    (v : Option ℤ) (o : Ota)
    → ((set_interval v o).config.polling_interval_s ≡ interval_of v o.config.polling_interval_s)
      × ((set_interval v o).config.current_software_version ≡ o.config.current_software_version)
      × ((set_interval v o).iap ≡ o.iap)
      × ((set_interval v o).download_image_bit ≡ o.download_image_bit)
      × ((set_interval v o).config.server_firmware_path ≡ o.config.server_firmware_path)
set_interval_polls none o = (refl, refl, refl, refl, refl)
set_interval_polls (some v) o = elim (Bool-cases (to_u32 v == o.config.polling_interval_s)) [
  | inl same ↦
      rw same (sym ((==_iff (to_u32 v) o.config.polling_interval_s).0 same), refl, refl, refl, refl)
  | inr other ↦ rw other (refl, refl, refl, refl, refl)
]

length-line : (value : List ℕ) → length (value ++ 0 ∷ []) ≡ suc (length value)
length-line [] = refl
length-line (c ∷ value) = ap suc (length-line value)

line-replicate :
    (value : List ℕ) (n : ℕ) → (value ++ 0 ∷ []) ++ replicate n 0 ≡ value ++ replicate (suc n) 0
line-replicate [] n = refl
line-replicate (c ∷ value) n = ap (λ rest. c ∷ rest) (line-replicate value n)

strncpy-padded :
    (file_name : List ℕ)
    → IsLine path_size file_name
    → strncpy file_name path_size ≡ done (padded file_name)
strncpy-padded file_name (value, e, clean, short) =
    let room : suc (path_size - suc (length value)) ≡ path_size - length value = omega arith in
    rw e (
      rw (strncpy-line path_size value [] clean short) (
        rw (length-line value) (
          rw (line-replicate value (path_size - suc (length value)))
            (ap (λ k. done (value ++ replicate k 0)) (sym room)))))

-- What the comparison of the versions leaves behind.
abbrev Compared : Option ℤ → Option (List ℕ) → Ota → Ota → Type 0
Compared version file o out =
    (out.download_image_bit
      ≡ (o.download_image_bit || due version file o.config.current_software_version))
    × (out.config.server_firmware_path ≡ path_of version file o.config.server_firmware_path)
    × (out.config.polling_interval_s ≡ o.config.polling_interval_s)
    × (out.config.current_software_version ≡ o.config.current_software_version)
    × (out.iap ≡ o.iap)

compare_version-Compared :
    (v : ℤ) (file_name : List ℕ) (o : Ota)
    → IsLine path_size file_name
    → Returns (Compared (some v) (some file_name) o) (compare_version v file_name o)
unfolding compare_version
compare_version-Compared v file_name o line =
    rw (strncpy-padded file_name line) elim (Bool-cases (v ==ℤ o.config.current_software_version)) [
      | inl same ↦ rw same (ground arith, refl, refl, refl, refl)
      | inr other ↦ rw other (ground arith, refl, refl, refl, refl)
    ]

process_version-Compared :
    (buffer : List ℕ) (v : ℤ) (file : Option (List ℕ)) (o : Ota)
    → http_parse_key_value_string buffer (codes "FILE=") path_size ≡ done file
    → Returns (Compared (some v) file o) (process_version buffer v o)
unfolding process_version
process_version-Compared buffer v none o f = rw f (ground arith, refl, refl, refl, refl)
process_version-Compared buffer v (some file_name) o f =
    rw f (compare_version-Compared v file_name o line)
  where
    line : IsLine path_size file_name
    line =
        rw f at (http_parse_key_value_string-IsLine buffer (codes "FILE=") path_size (omega arith))

Compared→MetadataDone :
    (interval version : Option ℤ) (file : Option (List ℕ)) (o out : Ota)
    → Compared version file (set_interval interval o) out
    → MetadataDone interval version file o (stop_receiving, out)
Compared→MetadataDone interval version file o out (d, path, i, v, s) =
    let (i', v', s', d', path') = set_interval_polls interval o in
    record {
      stops = refl;
      requests = simp (d, d', v') refl;
      polls = simp (i, i') refl;
      keeps_version = simp (v, v') refl;
      keeps_iap = simp (s, s') refl;
      names = simp (path, path') refl;
    }

-- The callback asks for the download of an image exactly if the metadata names a version other
-- than the current one and a file; the path of the file is stored, cut to the field and padded, and
-- the interval is taken over. It always stops receiving and leaves the current version and the
-- flash alone.
pub iap_https_metadata_body_callback-done :
    (buffer : List ℕ) (n : ℕ) (o : Ota) (interval version : Option ℤ) (file : Option (List ℕ))
    → http_parse_key_value_int buffer (codes "INTERVAL=") ≡ done interval
    → http_parse_key_value_int buffer (codes "VERSION=") ≡ done version
    → http_parse_key_value_string buffer (codes "FILE=") path_size ≡ done file
    → Returns (MetadataDone interval version file o) (iap_https_metadata_body_callback buffer n o)
unfolding iap_https_metadata_body_callback
iap_https_metadata_body_callback-done buffer n o interval version file i v f =
    rw (i, iap_https_metadata_body_callback) (rw v (at_version version))
  where
    at_version :
        (version : Option ℤ)
        → Returns (MetadataDone interval version file o) (do
          o' ← elim version [
            | none ↦ done (set_interval interval o)
            | some v ↦ process_version buffer v (set_interval interval o)
          ]
          done (stop_receiving, o'))
    at_version none =
        Compared→MetadataDone interval none file o (set_interval interval o)
          (ground arith, refl, refl, refl, refl)
    at_version (some v) =
        Returns->>= (Compared (some v) file (set_interval interval o))
          (MetadataDone interval (some v) file o)
          (process_version buffer v (set_interval interval o)) _
          (process_version-Compared buffer v file (set_interval interval o) f)
          (Compared→MetadataDone interval (some v) file o)
