-- ===== src/Ota/Tests.antt =====
-- main/iap_https.c on concrete platforms, texts and images.
use esp32_ota_https.Prelude.{
  ℤ, pos, negsuc, length-replicate, done, Returns, ℕ, ◌≡◌, refl, inl, inr, true, none, some, List,
  [], ◌∷◌, ◌++◌, arith,
}
use esp32_ota_https.CText.{codes, crlf, strstr, skip_space, read_digits, read_sign, to_int, atoi}
use esp32_ota_https.Iap.Sample.{at_label, good_flash, bad_flash, deaf_flash, pending-IsOpen}
use esp32_ota_https.Http.{
  HttpRequest, Exchange, http_parse_key_value_int, copy_line, http_parse_key_value_string,
}
use esp32_ota_https.Http.Callback.{https_tls_callback}
use esp32_ota_https.Http.Request.{empty_context}
use esp32_ota_https.Http.Stream.{Consumer, waiting, Waits}
use esp32_ota_https.Http.Download.{Arrives, Downloaded, read_loop-Downloaded}
use esp32_ota_https.Ota.{
  Ota, path_size, iap_https_metadata_body_callback, iap_https_firmware_body_callback,
}
use esp32_ota_https.Ota.Task.{firmware_buffer_len, http_firmware_data_request}
use esp32_ota_https.Ota.Update.{
  Updating, FragmentDone, firmware_fragment-done, FinishDone, firmware_end-FinishDone,
}
use esp32_ota_https.Ota.Install.{deliver, Installed, deliver-Installed}
use esp32_ota_https.Ota.Metadata.{MetadataDone, iap_https_metadata_body_callback-done}
use esp32_ota_https.Ota.Download.{firmware_consumer}
use esp32_ota_https.Tls.{Tls}
use esp32_ota_https.Tls.Connection.{read_loop}
use esp32_ota_https.Ota.Sample.{
  config, updating, good_flash-WritesSucceed, good_flash-Activates, left_open, left_open-Idle,
  good_flash-Works, tls, zeros,
}

updating-Updating : Updating (at_label "ota_0") updating
updating-Updating = record { session = refl; programming = pending-IsOpen }

-- The write of two more bytes, and then of the rest of the image.
firmware_fragment-done_example :
    Returns
      (FragmentDone deaf_flash (at_label "ota_0") updating (7 ∷ 8 ∷ []) 2)
      (iap_https_firmware_body_callback deaf_flash (7 ∷ 8 ∷ 0 ∷ []) 2 updating)
firmware_fragment-done_example =
    firmware_fragment-done deaf_flash (at_label "ota_0") (7 ∷ 8 ∷ 0 ∷ []) 2 updating
      updating-Updating (omega arith) (omega arith) (omega arith)

-- The image cannot be completed, and a new firmware is reported.
firmware_end-FinishDone_example :
    Returns
      (FinishDone bad_flash (at_label "ota_0") updating)
      (iap_https_firmware_body_callback bad_flash [] 0 updating)
firmware_end-FinishDone_example =
    firmware_end-FinishDone bad_flash (at_label "ota_0") [] updating updating-Updating (omega arith)
      (omega arith)

deliver-Installed_example :
    Returns
      (Installed good_flash (at_label "ota_0") (9 ∷ 9 ∷ 1 ∷ 2 ∷ 3 ∷ []))
      (deliver good_flash ((1 ∷ 2 ∷ []) ∷ (3 ∷ []) ∷ []) updating)
deliver-Installed_example =
    deliver-Installed good_flash (at_label "ota_0") ((1 ∷ 2 ∷ []) ∷ (3 ∷ []) ∷ []) updating
      updating-Updating (omega arith, omega arith, (omega arith, omega arith, tt))
      good_flash-WritesSucceed good_flash-Activates (omega arith) (omega arith)

abbrev metadata : List ℕ
metadata = codes "VERSION=7" ++ crlf ++ codes "FILE=/fw" ++ crlf ++ 0 ∷ []

no_interval : http_parse_key_value_int metadata (codes "INTERVAL=") ≡ done none
unfolding http_parse_key_value_int strstr
no_interval = refl

version_7 : http_parse_key_value_int metadata (codes "VERSION=") ≡ done (some (pos 7))
unfolding http_parse_key_value_int strstr atoi skip_space read_sign read_digits to_int
version_7 = refl

file_fw :
    http_parse_key_value_string metadata (codes "FILE=") path_size
    ≡ done (some (codes "/fw" ++ 0 ∷ []))
unfolding http_parse_key_value_string strstr copy_line
file_fw = refl

iap_https_metadata_body_callback-done_example :
    Returns
      (MetadataDone none (some (pos 7)) (some (codes "/fw" ++ 0 ∷ [])) updating)
      (iap_https_metadata_body_callback metadata 22 updating)
iap_https_metadata_body_callback-done_example =
    iap_https_metadata_body_callback-done metadata 22 updating none (some (pos 7))
      (some (codes "/fw" ++ 0 ∷ [])) no_interval version_7 file_fw

-- A body of three bytes in two packets, with a wait between.
abbrev packets : List (ℤ × List ℕ)
packets = (pos 2, 1 ∷ 2 ∷ 0 ∷ []) ∷ (negsuc 99, 1 ∷ 2 ∷ 0 ∷ []) ∷ (pos 1, 3 ∷ 2 ∷ 0 ∷ []) ∷ []

packets-Arrives : Arrives tls firmware_buffer_len 3 packets
packets-Arrives = (
  omega arith,
  omega arith,
  omega arith,
  inr (refl, (omega arith, omega arith, omega arith, inl refl)),
)

abbrev connection : Tls ℕ
connection = record {
  is_valid = true;
  server_host_name = [];
  server_root_ca_public_key_pem = [];
  peer_public_key_pem = [];
  server_port = 443;
  peer_cert = some 1;
  net = record { handshake_replies = []; write_replies = []; read_replies = packets };
  log = [];
}

abbrev request : HttpRequest Ota
request = http_firmware_data_request good_flash config zeros

abbrev receiving : Exchange Ota
receiving = record {
  context = waiting (empty_context 0 [] []) 3 0;
  buffer = zeros;
  app = left_open;
}

abbrev consumer : Consumer (iap_https_firmware_body_callback good_flash) firmware_buffer_len 3
consumer = firmware_consumer good_flash good_flash-Works 3 (omega arith) (omega arith)

receiving-Waits :
    Waits
      (iap_https_firmware_body_callback good_flash)
      firmware_buffer_len
      3
      consumer
      (empty_context 0 [] [])
      []
      receiving
receiving-Waits = record {
  is_waiting = refl;
  room = length-replicate {A = ℕ} firmware_buffer_len 0;
  consumed = inl (left_open-Idle, refl);
  more = omega arith;
}

read_loop-Downloaded_example :
    Returns
      (Downloaded tls
        (iap_https_firmware_body_callback good_flash)
        firmware_buffer_len
        3
        consumer
        (empty_context 0 [] [])
        request
        (1 ∷ 2 ∷ 3 ∷ []))
      (read_loop tls (https_tls_callback request) connection 1 receiving packets)
read_loop-Downloaded_example =
    read_loop-Downloaded tls (iap_https_firmware_body_callback good_flash) firmware_buffer_len 3
      consumer (empty_context 0 [] []) request packets connection 0 [] receiving refl refl refl
      (omega arith) receiving-Waits packets-Arrives
