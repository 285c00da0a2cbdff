-- ===== src/Ota/RoundTests.antt =====
-- A whole round of the task of main/iap_https.c on a concrete server.
use esp32_ota_https.Prelude.{
  pos, replicate, length-replicate, done, Ensures, Returns, Ensures-trivial, ℕ, ◌≡◌, refl, inl, inr,
  true, some, List, [], ◌∷◌, arith,
}
use esp32_ota_https.CText.{
  codes, strstr, skip_space, read_digits, read_sign, to_int, atoi, scan_int, scan_text,
  scan_status_line, digits, sprintf_int,
}
use esp32_ota_https.Iap.Sample.{good_flash}
use esp32_ota_https.Http.{success, http_parse_key_value_int, https_validate_request}
use esp32_ota_https.Http.Stream.{Consumer}
use esp32_ota_https.Http.Request.{http_get_request, https_send_request}
use esp32_ota_https.Http.Sending.{Allocates, Exchanged, https_send_request-Exchanged}
use esp32_ota_https.Tls.{
  connected, handshaken, verified, pinned, Tls, init_steps, wifi_tls_init_context, handshake_loop,
  wifi_tls_handshake,
}
use esp32_ota_https.Tls.Pinning.{memcmp_equal, compare_keys, wifi_tls_cert_pinning}
use esp32_ota_https.Tls.Connection.{
  check_pinning, check_certificates, connect_to_port, open_connection, wifi_tls_connect,
}
use esp32_ota_https.Ota.{iap_https_firmware_body_callback}
use esp32_ota_https.Ota.Task.{firmware_buffer_len, connect, iap_https_check_for_update}
use esp32_ota_https.Ota.Download.{firmware_consumer}
use esp32_ota_https.Ota.Round.{Serves, image_request}
use esp32_ota_https.Ota.Sample.{
  good_flash-Works, tls, zeros, device, device-Idle, head_packet, answer, server, online, memory,
  good_timers,
}
use esp32_ota_https.Ota.Frame.{SameFirmware}
use esp32_ota_https.Ota.Frame.Check.{iap_https_check_for_update-SameFirmware}
use esp32_ota_https.Ota.Schedule.{downloading, Station, Turn, task, turn}
use esp32_ota_https.Ota.Schedule.Secured.{Opens, StaysSecure, run_turns-StationSecure}
use esp32_ota_https.Http.Headers.{HasHeaders}

-- The connection that `wifi_tls_connect` sets up.
abbrev secured : Tls ℕ
secured = record server {
  is_valid = true;
  peer_cert = some 1;
  net = record answer { handshake_replies = [] };
  log = pinned (pos 0) ∷ verified 0 ∷ handshaken (pos 0) ∷ connected (pos 0) ∷ [];
}

memory-Allocates : Allocates (memory 6) 32
memory-Allocates = record {
  context_block = [];
  request_block = replicate 32 7;
  response_block = [];
  gives_context = refl;
  gives_request = refl;
  gives_response = refl;
  as_large = refl;
}

opens : connect good_flash tls memory (some server) ≡ done (pos 0, secured)
unfolding connect wifi_tls_connect wifi_tls_init_context init_steps open_connection
    wifi_tls_handshake handshake_loop check_certificates check_pinning wifi_tls_cert_pinning
    compare_keys memcmp_equal connect_to_port sprintf_int digits
opens = refl

valid :
    https_validate_request (some (image_request good_flash good_flash-Works tls memory online))
    ≡ success
unfolding https_validate_request
valid = refl

packet-HasHeaders :
    HasHeaders
      (image_request good_flash good_flash-Works tls memory online)
      head_packet
      40
      34
      3
      zeros
unfolding strstr scan_status_line scan_text scan_int skip_space read_sign read_digits to_int atoi
    http_parse_key_value_int
packet-HasHeaders = record { minor = pos 1; found = refl; status = refl; content = refl }

answer-Serves :
    Serves tls (image_request good_flash good_flash-Works tls memory online) zeros 34 3 secured
answer-Serves = record {
  takes = (omega arith, (refl, (omega arith, tt)));
  arrives = (
    refl,
    (
      omega arith,
      omega arith,
      omega arith,
      omega arith,
      packet-HasHeaders,
      inr (omega arith, omega arith, omega arith, inl refl),
    ),
  );
}

abbrev image_consumer : Consumer (iap_https_firmware_body_callback good_flash) firmware_buffer_len 3
image_consumer = firmware_consumer good_flash good_flash-Works 3 (omega arith) (omega arith)

https_send_request-Exchanged_example :
    Returns
      (Exchanged tls
        (iap_https_firmware_body_callback good_flash)
        firmware_buffer_len
        3
        image_consumer
        (image_request good_flash good_flash-Works tls memory online)
        secured.log
        (http_get_request (codes "/f") (codes "h"))
        (7 ∷ 8 ∷ 9 ∷ []))
      (https_send_request tls
        (memory 6)
        6
        (some secured)
        (some (image_request good_flash good_flash-Works tls memory online))
        zeros
        device)
https_send_request-Exchanged_example =
    https_send_request-Exchanged tls (iap_https_firmware_body_callback good_flash)
      firmware_buffer_len 3 image_consumer
      (image_request good_flash good_flash-Works tls memory online) (memory 6) 6 34 secured zeros
      device valid refl refl refl (length-replicate {A = ℕ} firmware_buffer_len 0) (omega arith)
      (omega arith) (omega arith) (inl (device-Idle, refl)) (omega arith) memory-Allocates
      (answer-Serves.takes) (answer-Serves.arrives)

-- A download is about to be requested, and then the task goes back to its wait.
abbrev requesting : Station ℕ
requesting = record { system = online; phase = downloading }

abbrev download_turns : List Turn
download_turns = task true good_timers ∷ []

download_turns-Opens : Opens good_flash tls memory download_turns requesting
download_turns-Opens =
    (rw opens refl, Ensures-trivial (turn good_flash tls memory (task true good_timers) requesting))

run_turns-StationSecure_example : StaysSecure good_flash tls memory download_turns requesting
run_turns-StationSecure_example =
    run_turns-StationSecure good_flash tls memory download_turns requesting tt download_turns-Opens

iap_https_check_for_update-SameFirmware_example :
    Ensures
      (λ s'. SameFirmware device s'.ota)
      (iap_https_check_for_update good_flash tls memory online)
iap_https_check_for_update-SameFirmware_example =
    iap_https_check_for_update-SameFirmware good_flash tls memory online
