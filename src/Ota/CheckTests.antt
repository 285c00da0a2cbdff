-- ===== src/Ota/CheckTests.antt =====
-- A whole check of main/iap_https.c on a concrete server.
use esp32_ota_https.Prelude.{
  pos, negsuc, replicate, length-replicate, Run, done, ◌>>=◌, Ensures, Returns, memcpy, ℕ, ◌≡◌,
  refl, inl, inr, true, false, some, List, [], ◌∷◌, ◌++◌, arith,
}
use esp32_ota_https.CText.{
  codes, crlf, strstr, skip_space, read_digits, read_sign, to_int, atoi, scan_int, scan_text,
  scan_status_line, strncpy, digits, sprintf_int,
}
use esp32_ota_https.Iap.Sample.{
  at_label, good_flash, good_flash-MallocGives, good_flash-BootKnown, good_flash-FindsByLabel,
}
use esp32_ota_https.Http.{
  success, http_parse_key_value_int, copy_line, http_parse_key_value_string, https_validate_request,
  reset_exchange, call_body, accumulate,
}
use esp32_ota_https.Http.Sending.{Allocates}
use esp32_ota_https.Tls.{
  connected, handshaken, verified, pinned, Net, Tls, create_context_for, wifi_tls_create_context,
  wifi_tls_reset_context, wifi_tls_disconnect, init_steps, wifi_tls_init_context, handshake_loop,
  wifi_tls_handshake,
}
use esp32_ota_https.Tls.Pinning.{memcmp_equal, compare_keys, wifi_tls_cert_pinning}
use esp32_ota_https.Tls.Connection.{
  check_pinning, check_certificates, connect_to_port, open_connection, wifi_tls_connect, write_loop,
  read_loop, wifi_tls_send_request,
}
use esp32_ota_https.Ota.Task.{
  System, metadata_buffer_len, iap_https_prepare_timer, iap_https_trigger_processing,
  iap_https_periodic_check_timer_callback, connect, iap_https_check_for_update, request_image,
  task_round, iap_https_init,
}
use esp32_ota_https.Ota.Round.{Serves}
use esp32_ota_https.Ota.Check.{
  ReadsAs, metadata_request, MetadataFetched, task_round-MetadataFetched,
}
use esp32_ota_https.Ota.Sample.{
  left_open, left_open-Idle, tls, zeros, device, server, online, memory, good_timers,
  good_timers-TimersWork,
}
use esp32_ota_https.Http.Headers.{HasHeaders}
use esp32_ota_https.Ota.Timer.{TimerSet}
use esp32_ota_https.Ota.Sound.{IsSound}
use esp32_ota_https.Ota.Schedule.{
  Station, Turn, task, check_now, timer_fires, turn, run_turns, started,
}
use esp32_ota_https.Ota.Schedule.Sound.{run_turns-iap_https_init}
use esp32_ota_https.Iap.Boot.{find-ne-boot}
use esp32_ota_https.Iap.{iap_init, iap_find_next_boot_partition}
use esp32_ota_https.Ota.{Config, compare_version, process_version, iap_https_metadata_body_callback}
use esp32_ota_https.Http.Request.{
  https_create_context_for_request, send_with_context, send_valid_request, https_send_request,
}
use esp32_ota_https.Http.Callback.{
  take_body, read_content_length, check_status, process_headers, process_whole_body, process_body,
  after_headers, process_packet, https_tls_callback,
}

abbrev metadata_text_sent : List ℕ
metadata_text_sent =
    codes "INTERVAL=5" ++ crlf ++ codes "VERSION=7" ++ crlf ++ codes "FILE=/g" ++ crlf

-- The first ten bytes of the metadata stand behind the headers.
abbrev metadata_head : List ℕ
metadata_head =
    codes "HTTP/1.1 200 OK"
    ++ crlf
    ++ codes "Content-Length: 32"
    ++ crlf
    ++ crlf
    ++ codes "INTERVAL=5"

abbrev metadata_tail : List ℕ
metadata_tail = crlf ++ codes "VERSION=7" ++ crlf ++ codes "FILE=/g" ++ crlf

abbrev metadata_answer : Net
metadata_answer = record {
  handshake_replies = pos 0 ∷ [];
  write_replies = pos 32 ∷ [];
  read_replies = (pos 49, metadata_head) ∷ (negsuc 99, []) ∷ (pos 22, metadata_tail) ∷ [];
}

abbrev metadata_server : Tls ℕ
metadata_server = record server { net = metadata_answer }

abbrev curious : System ℕ
curious = record online {
  ota = record device {
    config = record (device.config) { server_metadata_path = codes "/m" ++ 0 ∷ [] };
    download_image_bit = false;
  };
  tls_context = some metadata_server;
  metadata_buffer = replicate metadata_buffer_len 0;
}

abbrev metadata_connection : Tls ℕ
metadata_connection = record metadata_server {
  is_valid = true;
  peer_cert = some 1;
  net = record metadata_answer { handshake_replies = [] };
  log = pinned (pos 0) ∷ verified 0 ∷ handshaken (pos 0) ∷ connected (pos 0) ∷ [];
}

connects : connect good_flash tls memory (some metadata_server) ≡ done (pos 0, metadata_connection)
unfolding connect wifi_tls_connect wifi_tls_init_context init_steps open_connection
    wifi_tls_handshake handshake_loop check_certificates check_pinning wifi_tls_cert_pinning
    compare_keys memcmp_equal connect_to_port sprintf_int digits
connects = refl

valid_check :
    https_validate_request (some (metadata_request good_flash tls memory curious)) ≡ success
unfolding https_validate_request
valid_check = refl

blocks-Allocates : Allocates (memory 6) 32
blocks-Allocates = record {
  context_block = [];
  request_block = replicate 32 7;
  response_block = [];
  gives_context = refl;
  gives_request = refl;
  gives_response = refl;
  as_large = refl;
}

metadata-HasHeaders :
    HasHeaders
      (metadata_request good_flash tls memory curious)
      metadata_head
      49
      35
      32
      (replicate metadata_buffer_len 0)
unfolding strstr scan_status_line scan_text scan_int skip_space read_sign read_digits to_int atoi
    http_parse_key_value_int
metadata-HasHeaders = record { minor = pos 1; found = refl; status = refl; content = refl }

metadata-Serves :
    Serves tls
      (metadata_request good_flash tls memory curious)
      (replicate metadata_buffer_len 0)
      35
      32
      metadata_connection
metadata-Serves = record {
  takes = (omega arith, tt);
  arrives = (
    omega arith,
    omega arith,
    omega arith,
    omega arith,
    metadata-HasHeaders,
    inr (refl, (omega arith, omega arith, omega arith, inl refl)),
  );
}

metadata-ReadsAs :
    ReadsAs metadata_text_sent 32 (some (pos 5)) (some (pos 7)) (some (codes "/g" ++ 0 ∷ []))
unfolding http_parse_key_value_int http_parse_key_value_string strstr copy_line atoi skip_space
    read_sign read_digits to_int
metadata-ReadsAs = record {
  reads_interval = λ rest n. refl;
  reads_version = λ rest n. refl;
  reads_file = λ rest n. refl;
}

task_round-MetadataFetched_example :
    Returns
      (λ s'.
        (fetched : System ℕ) × MetadataFetched good_flash tls memory
          (some (pos 5))
          (some (pos 7))
          (some (codes "/g" ++ 0 ∷ []))
          curious
          metadata_connection.log
          fetched
        × TimerSet good_timers s'.ota
        × (s' ≡ record fetched {
          ota = record (fetched.ota) {
            check_for_update_bit = false;
            check_for_updates_timer = s'.ota.check_for_updates_timer;
            timer_runs = s'.ota.timer_runs;
          };
        }))
      (task_round good_flash tls memory good_timers true false curious)
task_round-MetadataFetched_example =
    task_round-MetadataFetched good_flash tls memory curious good_timers metadata_connection 35 32
      (some (pos 5)) (some (pos 7)) (some (codes "/g" ++ 0 ∷ [])) good_timers-TimersWork connects
      valid_check (omega arith) blocks-Allocates (length-replicate {A = ℕ} metadata_buffer_len 0)
      (omega arith) metadata-Serves metadata-ReadsAs

left_open-IsSound : IsSound good_flash left_open
unfolding iap_find_next_boot_partition
left_open-IsSound = record {
  valid = left_open-Idle.valid;
  spares = (
    λ boot b. (find-ne-boot good_flash [] boot (at_label "ota_0") good_flash-FindsByLabel b refl).1,
    tt,
  );
  total_fits = omega arith;
}

-- The device is set up and fetches metadata that name another version.
abbrev set_up : Config
set_up = record (curious.ota.config) { server_port = codes "443" }

abbrev checking_turns : List Turn
checking_turns =
    check_now
    ∷ task true good_timers
    ∷ timer_fires
    ∷ task true good_timers
    ∷ task true good_timers
    ∷ task true good_timers
    ∷ task true good_timers
    ∷ []

abbrev checked_device : Run (Station ℕ)
checked_device =
    iap_https_init good_flash tls memory metadata_answer (replicate 4 true) true good_timers
      (replicate metadata_buffer_len 0) zeros set_up left_open
    >>= λ system. run_turns good_flash tls memory checking_turns (started system)

run_turns-iap_https_init_example :
    Ensures
      (λ s.
        IsSound good_flash s.system.ota
        × Ensures
            (λ system. IsSound good_flash system.ota)
            (request_image good_flash tls memory s.system))
      checked_device
run_turns-iap_https_init_example =
    run_turns-iap_https_init good_flash good_flash-MallocGives good_flash-BootKnown
      good_flash-FindsByLabel tls memory metadata_answer (replicate 4 true) true good_timers
      (replicate metadata_buffer_len 0) zeros set_up left_open checking_turns left_open-IsSound

-- The run returns, and has found the other version.
fetches : Returns (λ s. s.system.ota.download_image_bit ≡ true) checked_device
unfolding iap_https_init wifi_tls_create_context create_context_for run_turns turn
    iap_https_trigger_processing iap_https_periodic_check_timer_callback iap_https_prepare_timer
    iap_init iap_https_check_for_update connect wifi_tls_connect wifi_tls_init_context init_steps
    open_connection connect_to_port sprintf_int digits wifi_tls_handshake handshake_loop
    check_certificates check_pinning wifi_tls_cert_pinning compare_keys memcmp_equal
    https_send_request https_validate_request send_valid_request send_with_context
    https_create_context_for_request wifi_tls_send_request write_loop read_loop https_tls_callback
    process_packet reset_exchange accumulate process_headers check_status read_content_length
    take_body after_headers process_body process_whole_body call_body
    iap_https_metadata_body_callback process_version compare_version strncpy
    http_parse_key_value_int http_parse_key_value_string strstr copy_line atoi skip_space read_sign
    read_digits to_int scan_status_line scan_text scan_int wifi_tls_disconnect
    wifi_tls_reset_context memcpy
fetches = refl
