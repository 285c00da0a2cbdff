-- ===== src/Ota/Sample.antt =====
-- Concrete states of main/iap_https.c, and a concrete mbedTLS, for the tests.
use esp32_ota_https.Prelude.{
  pos, negsuc, replicate, length-replicate, ℕ, ◌/◌, refl, true, false, none, some, List, [], ◌∷◌,
  ◌++◌, arith,
}
use esp32_ota_https.CText.{codes, crlf}
use esp32_ota_https.Iap.{page_size}
use esp32_ota_https.Iap.Session.{Activates}
use esp32_ota_https.Iap.Sample.{good_flash, pending, good_flash-MallocGives, good_flash-BootKnown}
use esp32_ota_https.Http.Request.{Mallocs}
use esp32_ota_https.Ota.{Config, Ota}
use esp32_ota_https.Ota.Update.{WritesSucceed}
use esp32_ota_https.Ota.Start.{Idle}
use esp32_ota_https.Ota.Download.{Works}
use esp32_ota_https.Ota.Task.{System, firmware_buffer_len, TimerCalls}
use esp32_ota_https.Tls.{Mbedtls, Net, Tls}
use esp32_ota_https.Ota.Timer.{TimersWork}

abbrev pub config : Config
config = record {
  current_software_version = pos 1;
  server_host_name = [];
  server_port = [];
  server_root_ca_public_key_pem = [];
  peer_public_key_pem = [];
  server_metadata_path = [];
  server_firmware_path = [];
  polling_interval_s = 60;
  auto_reboot = true;
}

-- Two bytes have been received.
abbrev pub updating : Ota
updating = record {
  config = config;
  check_for_update_bit = false;
  download_image_bit = true;
  check_for_updates_timer = none;
  timer_runs = false;
  has_iap_session = true;
  has_new_firmware = false;
  total_nof_bytes_received = 2;
  restarted = false;
  iap = pending;
}

pub good_flash-WritesSucceed : WritesSucceed good_flash
good_flash-WritesSucceed log handle bytes = refl

pub good_flash-Activates : Activates good_flash
good_flash-Activates = record { ends = λ log handle. refl; sets = λ log target. refl }

-- An earlier update has left its session open, with two bytes in the page buffer.
abbrev pub left_open : Ota
left_open = record updating { has_iap_session = false }

pub left_open-Idle : Idle left_open
left_open-Idle = record {
  no_session = refl;
  is_initialized = refl;
  valid = record {
    open_initialized = λ _. refl;
    open_programs = λ _. refl;
    buffer_fits = (length-replicate {A = ℕ} page_size 9, omega arith);
    activations = tt;
  };
}

pub good_flash-Works : Works good_flash
good_flash-Works = record {
  gives = good_flash-MallocGives;
  known = good_flash-BootKnown;
  writes = good_flash-WritesSucceed;
  activates = good_flash-Activates;
}

abbrev pub tls : Mbedtls ℕ
tls = record {
  want_read = negsuc 99;
  want_write = negsuc 98;
  ctr_drbg_seed = λ log. pos 0;
  x509_crt_parse = λ pem. (pos 0, 1);
  ssl_setup = λ log. pos 0;
  net_connect = λ log host port. pos 0;
  ssl_get_verify_result = λ log. 0;
  ssl_get_peer_cert = λ log. some 1;
  pk_write_pubkey_der = λ cert buffer. (pos 0, buffer);
  calloc = λ log. (true, true);
}

abbrev pub zeros : List ℕ
zeros = replicate firmware_buffer_len 0

-- The image "/f" on the server "h", and the device with an update left open.
abbrev pub device : Ota
device = record left_open {
  config = record config {
    server_host_name = codes "h";
    server_firmware_path = codes "/f" ++ 0 ∷ [];
  };
}

pub device-Idle : Idle device
device-Idle = record { no_session = refl; is_initialized = refl; valid = left_open-Idle.valid }

-- The image has three bytes, of which two stand behind the headers.
abbrev pub head_packet : List ℕ
head_packet =
    codes "HTTP/1.1 200 OK" ++ crlf ++ codes "Content-Length: 3" ++ crlf ++ crlf ++ (7 ∷ 8 ∷ [])

abbrev pub answer : Net
answer = record {
  handshake_replies = negsuc 98 ∷ pos 0 ∷ [];
  write_replies = pos 30 ∷ negsuc 98 ∷ pos 2 ∷ [];
  read_replies = (negsuc 99, head_packet) ∷ (pos 40, head_packet) ∷ (pos 1, 9 ∷ 8 ∷ []) ∷ [];
}

abbrev pub server : Tls ℕ
server = record {
  is_valid = false;
  server_host_name = codes "h";
  server_root_ca_public_key_pem = [];
  peer_public_key_pem = [];
  server_port = 443;
  peer_cert = none;
  net = answer;
  log = [];
}

abbrev pub online : System ℕ
online = record {
  ota = device;
  tls_context = some server;
  request_nr = 6;
  metadata_buffer = [];
  firmware_buffer = zeros;
}

abbrev pub memory : ℕ → Mallocs
memory nr = record {
  context_block = some [];
  request_block = some (replicate 32 7);
  response_block = some [];
}

-- Every call for the timer succeeds, and a tick has 10 ms, as in sdkconfig.
abbrev pub good_timers : TimerCalls
good_timers = record {
  created = true;
  changed = true;
  reset = true;
  deleted = true;
  ms_to_ticks = λ ms. ms / 10;
}

pub good_timers-TimersWork : TimersWork good_timers
good_timers-TimersWork = record { creates = refl; changes = refl; resets = refl; deletes = refl }
