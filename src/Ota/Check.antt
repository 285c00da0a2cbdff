-- ===== src/Ota/Check.antt =====
-- A check for an update from end to end: the round of `iap_https_task` of main/iap_https.c that
-- fetches the metadata.
use esp32_ota_https.Prelude.{
  ℤ, pos, length, done, Returns, Returns->>=, Returns-mono, ℕ, ◌+◌, ◌-◌, ◌^◌, ◌≤◌, ◌<◌, ◌≡◌, refl,
  ap, true, false, Option, some, List, ◌++◌, arith,
}
use esp32_ota_https.CText.{codes}
use esp32_ota_https.Flash.{Platform}
use esp32_ota_https.Http.{
  success, ContinueReceiving, stop_receiving, HttpRequest, HttpContext, http_parse_key_value_int,
  http_parse_key_value_string, https_validate_request,
}
use esp32_ota_https.Http.Response.{response_body}
use esp32_ota_https.Http.Request.{Mallocs, http_get_request, request_len, https_send_request}
use esp32_ota_https.Http.Sending.{TextSent, Allocates, Answered, https_send_request-Answered}
use esp32_ota_https.Http.WholeResponse.{Copes, response-BodyDelivered}
use esp32_ota_https.Tls.{TlsLog, Mbedtls, Tls}
use esp32_ota_https.Ota.{Config, Ota, path_size, iap_https_metadata_body_callback}
use esp32_ota_https.Ota.Task.{
  System, metadata_buffer_len, text_in, http_metadata_request, TimerCalls, connect,
  iap_https_check_for_update, task_round,
}
use esp32_ota_https.Ota.Metadata.{MetadataDone, iap_https_metadata_body_callback-done}
use esp32_ota_https.Ota.Round.{Serves}
use esp32_ota_https.Ota.Timer.{TimersWork, TimerSet, iap_https_prepare_timer-TimerPrepared}

-- The metadata text `body` reads in this way, whatever follows it in the buffer.
pub record ReadsAs (body : List ℕ) (size : ℕ) (interval version : Option ℤ) (file : Option (List ℕ))
    : Type 0 where
  pub reads_interval :
      (rest : List ℕ)
      → length rest ≡ metadata_buffer_len - size
      → http_parse_key_value_int (body ++ rest) (codes "INTERVAL=") ≡ done interval
  pub reads_version :
      (rest : List ℕ)
      → length rest ≡ metadata_buffer_len - size
      → http_parse_key_value_int (body ++ rest) (codes "VERSION=") ≡ done version
  pub reads_file :
      (rest : List ℕ)
      → length rest ≡ metadata_buffer_len - size
      → http_parse_key_value_string (body ++ rest) (codes "FILE=") path_size ≡ done file

-- What the callback for the metadata leaves behind.
abbrev pub MetadataRead : Option ℤ → Option ℤ → Option (List ℕ) → Ota → Ota → Type 0
MetadataRead interval version file o o' = MetadataDone interval version file o (stop_receiving, o')

MetadataDone→MetadataRead :
    (interval version : Option ℤ) (file : Option (List ℕ)) (o : Ota) (out : ContinueReceiving × Ota)
    → MetadataDone interval version file o out
    → MetadataRead interval version file o out.1
MetadataDone→MetadataRead interval version file o out h = record {
  stops = refl;
  requests = h.requests;
  polls = h.polls;
  keeps_version = h.keeps_version;
  keeps_iap = h.keeps_iap;
  names = h.names;
}

metadata-Copes :
    {Cert : Type 0} (m : Mbedtls Cert) (config : Config) (buffer body : List ℕ) (c : HttpContext)
    (size : ℕ) (interval version : Option ℤ) (file : Option (List ℕ)) (o : Ota)
    → ReadsAs body size interval version file
    → Copes m iap_https_metadata_body_callback
        (http_metadata_request config buffer)
        c
        size
        o
        (MetadataRead interval version file o)
        body
metadata-Copes m config buffer body c size interval version file o reads rest n =
    Returns-mono (MetadataDone interval version file o) _
      (iap_https_metadata_body_callback (body ++ rest) size o)
      (MetadataDone→MetadataRead interval version file o)
      (iap_https_metadata_body_callback-done (body ++ rest) size o interval version file
        (reads.reads_interval rest n) (reads.reads_version rest n) (reads.reads_file rest n))

module _ {Cert : Type 0} (p : Platform) (m : Mbedtls Cert) (mem : ℕ → Mallocs) where
  -- The request for the metadata.
  abbrev pub metadata_request : System Cert → HttpRequest Ota
  metadata_request s = http_metadata_request s.ota.config s.metadata_buffer

  abbrev metadata_text : System Cert → List ℕ
  metadata_text s =
      http_get_request (text_in s.ota.config.server_metadata_path) s.ota.config.server_host_name

  -- What a check leaves behind, for metadata that read in this way.
  abbrev pub MetadataFetched :
      Option ℤ → Option ℤ → Option (List ℕ) → System Cert → TlsLog → System Cert → Type 0
  MetadataFetched interval version file s before s' =
      MetadataRead interval version file s.ota s'.ota
      × ((c : Tls Cert) × (s'.tls_context ≡ some c)
          × (c.is_valid ≡ false)
          × TextSent before (metadata_text s) c.log)

  iap_https_check_for_update-MetadataFetched :
      (s : System Cert) (c : Tls Cert) (i size : ℕ) (interval version : Option ℤ)
      (file : Option (List ℕ))
      → connect p m mem s.tls_context ≡ done (pos 0, c)
      → https_validate_request (some (metadata_request s)) ≡ success
      → length (text_in s.ota.config.server_metadata_path)
          + length s.ota.config.server_host_name
          + 29
        < 2 ^ 32
      → Allocates
          (mem s.request_nr)
          (request_len (text_in s.ota.config.server_metadata_path) s.ota.config.server_host_name)
      → length s.metadata_buffer ≡ metadata_buffer_len
      → size ≤ metadata_buffer_len
      → Serves m (metadata_request s) s.metadata_buffer i size c
      → ReadsAs (response_body i size c.net.read_replies) size interval version file
      → Returns
          (MetadataFetched interval version file s c.log)
          (iap_https_check_for_update p m mem s)
  unfolding iap_https_check_for_update
  iap_https_check_for_update-MetadataFetched s c i size interval version file opens valid fits
        blocks room small serves reads =
      let r = metadata_request s in
      let Q = MetadataRead interval version file s.ota in
      rw opens (
        Returns->>= (Answered m r Q c.log (metadata_text s))
          (MetadataFetched interval version file s c.log)
          (https_send_request m (mem s.request_nr) s.request_nr (some c) (some r) s.metadata_buffer
            s.ota)
          _
          (https_send_request-Answered m r Q (mem s.request_nr) s.request_nr c s.metadata_buffer
            s.ota valid fits blocks (serves.takes)
            (λ context c'.
              response-BodyDelivered m iap_https_metadata_body_callback r context size s.ota Q
                c.net.read_replies c' i
                (record { context = context; buffer = s.metadata_buffer; app = s.ota }) refl refl
                refl refl room (omega arith) (omega arith) small (serves.arrives)
                (metadata-Copes m s.ota.config s.metadata_buffer
                  (response_body i size c.net.read_replies) context size interval version file s.ota
                  reads)))
          (λ out (good, got, closed). (got, closed)))

  -- A round of the task for a check, with no download due, on a connection that has passed all checks:
  -- the request for the metadata is sent; an image is requested exactly if the metadata name another version and a file;
  -- the interval and the path are taken over; there is no timer if that interval is 0, and
  -- otherwise one that runs, with the ticks of the interval, in milliseconds modulo 2^32, as its
  -- period; the bit is cleared, and nothing else is changed behind the request. This is so for
  -- metadata of at most 512 bytes that read the same whatever follows them in the buffer, with all
  -- memory allocated and all calls for the timer successful, for a server that takes the request and
  -- answers it with version 1, status 200, the length and the whole of the metadata, and the headers
  -- in the first packet, in packets for which the response buffer has room.
  pub task_round-MetadataFetched :
      (s : System Cert) (timers : TimerCalls) (c : Tls Cert) (i size : ℕ)
      (interval version : Option ℤ) (file : Option (List ℕ))
      → TimersWork timers
      → connect p m mem s.tls_context ≡ done (pos 0, c)
      → https_validate_request (some (metadata_request s)) ≡ success
      → length (text_in s.ota.config.server_metadata_path)
          + length s.ota.config.server_host_name
          + 29
        < 2 ^ 32
      → Allocates
          (mem s.request_nr)
          (request_len (text_in s.ota.config.server_metadata_path) s.ota.config.server_host_name)
      → length s.metadata_buffer ≡ metadata_buffer_len
      → size ≤ metadata_buffer_len
      → Serves m (metadata_request s) s.metadata_buffer i size c
      → ReadsAs (response_body i size c.net.read_replies) size interval version file
      → Returns
          (λ s'.
            (fetched : System Cert) × MetadataFetched interval version file s c.log fetched
            × TimerSet timers s'.ota
            × (s' ≡ record fetched {
              ota = record (fetched.ota) {
                check_for_update_bit = false;
                check_for_updates_timer = s'.ota.check_for_updates_timer;
                timer_runs = s'.ota.timer_runs;
              };
            }))
          (task_round p m mem timers true false s)
  unfolding task_round
  task_round-MetadataFetched s timers c i size interval version file works opens valid fits blocks
        room small serves reads =
      Returns->>= (MetadataFetched interval version file s c.log) _
        (iap_https_check_for_update p m mem s) _
        (iap_https_check_for_update-MetadataFetched s c i size interval version file opens valid
          fits blocks room small serves reads)
        (λ fetched h.
          let (set, same) = iap_https_prepare_timer-TimerPrepared timers fetched.ota works in
          (
            fetched,
            h,
            set,
            ap (λ o. record fetched { ota = record o { check_for_update_bit = false } }) same,
          ))
