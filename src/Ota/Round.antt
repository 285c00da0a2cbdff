-- ===== src/Ota/Round.antt =====
-- A download from end to end: the round of `iap_https_task` of main/iap_https.c that fetches the
-- image, from the connection to the flash.
use esp32_ota_https.Prelude.{done, blocked, ℕ, ◌≡◌, ◌⊎◌, Bool, true, false, some, List}
use esp32_ota_https.Flash.{Platform}
use esp32_ota_https.Http.{HttpRequest}
use esp32_ota_https.Http.Response.{ResponseArrives}
use esp32_ota_https.Http.Request.{Mallocs, http_get_request, text_of, request_len}
use esp32_ota_https.Http.Sending.{TextSent}
use esp32_ota_https.Tls.{TlsLog, Mbedtls, Tls}
use esp32_ota_https.Tls.Send.{Takes}
use esp32_ota_https.Ota.{Ota}
use esp32_ota_https.Ota.Task.{System, text_in, http_firmware_data_request, TimerCalls, task_round}
use esp32_ota_https.Ota.Download.{Works, NotStarted, InstalledAny}

-- How the server answers a request for the image, with a body of `size` bytes behind headers of
-- `i + 4` bytes: it takes the request, and the response arrives.
pub record Serves {Cert : Type 0} (m : Mbedtls Cert) (r : HttpRequest Ota) (buffer : List ℕ)
    (i size : ℕ) (c : Tls Cert) : Type 0 where
  pub takes : Takes m (request_len (text_of r.path) (text_of r.host)) c.net.write_replies
  pub arrives : ResponseArrives m r i size buffer c.net.read_replies

module _ {Cert : Type 0} (p : Platform) (works : Works p) (m : Mbedtls Cert)
    (mem : ℕ → Mallocs) where
  -- The request for the image.
  abbrev pub image_request : System Cert → HttpRequest Ota
  image_request s = http_firmware_data_request p s.ota.config s.firmware_buffer

  -- What a request for an image leaves behind: the image is installed, or no session could be opened
  -- for it; the request has been sent, and the connection is closed, but for a device that has
  -- restarted.
  abbrev pub ImageInstalled : System Cert → TlsLog → List ℕ → System Cert → Type 0
  ImageInstalled s before bytes s' =
      (NotStarted s'.ota ⊎ InstalledAny p works bytes s'.ota)
      × ((c : Tls Cert) × (s'.tls_context ≡ some c)
          × ((c.is_valid ≡ false) ⊎ (s'.ota.restarted ≡ true))
          × TextSent before
              (http_get_request (text_in s.ota.config.server_firmware_path)
                s.ota.config.server_host_name)
              c.log)

  -- The bit for the download is cleared.
  abbrev pub cleared : System Cert → System Cert
  cleared s' = record s' { ota = record (s'.ota) { download_image_bit = false } }

  -- How a round of the task goes on from the state that a request for an image leaves: the device
  -- restarts, and nothing follows; or the bit is cleared, and the round is over.
  abbrev pub GoesOn : TimerCalls → Bool → System Cert → System Cert → Type 0
  GoesOn timers check_bit s s' =
      (s'.ota.restarted ≡ true) × (task_round p m mem timers check_bit true s ≡ blocked)
      ⊎ (s'.ota.restarted ≡ false)
        × (task_round p m mem timers check_bit true s ≡ done (cleared s'))
