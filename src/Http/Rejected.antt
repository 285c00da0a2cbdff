-- ===== src/Http/Rejected.antt =====
-- Responses that main/https_client.c does not accept: what it reports, and how the request ends.
use esp32_ota_https.Prelude.{
  if◌then◌else◌, ℤ, pos, ◌==ℤ◌, Run, done, ℕ, ◌≡◌, Bool, false, Option, none, some, List,
}
use esp32_ota_https.CText.{codes, strstr, scan_status_line}
use esp32_ota_https.Http.{
  HttpErr, invalid_status_line, version_not_supported, non_200_status_code, HttpRequest, Exchange,
  http_parse_key_value_int,
}
use esp32_ota_https.Http.Callback.{end_of_headers}
use esp32_ota_https.Tls.{Tls}
use esp32_ota_https.Http.Headers.{received, headers}

-- What becomes of a response whose headers are in its first packet.
pub data Answer : Type 0 where
  accepted ignored : Answer
  reported : HttpErr → ℤ → Answer

abbrev pub answer_without_length : Option ℤ → Answer
answer_without_length none = ignored
answer_without_length (some size) = accepted

-- The status line, as the version and the code, and the content length decide.
abbrev pub answer_to : Option (ℤ × ℤ × ℤ) → Option ℤ → Answer
answer_to none content = reported invalid_status_line (pos 0)
answer_to (some (major, minor, status)) content =
    if major ==ℤ pos 1
    then if status ==ℤ pos 200
      then answer_without_length content
      else reported non_200_status_code status
    else reported version_not_supported (pos 0)

-- The headers in a first packet of `n` bytes, as the program reads them.
pub record HeadersRead {A : Type 0} (r : HttpRequest A) (tls_buffer : List ℕ) (n i : ℕ)
    (buffer : List ℕ) (scanned : Option (ℤ × ℤ × ℤ)) (content : Option ℤ) : Type 0 where
  pub found : strstr (received r tls_buffer n buffer) end_of_headers ≡ done (some i)
  pub status : scan_status_line (headers r tls_buffer n i buffer) ≡ done scanned
  pub length_of_body :
      http_parse_key_value_int (headers r tls_buffer n i buffer) (codes "Content-Length:")
      ≡ done content

module _ {A : Type 0} (f : HttpErr → ℤ → A → Run A) (handled : HttpErr → ℤ → A → A)
    (handles : (e : HttpErr) (info : ℤ) (a : A) → f e info a ≡ done (handled e info a))
    (r : HttpRequest A) (cb : r.error_callback ≡ some f) where
  -- What the application is left with.
  abbrev pub app_after : Answer → A → A
  app_after accepted a = a
  app_after ignored a = a
  app_after (reported e info) a = handled e info a

  -- The packet is dropped, and the application has been told this.
  abbrev pub Dropped : A → Bool × Exchange A → Type 0
  Dropped a out = (out.0 ≡ false) × (out.1.app ≡ a)
