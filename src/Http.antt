-- ===== src/Http.antt =====
-- main/https_client.c and main/https_client.h: one HTTP request on an open TLS connection.
--
-- `http_request_t` is `HttpRequest`, `http_request_context_t` is `HttpContext`. The buffer that a
-- request points to is shared with the application, whose own state has the type `A`: it stands
-- beside the context in an `Exchange`, and the callbacks of the application read it.
pub mod Callback
pub mod Lines
pub mod Request
pub mod Stream
pub mod Taken
pub mod Headers
pub mod First
pub mod Created
pub mod Download
pub mod Response
pub mod Sending
pub mod Frame
pub mod Kept
pub mod Rejected
pub mod Spanning
pub mod Whole
pub mod WholeResponse
mod Tests
mod RejectedTests
mod WholeTests
use esp32_ota_https.Prelude.{
  ◌==◌, if◌then◌else◌, ℤ, length, drop, replicate, Run, done, fault, ◌>>=◌, memcpy, ℕ, zero, suc,
  ◌+◌, ◌-◌, ◌%◌, ◌^◌, Bool, true, false, ◌||◌, Option, none, some, List, [], ◌∷◌, ◌++◌,
}
use esp32_ota_https.CText.{strstr, atoi}

-- `http_err_t`.
pub data HttpErr : Type 0 where
  success invalid_args out_of_memory not_implemented buffer_too_small send_failed : HttpErr
  invalid_status_line version_not_supported non_200_status_code : HttpErr

pub data ResponseMode : Type 0 where
  wait_for_complete_body stream_body : ResponseMode

pub data ContinueReceiving : Type 0 where
  continue_receiving stop_receiving : ContinueReceiving

-- `HTTP_GET`, the only method of the enumeration.
abbrev pub http_get : ℕ
http_get = 0

-- The callbacks take the application's state and return the new one. The body callback is also
-- given the bytes of the response buffer, and the number of those that are new.
pub record HttpRequest (A : Type 0) : Type 0 where
  pub verb : ℕ
  pub host : Option (List ℕ)
  pub path : Option (List ℕ)
  pub response_buffer : Option (List ℕ)
  pub response_buffer_len : ℕ
  pub error_callback : Option (HttpErr → ℤ → A → Run A)
  pub response_mode : ResponseMode
  pub body_callback : Option (List ℕ → ℕ → A → Run (ContinueReceiving × A))

pub record HttpContext : Type 0 where
  pub request_id : ℕ
  pub response_buffer_count : ℕ
  pub response_body_total_count : ℕ
  pub content_length : ℕ
  pub is_processing_headers : Bool
  pub tls_request_buffer : List ℕ
  pub tls_request_buffer_size : ℕ
  pub tls_response_buffer : List ℕ
  pub tls_response_buffer_size : ℕ

-- What a request changes while it is processed: its context, its buffer, the application.
pub record Exchange (A : Type 0) : Type 0 where
  pub context : HttpContext
  pub buffer : List ℕ
  pub app : A

abbrev pub is_null : {A : Type 0} → Option A → Bool
is_null none = true
is_null (some a) = false

-- `!path || !path[0]`
abbrev pub is_null_or_empty : Option (List ℕ) → Bool
is_null_or_empty none = true
is_null_or_empty (some []) = true
is_null_or_empty (some (c ∷ text)) = c == 0

-- `http_parse_key_value_int`: the value, or none where it returns -1.
unfoldable pub http_parse_key_value_int : List ℕ → List ℕ → Run (Option ℤ)
http_parse_key_value_int buffer key = do
  loc ← strstr buffer key
  elim loc [ none ↦ done none | some i ↦ do v ← atoi (drop (i + length key) buffer); done (some v) ]

-- The loop of `http_parse_key_value_string`: at most `n` bytes, up to the end of the line or text.
unfoldable pub copy_line : ℕ → List ℕ → Run (List ℕ)
copy_line zero src = done []
copy_line (suc n) [] = fault
copy_line (suc n) (c ∷ src) =
    let later = do copied ← copy_line n src; done (c ∷ copied)
    in if c == 0 || c == 13 || c == 10 then done [] else later

-- `http_parse_key_value_string`: the bytes that it writes to `str`, or none where it returns -1.
unfoldable pub http_parse_key_value_string : List ℕ → List ℕ → ℕ → Run (Option (List ℕ))
unfolding copy_line
http_parse_key_value_string buffer key str_len = do
  loc ← strstr buffer key
  elim loc [
    | none ↦ done none
    | some i ↦ do
      copied ← copy_line (str_len - 1) (drop (i + length key) buffer)
      done (some (copied ++ 0 ∷ []))
  ]

module _ {A : Type 0} where
  -- `https_validate_request`
  unfoldable pub https_validate_request : Option (HttpRequest A) → HttpErr
  https_validate_request none = invalid_args
  https_validate_request (some r) =
      if is_null r.host
      then invalid_args
      else if is_null_or_empty r.path
      then invalid_args
      else if is_null r.response_buffer
      then invalid_args
      else if is_null r.error_callback
      then invalid_args
      else if is_null r.body_callback
      then invalid_args
      else if r.verb == http_get
      then success
      else not_implemented

  -- The first packet resets the state, and fills the buffer with zeros.
  unfoldable pub reset_exchange : HttpRequest A → Exchange A → Run (Exchange A)
  reset_exchange r x = do
    b ← memcpy x.buffer 0 (replicate r.response_buffer_len 0) r.response_buffer_len
    done (record x {
      context = record (x.context) {
        response_buffer_count = 0;
        response_body_total_count = 0;
        content_length = 0;
        is_processing_headers = true;
      };
      buffer = b;
    })

  -- The calls of the application's callbacks, which are not NULL in a request that is valid.
  unfoldable pub call_error : HttpRequest A → HttpErr → ℤ → A → Run A
  call_error r e info a = elim (r.error_callback) [ none ↦ fault | some f ↦ f e info a ]

  unfoldable pub call_body : HttpRequest A → ℕ → Exchange A → Run (ContinueReceiving × Exchange A)
  call_body r n x = elim (r.body_callback) [
    | none ↦ fault
    | some f ↦ do (cr, a) ← f x.buffer n x.app; done (cr, record x { app = a })
  ]

  -- The received bytes are put behind those in the buffer. `size_t` has 32 bits.
  unfoldable pub accumulate : List ℕ → ℕ → Exchange A → Run (Exchange A)
  accumulate tls_buffer len x = do
    let c = x.context
    b ← memcpy x.buffer c.response_buffer_count tls_buffer len
    done (record x {
      context = record c {
        response_buffer_count = (c.response_buffer_count + len) % 2 ^ 32;
        response_body_total_count = (c.response_body_total_count + len) % 2 ^ 32;
      };
      buffer = b;
    })

-- How a part of `https_tls_callback` ends: by a `return` of the callback, or by going on.
pub data Flow : Type 0 where
  returns : Bool → Flow
  goes_on : Flow
