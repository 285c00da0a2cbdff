-- ===== src/Http/Callback.antt =====
-- `https_tls_callback` of main/https_client.c, which is called for each packet of a response. It is
-- cut where the comments in its body cut it: the headers, and the message body.
use esp32_ota_https.Prelude.{
  ltb, leb, ◌==◌, if◌then◌else◌, ℤ, pos, ◌==ℤ◌, to_u32, drop, Run, done, ◌>>=◌, memcpy, ℕ, ◌+◌, ◌-◌,
  ◌%◌, ◌^◌, Bool, true, false, none, some, List, [], ◌∷◌, ◌++◌,
}
use esp32_ota_https.CText.{codes, crlf, strstr, scan_status_line}
use esp32_ota_https.Http.{
  HttpErr, buffer_too_small, invalid_status_line, version_not_supported, non_200_status_code,
  ResponseMode, wait_for_complete_body, stream_body, ContinueReceiving, continue_receiving,
  stop_receiving, HttpRequest, Exchange, http_parse_key_value_int, reset_exchange, call_error,
  call_body, accumulate, Flow, returns, goes_on,
}

-- The end of the headers.
abbrev pub end_of_headers : List ℕ
end_of_headers = crlf ++ crlf

module _ {A : Type 0} where
  -- An error is reported, and the packet is dropped.
  unfoldable pub drop_packet : HttpRequest A → HttpErr → ℤ → Exchange A → Run (Flow × Exchange A)
  unfolding call_error
  drop_packet r e info x = do
    a ← call_error r e info x.app
    done (returns false, record x { app = a })

  -- The body's bytes in the last packet are copied to the beginning of the buffer. They are read
  -- at the length of the headers from the start of that packet.
  unfoldable pub take_body : List ℕ → ℕ → Exchange A → Run (Exchange A)
  take_body tls_buffer nof_header_bytes x = do
    let count = (x.context.response_buffer_count + 2 ^ 32 - nof_header_bytes) % 2 ^ 32
    b ←
        if ltb 0 count
        then memcpy x.buffer 0 (drop nof_header_bytes tls_buffer) count
        else done x.buffer
    b' ← memcpy b count (0 ∷ []) 1
    done (record x {
      context = record (x.context) {
        response_buffer_count = count;
        response_body_total_count = count;
        is_processing_headers = false;
      };
      buffer = b';
    })

  -- The headers as a text: the status line has been accepted, and the content length is read.
  unfoldable pub read_content_length : List ℕ → ℕ → Exchange A → Run (Flow × Exchange A)
  unfolding take_body
  read_content_length tls_buffer nof_header_bytes x = do
    found ← http_parse_key_value_int x.buffer (codes "Content-Length:")
    elim found [
      | none ↦ done (returns false, x)
      | some v ↦ do
        x' ←
            take_body tls_buffer nof_header_bytes
              (record x { context = record (x.context) { content_length = to_u32 v } })
        done (goes_on, x')
    ]

  -- The status line is checked.
  unfoldable pub check_status : HttpRequest A → List ℕ → ℕ → Exchange A → Run (Flow × Exchange A)
  unfolding drop_packet read_content_length
  check_status r tls_buffer nof_header_bytes x = do
    scanned ← scan_status_line x.buffer
    elim scanned [
      | none ↦ drop_packet r invalid_status_line (pos 0) x
      | some (major, minor, status) ↦
          if major ==ℤ pos 1
          then if status ==ℤ pos 200
            then read_content_length tls_buffer nof_header_bytes x
            else drop_packet r non_200_status_code status x
          else drop_packet r version_not_supported (pos 0) x
    ]

  -- `strstr` looks for the end of the headers, which is then made the end of a text.
  unfoldable pub process_headers : HttpRequest A → List ℕ → Exchange A → Run (Flow × Exchange A)
  unfolding check_status
  process_headers r tls_buffer x = do
    loc ← strstr x.buffer end_of_headers
    elim loc [
      | none ↦ done (returns true, x)
      | some i ↦ do
        b ← memcpy x.buffer i (0 ∷ []) 1
        check_status r tls_buffer ((i + 4) % 2 ^ 32) (record x { buffer = b })
    ]

  -- The callback gets the whole body at once.
  unfoldable pub process_whole_body : HttpRequest A → Exchange A → Run (Bool × Exchange A)
  unfolding call_body
  process_whole_body r x =
      let c = x.context in
      let complete = do (_, x') ← call_body r c.response_buffer_count x; done (false, x')
      in if ltb c.response_buffer_count c.content_length then done (true, x) else complete

  -- After a fragment has been delivered: the end of the body, or the next packet.
  unfoldable pub after_fragment :
      HttpRequest A → ContinueReceiving → Exchange A → Run (Bool × Exchange A)
  unfolding call_body
  after_fragment r stop_receiving x = done (false, x)
  after_fragment r continue_receiving x =
      let c = x.context in
      let finish = do (_, x') ← call_body r 0 x; done (false, x')
      in if leb c.content_length c.response_body_total_count
        then finish
        else done (true, record x { context = record c { response_buffer_count = 0 } })

  -- The callback gets the body in fragments, as they arrive.
  unfoldable pub process_fragment : HttpRequest A → Exchange A → Run (Bool × Exchange A)
  unfolding call_body after_fragment
  process_fragment r x =
      let deliver = do
        (cr, x') ← call_body r x.context.response_buffer_count x
        after_fragment r cr x'
      in if ltb 0 x.context.response_buffer_count then deliver else done (true, x)

  abbrev pub process_body_by : ResponseMode → HttpRequest A → Exchange A → Run (Bool × Exchange A)
  process_body_by wait_for_complete_body r x = process_whole_body r x
  process_body_by stream_body r x = process_fragment r x

  unfoldable pub process_body : HttpRequest A → Exchange A → Run (Bool × Exchange A)
  unfolding process_whole_body process_fragment
  process_body r x = process_body_by r.response_mode r x

  -- What follows the headers' part, which may have returned.
  unfoldable pub after_headers : HttpRequest A → Flow × Exchange A → Run (Bool × Exchange A)
  after_headers r (returns b, x) = done (b, x)
  after_headers r (goes_on, x) = process_body r x

  -- The callback behind the reset: the bytes are accumulated, if there is room for them.
  unfoldable pub process_packet : HttpRequest A → List ℕ → ℕ → Exchange A → Run (Bool × Exchange A)
  unfolding drop_packet accumulate process_headers
  process_packet r tls_buffer len x =
      let accepted = do
        x' ← accumulate tls_buffer len x
        flow ←
            if x'.context.is_processing_headers
            then process_headers r tls_buffer x'
            else done (goes_on, x')
        after_headers r flow
      in let dropped = do
        a ← call_error r buffer_too_small (pos 0) x.app
        done (false, record x { app = a })
        in if ltb r.response_buffer_len ((x.context.response_buffer_count + len) % 2 ^ 32)
          then dropped
          else accepted

  -- The callback's result is true where it returns 1, to go on reading.
  unfoldable pub https_tls_callback :
      HttpRequest A → ℕ → List ℕ → ℕ → Exchange A → Run (Bool × Exchange A)
  unfolding reset_exchange process_packet
  https_tls_callback r index tls_buffer len x =
      let first = do x' ← reset_exchange r x; process_packet r tls_buffer len x'
      in if index == 0 then first else process_packet r tls_buffer len x
