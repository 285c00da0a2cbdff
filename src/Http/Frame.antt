-- ===== src/Http/Frame.antt =====
-- What a request cannot change: the application's state is changed by its own callbacks only, for
-- every response and for every error, in main/https_client.c and main/wifi_tls.c.
use esp32_ota_https.Prelude.{
  ltb, leb, ◌==◌, if◌then◌else◌, ℤ, pos, ◌==ℤ◌, to_u32, drop, replicate, Run, done, fault, ◌>>=◌,
  Ensures, Ensures->>=, memcpy, Ensures-trivial, Ensures-if, Ensures-found, ℕ, ◌+◌, ◌-◌, ◌%◌, ◌^◌,
  ◌≡◌, refl, false, Option, none, some, List, [], ◌∷◌,
}
use esp32_ota_https.CText.{codes, strstr, scan_status_line}
use esp32_ota_https.Http.{
  HttpErr, buffer_too_small, invalid_status_line, version_not_supported, non_200_status_code,
  ResponseMode, wait_for_complete_body, stream_body, ContinueReceiving, continue_receiving,
  stop_receiving, HttpRequest, Exchange, http_parse_key_value_int, reset_exchange, call_error,
  call_body, accumulate, Flow, returns, goes_on,
}
use esp32_ota_https.Http.Callback.{
  end_of_headers, drop_packet, take_body, read_content_length, check_status, process_headers,
  process_whole_body, after_fragment, process_fragment, process_body_by, process_body,
  after_headers, process_packet, https_tls_callback,
}

-- The callbacks of a request keep a property of the application.
pub record CallbacksKeep {A : Type 0} (Kept : A → Type 0) (r : HttpRequest A) : Type 0 where
  pub errors :
      (f : HttpErr → ℤ → A → Run A) (e : HttpErr) (info : ℤ) (a : A)
      → r.error_callback ≡ some f
      → Kept a
      → Ensures Kept (f e info a)
  pub bodies :
      (f : List ℕ → ℕ → A → Run (ContinueReceiving × A)) (buffer : List ℕ) (n : ℕ) (a : A)
      → r.body_callback ≡ some f
      → Kept a
      → Ensures (λ out. Kept out.1) (f buffer n a)

module _ {A : Type 0} (Kept : A → Type 0) (r : HttpRequest A) (keep : CallbacksKeep Kept r) where
  abbrev Keeps : {B : Type 0} → B × Exchange A → Type 0
  Keeps out = Kept out.1.app

  call_error-Kept : (e : HttpErr) (info : ℤ) (a : A) → Kept a → Ensures Kept (call_error r e info a)
  unfolding call_error
  call_error-Kept e info a h = go r.error_callback refl
    where
      go :
          (callback : Option (HttpErr → ℤ → A → Run A))
          → r.error_callback ≡ callback
          → Ensures Kept (elim callback [ none ↦ fault | some f ↦ f e info a ])
      go none same = tt
      go (some f) same = keep.errors f e info a same h

  call_body-Keeps : (n : ℕ) (x : Exchange A) → Kept x.app → Ensures Keeps (call_body r n x)
  unfolding call_body
  call_body-Keeps n x h = go r.body_callback refl
    where
      go :
          (callback : Option (List ℕ → ℕ → A → Run (ContinueReceiving × A)))
          → r.body_callback ≡ callback
          → Ensures Keeps (elim callback [
            | none ↦ fault
            | some f ↦ f x.buffer n x.app >>= λ out. done (out.0, record x { app = out.1 })
          ])
      go none same = tt
      go (some f) same =
          Ensures->>= (λ out. Kept out.1) Keeps (f x.buffer n x.app) _
            (keep.bodies f x.buffer n x.app same h) (λ out k. k)

  drop_packet-Keeps :
      (e : HttpErr) (info : ℤ) (x : Exchange A)
      → Kept x.app
      → Ensures Keeps (drop_packet r e info x)
  unfolding drop_packet
  drop_packet-Keeps e info x h =
      Ensures->>= Kept Keeps (call_error r e info x.app) _ (call_error-Kept e info x.app h)
        (λ a k. k)

  take_body-Kept :
      (tls_buffer : List ℕ) (k : ℕ) (x : Exchange A)
      → Kept x.app
      → Ensures (λ x'. Kept x'.app) (take_body tls_buffer k x)
  unfolding take_body
  take_body-Kept tls_buffer k x h =
      let count = (x.context.response_buffer_count + 2 ^ 32 - k) % 2 ^ 32 in
      let Any : List ℕ → Type 0 = λ b. Unit {0} in
      let copied =
        if ltb 0 count then memcpy x.buffer 0 (drop k tls_buffer) count else done x.buffer in
      Ensures->>= Any _ copied _ (Ensures-trivial copied) (λ b _.
        Ensures->>= Any _ (memcpy b count (0 ∷ []) 1) _
          (Ensures-trivial (memcpy b count (0 ∷ []) 1)) (λ b' _. h))

  read_content_length-Keeps :
      (tls_buffer : List ℕ) (k : ℕ) (x : Exchange A)
      → Kept x.app
      → Ensures Keeps (read_content_length tls_buffer k x)
  unfolding read_content_length
  read_content_length-Keeps tls_buffer k x h =
      Ensures-found Keeps (http_parse_key_value_int x.buffer (codes "Content-Length:")) _ _ h (λ v.
        let x' = record x { context = record (x.context) { content_length = to_u32 v } } in
        Ensures->>= (λ y. Kept y.app) Keeps (take_body tls_buffer k x') _
          (take_body-Kept tls_buffer k x' h) (λ y kept. kept))

  check_status-Keeps :
      (tls_buffer : List ℕ) (k : ℕ) (x : Exchange A)
      → Kept x.app
      → Ensures Keeps (check_status r tls_buffer k x)
  unfolding check_status
  check_status-Keeps tls_buffer k x h =
      Ensures-found Keeps (scan_status_line x.buffer) _ _
        (drop_packet-Keeps invalid_status_line (pos 0) x h)
        (λ (major, minor, status).
          Ensures-if Keeps (major ==ℤ pos 1) _ _
            (Ensures-if Keeps (status ==ℤ pos 200) _ _ (read_content_length-Keeps tls_buffer k x h)
              (drop_packet-Keeps non_200_status_code status x h))
            (drop_packet-Keeps version_not_supported (pos 0) x h))

  process_headers-Keeps :
      (tls_buffer : List ℕ) (x : Exchange A)
      → Kept x.app
      → Ensures Keeps (process_headers r tls_buffer x)
  unfolding process_headers
  process_headers-Keeps tls_buffer x h =
      Ensures-found Keeps (strstr x.buffer end_of_headers) _ _ h (λ i.
        Ensures->>= (λ _. Unit {0}) Keeps (memcpy x.buffer i (0 ∷ []) 1) _
          (Ensures-trivial (memcpy x.buffer i (0 ∷ []) 1))
          (λ b _. check_status-Keeps tls_buffer ((i + 4) % 2 ^ 32) (record x { buffer = b }) h))

  delivered-Keeps :
      (n : ℕ) (x : Exchange A)
      → Kept x.app
      → Ensures Keeps (call_body r n x >>= λ out. done (false, out.1))
  delivered-Keeps n x h =
      Ensures->>= Keeps Keeps (call_body r n x) _ (call_body-Keeps n x h) (λ out kept. kept)

  after_fragment-Keeps :
      (cr : ContinueReceiving) (x : Exchange A) → Kept x.app → Ensures Keeps (after_fragment r cr x)
  unfolding after_fragment
  after_fragment-Keeps stop_receiving x h = h
  after_fragment-Keeps continue_receiving x h =
      Ensures-if Keeps (leb x.context.content_length x.context.response_body_total_count) _ _
        (delivered-Keeps 0 x h) h

  process_body-Keeps : (x : Exchange A) → Kept x.app → Ensures Keeps (process_body r x)
  unfolding process_body process_whole_body process_fragment
  process_body-Keeps x h = go r.response_mode
    where
      go : (mode : ResponseMode) → Ensures Keeps (process_body_by mode r x)
      go wait_for_complete_body =
          Ensures-if Keeps (ltb x.context.response_buffer_count x.context.content_length) _ _ h
            (delivered-Keeps x.context.response_buffer_count x h)
      go stream_body =
          Ensures-if Keeps (ltb 0 x.context.response_buffer_count) _ _
            (Ensures->>= Keeps Keeps (call_body r x.context.response_buffer_count x) _
              (call_body-Keeps x.context.response_buffer_count x h)
              (λ out kept. after_fragment-Keeps out.0 out.1 kept))
            h

  after_headers-Keeps :
      (flow : Flow × Exchange A) → Kept flow.1.app → Ensures Keeps (after_headers r flow)
  unfolding after_headers
  after_headers-Keeps (returns b, x) h = h
  after_headers-Keeps (goes_on, x) h = process_body-Keeps x h

  process_packet-Keeps :
      (tls_buffer : List ℕ) (len : ℕ) (x : Exchange A)
      → Kept x.app
      → Ensures Keeps (process_packet r tls_buffer len x)
  unfolding process_packet accumulate
  process_packet-Keeps tls_buffer len x h =
      Ensures-if Keeps
        (ltb r.response_buffer_len ((x.context.response_buffer_count + len) % 2 ^ 32)) _ _
        (Ensures->>= Kept Keeps (call_error r buffer_too_small (pos 0) x.app) _
          (call_error-Kept buffer_too_small (pos 0) x.app h) (λ a k. k))
        (Ensures->>= (λ x'. Kept x'.app) Keeps (accumulate tls_buffer len x) _
          (Ensures->>= (λ _. Unit {0}) _
            (memcpy x.buffer x.context.response_buffer_count tls_buffer len) _
            (Ensures-trivial (memcpy x.buffer x.context.response_buffer_count tls_buffer len))
            (λ b _. h))
          (λ x' kept.
            Ensures->>= Keeps Keeps _ (after_headers r)
              (Ensures-if Keeps x'.context.is_processing_headers _ _
                (process_headers-Keeps tls_buffer x' kept) kept)
              after_headers-Keeps))

  -- A packet of a response, whatever it holds, changes the application only through its callbacks:
  -- what these keep is kept.
  pub https_tls_callback-Keeps :
      (index : ℕ) (tls_buffer : List ℕ) (len : ℕ) (x : Exchange A)
      → Kept x.app
      → Ensures (λ out. Kept out.1.app) (https_tls_callback r index tls_buffer len x)
  unfolding https_tls_callback reset_exchange
  https_tls_callback-Keeps index tls_buffer len x h =
      Ensures-if Keeps (index == 0) _ _
        (Ensures->>= (λ x'. Kept x'.app) Keeps (reset_exchange r x) _
          (Ensures->>= (λ _. Unit {0}) _
            (memcpy x.buffer 0 (replicate r.response_buffer_len 0) r.response_buffer_len) _
            (Ensures-trivial
              (memcpy x.buffer 0 (replicate r.response_buffer_len 0) r.response_buffer_len))
            (λ b _. h))
          (λ x' kept. process_packet-Keeps tls_buffer len x' kept))
        (process_packet-Keeps tls_buffer len x h)
