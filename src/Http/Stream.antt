-- ===== src/Http/Stream.antt =====
-- The body of a response in the streaming mode of main/https_client.c: what `https_tls_callback`
-- hands to the application's callback, packet by packet.
use esp32_ota_https.Prelude.{
  ltb, leb, suc-ne-zero, Bool-cases, length, take, length-append, length-take, splice, length-copy,
  take-copy, Run, done, ◌>>=◌, Returns, memcpy_done, Returns->>=_assoc, ℕ, suc, ◌+◌, ◌%◌, ◌^◌, ◌≤◌,
  ◌<◌, ◌≡◌, refl, ap, ◌∙◌, ◌⊎◌, inl, inr, Bool, true, false, some, List, ◌++◌, arith,
}
use esp32_ota_https.Http.{
  stream_body, ContinueReceiving, continue_receiving, stop_receiving, HttpRequest, HttpContext,
  Exchange, call_body, accumulate,
}
use esp32_ota_https.Http.Callback.{
  after_fragment, process_fragment, process_body, after_headers, process_packet, https_tls_callback,
}

-- What a callback promises that consumes a body of `size` bytes in fragments of `limit` bytes at
-- most: it keeps `Inv` of the bytes that it has got, or stops; after the last byte, the call with
-- length 0 establishes `Final` of the whole body.
pub record Consumer {A : Type 0} (f : List ℕ → ℕ → A → Run (ContinueReceiving × A)) (limit size : ℕ)
    : Type 1 where
  pub Inv : List ℕ → A → Type 0
  pub Stopped : A → Type 0
  pub Final : List ℕ → A → Type 0
  pub step :
      (buffer got : List ℕ) (n : ℕ) (a : A)
      → Inv got a
      → 0 < n
      → n ≤ limit
      → n ≤ length buffer
      → length got + n ≤ size
      → Returns
          (λ out.
            (out.0 ≡ continue_receiving) × Inv (got ++ take n buffer) out.1
            ⊎ (out.0 ≡ stop_receiving) × Stopped out.1)
          (f buffer n a)
  pub finish :
      (buffer got : List ℕ) (a : A)
      → Inv got a
      → length got ≡ size
      → Returns (λ out. Final got out.1) (f buffer 0 a)

-- A context whose headers are done, and which waits for the next packet, `total` bytes of the body
-- having been received.
abbrev pub waiting : HttpContext → ℕ → ℕ → HttpContext
waiting c size total = record c {
  is_processing_headers = false;
  response_buffer_count = 0;
  response_body_total_count = total;
  content_length = size;
}

module _ {A : Type 0} (f : List ℕ → ℕ → A → Run (ContinueReceiving × A)) (limit size : ℕ)
    (consumer : Consumer f limit size) (c : HttpContext) where
  abbrev pub exchange : ℕ → List ℕ → A → Exchange A
  exchange total b a = record { context = waiting c size total; buffer = b; app = a }

  -- The exchange waits for more, and the callback has got `got`.
  pub record Waits (got : List ℕ) (x : Exchange A) : Type 0 where
    pub is_waiting : x ≡ exchange (length got) x.buffer x.app
    pub room : length x.buffer ≡ limit
    pub consumed : consumer.Inv got x.app
    pub more : length got < size

  -- The exchange is over: the callback has stopped, or has got the whole body.
  abbrev pub Over : List ℕ → Exchange A → Type 0
  Over got x = consumer.Stopped x.app ⊎ (length got ≡ size) × consumer.Final got x.app

  -- What a packet leaves behind.
  abbrev pub PacketDone : List ℕ → Bool × Exchange A → Type 0
  PacketDone got out = (out.0 ≡ true) × Waits got out.1 ⊎ (out.0 ≡ false) × Over got out.1

  -- What the callback does with a fragment.
  abbrev pub Stepped : List ℕ → ContinueReceiving × A → Type 0
  Stepped got out =
      (out.0 ≡ continue_receiving) × consumer.Inv got out.1
      ⊎ (out.0 ≡ stop_receiving) × consumer.Stopped out.1

  pub call_body_lem :
      (r : HttpRequest A) (n : ℕ) (x : Exchange A)
      → r.body_callback ≡ some f
      → call_body r n x ≡ (f x.buffer n x.app >>= λ out. done (out.0, record x { app = out.1 }))
  unfolding call_body
  call_body_lem r n x cb = rw (cb, call_body) refl

  pub after_fragment-PacketDone :
      (r : HttpRequest A) (got b : List ℕ) (n : ℕ) (out : ContinueReceiving × A)
      → r.body_callback ≡ some f
      → length b ≡ limit
      → length got ≤ size
      → Stepped got out
      → Returns (PacketDone got) (
          after_fragment r out.0 (record {
            context = record (waiting c size (length got)) { response_buffer_count = n };
            buffer = b;
            app = out.1;
          }))
  unfolding after_fragment call_body
  after_fragment-PacketDone r got b n out cb room within (inr (stop, stopped)) =
      rw stop (inr (refl, inl stopped))
  after_fragment-PacketDone r got b n out cb room within (inl (go_on, consumed)) =
      rw go_on elim (Bool-cases (leb size (length got))) [
        | inl last ↦
            let whole : length got ≡ size = ground arith in
            rw (last, cb)
              (Returns->>=_assoc (λ o. consumer.Final got o.1) (PacketDone got) (f b 0 out.1) _ _
                (consumer.finish b got out.1 consumed whole)
                (λ o final. inr (refl, inr (whole, final))))
        | inr more ↦ rw more (
            inl (
              refl,
              record { is_waiting = refl; room = room; consumed = consumed; more = ground arith },
            ))
      ]

  pub packet-done :
      (r : HttpRequest A) (index n : ℕ) (tls_buffer b got : List ℕ) (a : A)
      → r.response_mode ≡ stream_body
      → r.body_callback ≡ some f
      → r.response_buffer_len ≡ limit
      → length b ≡ limit
      → size < 2 ^ 32
      → 0 < n
      → n ≤ limit
      → n ≤ length tls_buffer
      → length got + n ≤ size
      → consumer.Inv got a
      → Returns
          (PacketDone (got ++ take n tls_buffer))
          (https_tls_callback r (suc index) tls_buffer n (exchange (length got) b a))
  unfolding https_tls_callback process_packet accumulate process_body process_fragment after_headers
  packet-done r index n tls_buffer b got a mode cb same room small some_bytes fits has within i =
      let got' = got ++ take n tls_buffer in
      let b' = splice b 0 (take n tls_buffer) in
      let no_wrap : (0 + n) % 2 ^ 32 ≡ n = omega arith in
      let accepted : ltb r.response_buffer_len n ≡ false = ground arith in
      let positive : ltb 0 n ≡ true = ground arith in
      let total : length got' ≡ length got + n =
        omega (arith, length-append got (take n tls_buffer), length-take n tls_buffer) in
      let grown : (length got + n) % 2 ^ 32 ≡ length got' = omega (arith, total) in
      let copied = memcpy_done b 0 tls_buffer n (omega arith) has in
      let room' : length b' ≡ limit = length-copy b 0 n tls_buffer (omega arith) has ∙ room in
      let same_bytes : take n b' ≡ take n tls_buffer =
        ap (λ k. take k b') {x = n} {y = 0 + n} (omega arith)
        ∙ take-copy b 0 n tls_buffer (omega arith) has in
      let stepped : Returns (Stepped got') (f b' n a) =
        rw same_bytes at
          (consumer.step b' got n a i some_bytes fits (omega (arith, room')) within) in
      let x : Exchange A = record {
        context = record (waiting c size (length got')) { response_buffer_count = n };
        buffer = b';
        app = a;
      } in
      rw (no_wrap, suc-ne-zero index)
        (rw accepted (
          rw copied (
            rw grown (
              simp (mode, positive)
                (rw (call_body_lem r n x cb) (
                  Returns->>=_assoc (Stepped got') (PacketDone got') (f b' n a) _ _ stepped
                    (λ out h.
                      after_fragment-PacketDone r got' b' n out cb room' (omega (arith, total))
                        h)))))))
