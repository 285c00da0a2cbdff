-- ===== src/Http/First.antt =====
-- The packet that ends the headers, where it is the first one: `https_tls_callback` of
-- main/https_client.c takes the beginning of the body from it.
use mathlib.Core.Path.{subst}
use esp32_ota_https.Prelude.{
  ltb, length, take, drop, length-take, length-drop, Run, Returns, Returns->>=_assoc, ℕ, ◌+◌, ◌-◌,
  ◌^◌, ◌≤◌, ◌<◌, ◌≡◌, refl, sym, ◌∙◌, inl, true, some, List, [], ◌∷◌, arith,
}
use esp32_ota_https.Http.{stream_body, ContinueReceiving, HttpRequest, HttpContext, Exchange}
use esp32_ota_https.Http.Callback.{process_fragment, process_body, https_tls_callback}
use esp32_ota_https.Http.Stream.{
  Consumer, waiting, PacketDone, Stepped, call_body_lem, after_fragment-PacketDone,
}
use esp32_ota_https.Http.Headers.{HasHeaders, first_packet-Returns}

module _ {A : Type 0} (f : List ℕ → ℕ → A → Run (ContinueReceiving × A)) (limit size : ℕ)
    (consumer : Consumer f limit size) (r : HttpRequest A) where
  -- The exchange after the headers, with `m` bytes of the body in the buffer.
  abbrev begun : HttpContext → ℕ → List ℕ → A → Exchange A
  begun c m b a = record {
    context = record (waiting c size m) { response_buffer_count = m };
    buffer = b;
    app = a;
  }

  first_fragment :
      (c : HttpContext) (b body : List ℕ) (a : A)
      → r.response_mode ≡ stream_body
      → r.body_callback ≡ some f
      → length b ≡ limit
      → take (length body) b ≡ body
      → length body ≤ limit
      → length body ≤ size
      → 0 < size
      → consumer.Inv [] a
      → Returns (PacketDone f limit size consumer c body) (
          process_body r (record {
            context = record (waiting c size (length body)) { response_buffer_count = length body };
            buffer = b;
            app = a;
          }))
  unfolding process_body process_fragment
  first_fragment c b [] a mode cb room same fits within some_bytes i =
      simp mode
        (inl (refl, record { is_waiting = refl; room = room; consumed = i; more = some_bytes }))
  first_fragment c b (y ∷ ys) a mode cb room same fits within some_bytes i =
      let body = y ∷ ys in
      let n = length body in
      let positive : ltb 0 n ≡ true = ground arith in
      let x : Exchange A = record {
        context = record (waiting c size n) { response_buffer_count = n };
        buffer = b;
        app = a;
      } in
      let stepped : Returns (Stepped f limit size consumer c body) (f b n a) =
        rw same at (consumer.step b [] n a i (omega arith) fits (omega arith) (omega arith)) in
      simp (mode, positive)
        (rw (call_body_lem f limit size consumer c r n x cb) (
          Returns->>=_assoc (Stepped f limit size consumer c body)
            (PacketDone f limit size consumer c body) (f b n a) _ _ stepped
            (λ out h.
              after_fragment-PacketDone f limit size consumer c r body b n out cb room within h)))

  first_taken :
      (c : HttpContext) (m : ℕ) (body : List ℕ) (out : Exchange A) (a : A)
      → length body ≡ m
      → out ≡ begun c m out.buffer a
      → r.response_mode ≡ stream_body
      → r.body_callback ≡ some f
      → length out.buffer ≡ limit
      → take m out.buffer ≡ body
      → m ≤ limit
      → m ≤ size
      → 0 < size
      → consumer.Inv [] a
      → Returns (PacketDone f limit size consumer c body) (process_body r out)
  first_taken c m body out a len e mode cb room same fits within some_bytes i =
      let same' : take (length body) out.buffer ≡ body = rw len same in
      subst (λ y. Returns (PacketDone f limit size consumer c body) (process_body r y)) (sym e)
        (subst
          (λ j.
            Returns (PacketDone f limit size consumer c body)
              (process_body r (begun c j out.buffer a)))
          len
          (first_fragment c out.buffer body a mode cb room same' (omega (arith, len))
            (omega (arith, len)) some_bytes i))

  pub first_packet-PacketDone :
      (n i : ℕ) (tls_buffer : List ℕ) (x : Exchange A)
      → r.response_mode ≡ stream_body
      → r.body_callback ≡ some f
      → r.response_buffer_len ≡ limit
      → length x.buffer ≡ limit
      → limit < 2 ^ 32
      → 0 < size
      → size < 2 ^ 31
      → n ≤ limit
      → n ≤ length tls_buffer
      → i + 4 ≤ n
      → n - (i + 4) ≤ size
      → HasHeaders r tls_buffer n i size x.buffer
      → consumer.Inv [] x.app
      → Returns
          (PacketDone f limit size consumer x.context
            (take (n - (i + 4)) (drop (i + 4) tls_buffer)))
          (https_tls_callback r 0 tls_buffer n x)
  first_packet-PacketDone n i tls_buffer x mode cb same room small some_bytes small' fits has inside
        within h consumed =
      let body = take (n - (i + 4)) (drop (i + 4) tls_buffer) in
      first_packet-Returns r (PacketDone f limit size consumer x.context body) n i size tls_buffer x
        (room ∙ sym same) (omega arith) small' (omega arith) has inside h
        (λ out taken room'.
          first_taken x.context (n - (i + 4)) body out x.app
            (omega (
              arith,
              length-take (n - (i + 4)) (drop (i + 4) tls_buffer),
              length-drop (i + 4) tls_buffer,
            ))
            (taken.is_taken) mode cb (room' ∙ same) (taken.body) (omega arith) within some_bytes
            consumed)
