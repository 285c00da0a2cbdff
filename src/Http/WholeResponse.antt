-- ===== src/Http/WholeResponse.antt =====
-- A whole response in the mode that waits for the complete body: `https_tls_callback` of
-- main/https_client.c from the packet with the headers on.
use mathlib.Core.Path.{subst}
use esp32_ota_https.Prelude.{
  leb, ℤ, pos, negsuc, length, take, drop, length-take, length-drop, take-append-drop, Run, Returns,
  Returns->>=, Returns-mono, ℕ, zero, suc, ◌+◌, ◌-◌, ◌^◌, ◌≤◌, ◌<◌, ◌≡◌, refl, sym, ap, ap₂, ◌∙◌,
  ◌⊎◌, inl, inr, Bool, true, false, some, List, [], ◌∷◌, ◌++◌, append-nil, arith,
}
use esp32_ota_https.Http.{
  wait_for_complete_body, ContinueReceiving, HttpRequest, HttpContext, Exchange,
}
use esp32_ota_https.Http.Callback.{process_body, https_tls_callback}
use esp32_ota_https.Http.Download.{payload}
use esp32_ota_https.Http.Response.{ResponseArrives, response_body}
use esp32_ota_https.Http.Whole.{
  collecting, written, collected, Delivered, process_body-collected, BodyDelivered,
  read_loop-BodyDelivered,
}
use esp32_ota_https.Tls.{Mbedtls, Tls, wifi_tls_reset_context, wifi_tls_disconnect}
use esp32_ota_https.Tls.Connection.{read_loop}
use esp32_ota_https.Http.Headers.{HasHeaders, first_packet-Returns}

module _ {Cert A : Type 0} (m : Mbedtls Cert) (f : List ℕ → ℕ → A → Run (ContinueReceiving × A))
    (r : HttpRequest A) (c : HttpContext) (size : ℕ) (a : A) (P : A → Type 0) where
  -- What the first packet leaves behind: `body` of the body is in the buffer, or the callback has got
  -- all of it.
  abbrev FirstDone : List ℕ → Bool × Exchange A → Type 0
  FirstDone body out =
      ((out.0 ≡ true)
        × (length body < size)
        × ((block : List ℕ) × (length block ≡ r.response_buffer_len)
            × (out.1 ≡ collected f r c size block a P body)))
      ⊎ ((length body ≡ size) × Delivered f r c size [] a P out)

  -- The callback copes with what may stand behind the body.
  abbrev pub Copes : List ℕ → Type 0
  Copes body =
      (rest : List ℕ)
      → length rest ≡ r.response_buffer_len - size
      → Returns (λ out. P out.1) (f (body ++ rest) size a)

  first-FirstDone :
      (body : List ℕ) (out : Exchange A)
      → r.response_mode ≡ wait_for_complete_body
      → r.body_callback ≡ some f
      → length out.buffer ≡ r.response_buffer_len
      → length body ≤ size
      → out ≡ record { context = collecting c size (length body); buffer = out.buffer; app = a }
      → take (length body) out.buffer ≡ body
      → ((length body ≡ size) → Copes body)
      → Returns (FirstDone body) (process_body r out)
  first-FirstDone body out mode cb room within e front copes =
      let block = out.buffer in
      let same : written f r c size block a P body ≡ block =
        ap (λ b. b ++ drop (length body) block) (sym front)
        ∙ take-append-drop (length body) block in
      let e' : out ≡ collected f r c size block a P body =
        e
        ∙ ap (λ b. record { context = collecting c size (length body); buffer = b; app = a })
            (sym same) in
      subst (λ y. Returns (FirstDone body) (process_body r y)) (sym e')
        (elim (process_body-collected f r c size block a P body mode cb within) [
          | inl (more, waits) ↦ rw waits (inl (refl, more, (block, room, refl)))
          | inr (whole, deliver) ↦
              Returns-mono (Delivered f r c size block a P) (FirstDone body)
                (process_body r (collected f r c size block a P body))
                (λ o done_so. inr (whole, done_so))
                (deliver (
                  copes whole (drop (length body) block)
                    (omega (arith, length-drop (length body) block, room, whole))))
        ])

  first_packet-FirstDone :
      (n i : ℕ) (tls_buffer : List ℕ) (x : Exchange A)
      → x.context ≡ c
      → x.app ≡ a
      → r.response_mode ≡ wait_for_complete_body
      → r.body_callback ≡ some f
      → length x.buffer ≡ r.response_buffer_len
      → r.response_buffer_len < 2 ^ 32
      → size < 2 ^ 31
      → n ≤ r.response_buffer_len
      → n ≤ length tls_buffer
      → i + 4 ≤ n
      → n - (i + 4) ≤ size
      → HasHeaders r tls_buffer n i size x.buffer
      → let body = take (n - (i + 4)) (drop (i + 4) tls_buffer) in
        ((length body ≡ size) → Copes body)
        → Returns (FirstDone body) (https_tls_callback r 0 tls_buffer n x)
  first_packet-FirstDone n i tls_buffer x same_context same_app mode cb room small small' fits has
        inside within h copes =
      let first = n - (i + 4) in
      let body = take first (drop (i + 4) tls_buffer) in
      let len : length body ≡ first =
        omega
          (arith, length-take first (drop (i + 4) tls_buffer), length-drop (i + 4) tls_buffer) in
      first_packet-Returns r (FirstDone body) n i size tls_buffer x room small small' fits has
        inside h
        (λ out taken room'.
          first-FirstDone body out mode cb room' (omega (arith, len))
            (taken.is_taken
              ∙ ap₂
                  (λ context app. record {
                    context = collecting context size first;
                    buffer = out.buffer;
                    app = app;
                  })
                  same_context same_app
              ∙ ap (λ j. record { context = collecting c size j; buffer = out.buffer; app = a })
                  (sym len))
            (ap (λ j. take j out.buffer) len ∙ taken.body) copes)

  -- A whole response with status 200 and a content length below 2 GB, whose headers are in its first
  -- packet, in the mode that waits for the complete body: the application's callback is called once,
  -- with the body at the front of the buffer and its length, however the body is cut into packets; and
  -- the loop returns 0 with the connection closed. The body fits the buffer. What stands behind it
  -- in the buffer is not known, and the callback has to cope with all of that.
  pub response-BodyDelivered :
      (replies : List (ℤ × List ℕ)) (tls : Tls Cert) (i : ℕ) (x : Exchange A)
      → x.context ≡ c
      → x.app ≡ a
      → r.response_mode ≡ wait_for_complete_body
      → r.body_callback ≡ some f
      → length x.buffer ≡ r.response_buffer_len
      → r.response_buffer_len < 2 ^ 32
      → size < 2 ^ 31
      → size ≤ r.response_buffer_len
      → ResponseArrives m r i size x.buffer replies
      → Copes (response_body i size replies)
      → Returns
          (BodyDelivered m f r c size [] a P)
          (read_loop m (https_tls_callback r) tls 0 x replies)
  unfolding read_loop wifi_tls_disconnect wifi_tls_reset_context
  response-BodyDelivered [] tls i x sc sa mode cb room small small' fits arr copes = absurd arr
  response-BodyDelivered ((pos zero, b) ∷ replies) tls i x sc sa mode cb room small small' fits arr
        copes =
      absurd arr
  response-BodyDelivered ((negsuc k, b) ∷ replies) tls i x sc sa mode cb room small small' fits
        (again, arr) copes =
      rw again
        (response-BodyDelivered replies tls i x sc sa mode cb room small small' fits arr copes)
  response-BodyDelivered ((pos (suc k), b) ∷ replies) tls i x sc sa mode cb room small small' fits
        (inside, has, ends, within, has_headers, more) copes =
      let n = suc k in
      let first = n - (i + 4) in
      let body = take first (drop (i + 4) b) in
      let len : length body ≡ first =
        omega (arith, length-take first (drop (i + 4) b), length-drop (i + 4) b) in
      Returns->>= (FirstDone body) (BodyDelivered m f r c size [] a P)
        (https_tls_callback r 0 b n x) _
        (first_packet-FirstDone n i b x sc sa mode cb room small small' inside has ends within
          has_headers
          (λ whole.
            let closed : leb size first ≡ true = ground (arith, whole, len) in
            rw (closed, append-nil body) at copes))
        (λ out h. elim h [
          | inl (go_on, unfinished, (block, room', e)) ↦ elim more [
            | inl last ↦ absurd (omega (arith, unfinished, len, last))
            | inr arr ↦
                let going : leb size first ≡ false = ground (arith, unfinished, len) in
                let left : size - first ≡ size - length body = omega (arith, len) in
                rw (go_on, e)
                  (read_loop-BodyDelivered m f r c size block a P replies tls 0 body mode cb
                    (sym room') (omega (arith, room')) (omega (arith, room')) unfinished
                    (rw (left, ← room') at arr)
                    (let copes' : Copes (body ++ payload (size - length body) replies) =
                        rw (going, left) at copes in
                      copes' (drop size block) (omega (arith, length-drop size block, room'))))
          ]
          | inr (whole, (stop, got_it)) ↦ rw stop (refl, refl, got_it)
        ])
