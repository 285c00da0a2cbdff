-- ===== src/Http/Whole.antt =====
-- A body that is collected before it is delivered: HTTP_WAIT_FOR_COMPLETE_BODY of
-- main/https_client.c, through the packets that main/wifi_tls.c reads.
use mathlib.Core.Path.{subst}
use esp32_ota_https.Prelude.{
  ltb, leb, suc-ne-zero, Bool-cases, ℤ, pos, negsuc, length, take, drop, length-append, length-take,
  length-drop, splice-written, Run, done, ◌>>=◌, Returns, Returns->>=, memcpy_done,
  Returns->>=_assoc, ℕ, zero, suc, ◌+◌, ◌-◌, ◌%◌, ◌^◌, ◌≤◌, ◌<◌, ◌≡◌, refl, sym, ap, ◌∙◌, ◌⊎◌, inl,
  inr, Bool, true, false, some, List, [], ◌∷◌, ◌++◌, append-nil, append_assoc, arith,
}
use esp32_ota_https.Http.{
  wait_for_complete_body, ContinueReceiving, HttpRequest, HttpContext, Exchange, call_body,
  accumulate,
}
use esp32_ota_https.Http.Callback.{
  process_whole_body, process_body, after_headers, process_packet, https_tls_callback,
}
use esp32_ota_https.Http.Download.{Arrives, payload}
use esp32_ota_https.Tls.{Mbedtls, Tls, wifi_tls_reset_context, wifi_tls_disconnect}
use esp32_ota_https.Tls.Connection.{read_loop}

-- A context whose headers are done, with `total` bytes of the body in the buffer.
abbrev pub collecting : HttpContext → ℕ → ℕ → HttpContext
collecting c size total = record c {
  is_processing_headers = false;
  response_buffer_count = total;
  response_body_total_count = total;
  content_length = size;
}

module _ {A : Type 0} (f : List ℕ → ℕ → A → Run (ContinueReceiving × A)) (r : HttpRequest A)
    (c : HttpContext) (size : ℕ) (block : List ℕ) (a : A) (P : A → Type 0) where
  -- `got` stands at the front of what was in the buffer when the body began.
  abbrev pub written : List ℕ → List ℕ
  written got = got ++ drop (length got) block

  abbrev pub collected : List ℕ → Exchange A
  collected got = record { context = collecting c size (length got); buffer = written got; app = a }

  abbrev pub Delivered : Bool × Exchange A → Type 0
  Delivered out = (out.0 ≡ false) × P out.1.app

  length-written : (got : List ℕ) → length got ≤ length block → length (written got) ≡ length block
  length-written got h =
      omega (arith, length-append got (drop (length got) block), length-drop (length got) block)

  delivered :
      (n : ℕ) (x : Exchange A)
      → r.body_callback ≡ some f
      → Returns (λ out. P out.1) (f x.buffer n x.app)
      → Returns Delivered (call_body r n x >>= λ out. done (false, out.1))
  unfolding call_body
  delivered n x cb h =
      rw cb (
        Returns->>=_assoc (λ out. P out.1) Delivered (f x.buffer n x.app) _ _ h
          (λ out k. (refl, k)))

  -- The body is complete, and is delivered, or more of it is waited for.
  pub process_body-collected :
      (got : List ℕ)
      → r.response_mode ≡ wait_for_complete_body
      → r.body_callback ≡ some f
      → length got ≤ size
      → ((length got < size) × (process_body r (collected got) ≡ done (true, collected got)))
        ⊎ ((length got ≡ size)
            × (Returns (λ out. P out.1) (f (written got) size a)
                → Returns Delivered (process_body r (collected got))))
  unfolding process_body process_whole_body
  process_body-collected got mode cb within = elim (Bool-cases (ltb (length got) size)) [
    | inl more ↦ inl (ground (arith, more), simp (mode, more) refl)
    | inr last ↦
        let whole : length got ≡ size = ground (arith, last) in
        inr (
          whole,
          λ h.
              simp (mode, last)
                (delivered (length got) (collected got) cb
                  (subst (λ k. Returns (λ out. P out.1) (f (written got) k a)) (sym whole) h)),
        )
  ]

  packet_lem :
      (index n : ℕ) (tls_buffer got : List ℕ)
      → r.response_buffer_len ≡ length block
      → size ≤ length block
      → length block < 2 ^ 32
      → n ≤ length tls_buffer
      → length got + n ≤ size
      → https_tls_callback r (suc index) tls_buffer n (collected got)
        ≡ process_body r (collected (got ++ take n tls_buffer))
  unfolding https_tls_callback process_packet accumulate after_headers
  packet_lem index n tls_buffer got same fits small has within =
      let got' = got ++ take n tls_buffer in
      let total : length got' ≡ length got + n =
        omega (arith, length-append got (take n tls_buffer), length-take n tls_buffer) in
      let grown : (length got + n) % 2 ^ 32 ≡ length got' = omega (arith, total) in
      let accepted : ltb r.response_buffer_len (length got') ≡ false = ground (arith, total) in
      let copied =
        memcpy_done (written got) (length got) tls_buffer n
          (omega (arith, length-written got (omega arith))) has
        ∙ ap done (splice-written got (take n tls_buffer) block) in
      rw (suc-ne-zero index, grown) (rw accepted (rw copied refl))

module _ {Cert A : Type 0} (m : Mbedtls Cert) (f : List ℕ → ℕ → A → Run (ContinueReceiving × A))
    (r : HttpRequest A) (c : HttpContext) (size : ℕ) (block : List ℕ) (a : A) (P : A → Type 0) where
  -- The loop ends with 0 and a closed connection, and the application has got the body.
  abbrev pub BodyDelivered : ℤ × Tls Cert × Exchange A → Type 0
  BodyDelivered out = (out.0 ≡ pos 0) × (out.1.is_valid ≡ false) × P out.2.app

  -- In the mode that waits for the complete body, the body goes to the application's callback in one
  -- call, once all of it has arrived, in whatever packets: the callback finds the body at the front
  -- of the buffer and is told its length. Behind the body stands what stood there before: no 0
  -- ends it. This is so for a body that fits the buffer and is not yet complete, once the
  -- headers are done.
  pub read_loop-BodyDelivered :
      (replies : List (ℤ × List ℕ)) (tls : Tls Cert) (index : ℕ) (got : List ℕ)
      → r.response_mode ≡ wait_for_complete_body
      → r.body_callback ≡ some f
      → r.response_buffer_len ≡ length block
      → size ≤ length block
      → length block < 2 ^ 32
      → length got < size
      → Arrives m (length block) (size - length got) replies
      → let body = got ++ payload (size - length got) replies in
        Returns (λ out. P out.1) (f (body ++ drop size block) size a)
        → Returns BodyDelivered (
            read_loop m
              (https_tls_callback r)
              tls
              (suc index)
              (collected f r c size block a P got)
              replies)
  unfolding read_loop wifi_tls_disconnect wifi_tls_reset_context
  read_loop-BodyDelivered [] tls index got mode cb same fits small more arr h = absurd arr
  read_loop-BodyDelivered ((pos zero, b) ∷ replies) tls index got mode cb same fits small more arr
        h =
      absurd arr
  read_loop-BodyDelivered ((negsuc k, b) ∷ replies) tls index got mode cb same fits small more
        (again, arr) h =
      rw again (read_loop-BodyDelivered replies tls index got mode cb same fits small more arr h)
  read_loop-BodyDelivered ((pos (suc k), b) ∷ replies) tls index got mode cb same fits small more
        (inside, has, within, rest) h =
      let n = suc k in
      let left = size - length got in
      let got' = got ++ take n b in
      let total : length got' ≡ length got + n =
        omega (arith, length-append got (take n b), length-take n b) in
      let step =
        packet_lem f r c size block a P index n b got same fits small has (omega (arith, within)) in
      elim (process_body-collected f r c size block a P got' mode cb
        (omega (arith, total, within))) [
          | inl (unfinished, e) ↦ elim rest [
            | inl last ↦ absurd (omega (arith, unfinished, total, last))
            | inr arr ↦
                let going : leb left n ≡ false = ground (arith, unfinished, total) in
                let left' : left - n ≡ size - length got' = omega (arith, total) in
                let next : suc index + 1 ≡ suc (suc index) = omega arith in
                let bytes = append_assoc got (take n b) (payload (size - length got') replies) in
                rw (step ∙ e) (
                  rw next (
                    read_loop-BodyDelivered replies tls (suc index) got' mode cb same fits small
                      unfinished (rw left' at arr) (rw (going, left', ← bytes) at h)))
          ]
          | inr (whole, deliver) ↦
              let closed : leb left n ≡ true = ground (arith, whole, total) in
              let at_end : Returns (λ out. P out.1) (f (got' ++ drop (length got') block) size a) =
                subst (λ k. Returns (λ out. P out.1) (f (got' ++ drop k block) size a)) (sym whole)
                  (rw (closed, append-nil (take n b)) at h) in
              Returns->>= (Delivered f r c size block a P) BodyDelivered
                (https_tls_callback r (suc index) b n (collected f r c size block a P got)) _
                (rw step (deliver at_end)) (λ out (stop, got_it). rw stop (refl, refl, got_it))
        ]
