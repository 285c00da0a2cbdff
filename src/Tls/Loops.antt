-- ===== src/Tls/Loops.antt =====
-- The three loops of main/wifi_tls.c: when they end, and what has gone through them.
use esp32_ota_https.Prelude.{
  if◌then◌else◌, suc-ne-zero, Bool-cases, ℤ, pos, negsuc, is_zero, take, drop, take-add, Run, done,
  Ensures, Returns, Ensures-mono, ℕ, zero, suc, ◌+◌, ◌-◌, ◌%◌, ◌^◌, ◌≤◌, ◌<◌, ◌≡◌, refl, sym, ap,
  ◌∙◌, ◌⊎◌, inl, inr, Bool, true, false, ◌||◌, not, List, [], ◌∷◌, ◌++◌, append-nil, append_assoc,
  arith,
}
use esp32_ota_https.Tls.{
  sent, TlsLog, Mbedtls, Tls, minus_one, wifi_tls_reset_context, wifi_tls_disconnect, wants_more,
  handshake_loop, wifi_tls_handshake,
}
use esp32_ota_https.Tls.Connection.{write_loop}

-- The bytes that were sent, oldest first.
abbrev pub sent_bytes : TlsLog → List ℕ
sent_bytes [] = []
sent_bytes (sent bytes ∷ log) = sent_bytes log ++ bytes
sent_bytes (_ ∷ log) = sent_bytes log

-- `mbedtls_ssl_write` does not report more bytes than it was given: the replies to the writes of a
-- request of `len` bytes.
abbrev pub Accepts : ℕ → List ℤ → Type 0
Accepts len [] = Unit
Accepts zero (r ∷ replies) = Unit
Accepts (suc n) (pos zero ∷ replies) = Accepts (suc n) replies
Accepts (suc n) (pos (suc k) ∷ replies) = (k ≤ n) × Accepts (n - k) replies
Accepts (suc n) (negsuc k ∷ replies) = Accepts (suc n) replies

module _ {Cert : Type 0} (m : Mbedtls Cert) where
  -- Replies with which mbedTLS asks to be called again.
  abbrev pub Waits : List ℤ → Type 0
  Waits [] = Unit
  Waits (r ∷ replies) = (is_zero r ≡ false) × (wants_more m r ≡ true) × Waits replies

  -- The verdict on the reply that ends the handshake.
  abbrev pub handshake_verdict : ℤ → ℤ
  handshake_verdict r = if is_zero r then pos 0 else minus_one

  handshake_loop-final :
      (waiting : List ℤ) (r : ℤ) (rest : List ℤ)
      → Waits waiting
      → is_zero r || not (wants_more m r) ≡ true
      → handshake_loop m (waiting ++ r ∷ rest) ≡ done (handshake_verdict r, r, rest)
  unfolding handshake_loop
  handshake_loop-final [] r rest w final = elim (Bool-cases (is_zero r)) [
    | inl good ↦ rw good refl
    | inr bad ↦
        let over : wants_more m r ≡ false = ground (arith, final, bad) in rw (bad, over) refl
  ]
  handshake_loop-final (q ∷ waiting) r rest w final =
      rw (w.0, w.1) (handshake_loop-final waiting r rest (w.2) final)

  -- The handshake ends with the first reply of mbedTLS other than "want read" and "want write", and
  -- asks for no further one: its result is 0 if that reply is 0, and -1 otherwise.
  pub wifi_tls_handshake-Returns :
      (c : Tls Cert) (waiting : List ℤ) (r : ℤ) (rest : List ℤ)
      → c.net.handshake_replies ≡ waiting ++ r ∷ rest
      → Waits waiting
      → is_zero r || not (wants_more m r) ≡ true
      → Returns
          (λ out. (out.0 ≡ handshake_verdict r) × (out.1.net.handshake_replies ≡ rest))
          (wifi_tls_handshake m c)
  unfolding wifi_tls_handshake
  wifi_tls_handshake-Returns c waiting r rest e w final =
      rw (e, handshake_loop-final waiting r rest w final) (refl, refl)

  -- What the loop that writes a request leaves behind.
  abbrev pub RequestWritten : Tls Cert → List ℕ → ℕ → Bool × Tls Cert → Type 0
  RequestWritten c rest len out =
      ((out.0 ≡ true) × (sent_bytes out.1.log ≡ sent_bytes c.log ++ take len rest))
      ⊎ ((out.0 ≡ false)
          × (out.1.is_valid ≡ false)
          × (n : ℕ) × (n < len)
          × (sent_bytes out.1.log ≡ sent_bytes c.log ++ take n rest))

  written_more :
      (c c' : Tls Cert) (rest : List ℕ) (len k : ℕ) (out : Bool × Tls Cert)
      → k ≤ len
      → sent_bytes c'.log ≡ sent_bytes c.log ++ take k rest
      → RequestWritten c' (drop k rest) (len - k) out
      → RequestWritten c rest len out
  written_more c c' rest len k out h e (inl (good, all)) = inl (
    good,
    joined (len - k) all
        ∙ ap (λ j. sent_bytes c.log ++ take j rest) {x = k + (len - k)} (omega arith),
  )
    where
      joined :
          (n : ℕ)
          → sent_bytes out.1.log ≡ sent_bytes c'.log ++ take n (drop k rest)
          → sent_bytes out.1.log ≡ sent_bytes c.log ++ take (k + n) rest
      joined n h' =
          h'
          ∙ ap (λ b. b ++ take n (drop k rest)) e
          ∙ append_assoc (sent_bytes c.log) (take k rest) (take n (drop k rest))
          ∙ ap (λ b. sent_bytes c.log ++ b) (sym (take-add k n rest))
  written_more c c' rest len k out h e (inr (bad, invalid, n, lt, part)) = inr (
    bad,
    invalid,
    k + n,
    omega arith,
    part
        ∙ ap (λ b. b ++ take n (drop k rest)) e
        ∙ append_assoc (sent_bytes c.log) (take k rest) (take n (drop k rest))
        ∙ ap (λ b. sent_bytes c.log ++ b) (sym (take-add k n rest)),
  )

  refused_lem :
      (r : ℤ) (c c' : Tls Cert) (rest : List ℕ) (n : ℕ) (retried : Run (Bool × Tls Cert))
      → c'.log ≡ c.log
      → Ensures (RequestWritten c rest (suc n)) retried
      → Ensures
          (RequestWritten c rest (suc n))
          (if wants_more m r then retried else done (false, wifi_tls_disconnect c'))
  unfolding wifi_tls_disconnect wifi_tls_reset_context
  refused_lem r c c' rest n retried e h = elim (Bool-cases (wants_more m r)) [
    | inl again ↦ rw again h
    | inr over ↦
        rw over (inr (refl, refl, 0, omega arith, rw e (sym (append-nil (sent_bytes c.log)))))
  ]

  -- The first loop of `wifi_tls_send_request` sends the bytes of the request once and in order, if
  -- these are less than 4 GB and mbedTLS reports no more bytes than it was given: all of them if the
  -- loop ends with success, and otherwise a proper prefix, and then the context is not
  -- valid.
  pub write_loop-RequestWritten :
      (replies : List ℤ) (c : Tls Cert) (rest : List ℕ) (len : ℕ)
      → len < 2 ^ 32
      → Accepts len replies
      → Ensures (RequestWritten c rest len) (write_loop m c rest len replies)
  unfolding write_loop
  write_loop-RequestWritten [] c rest zero small a = inl (refl, sym (append-nil (sent_bytes c.log)))
  write_loop-RequestWritten [] c rest (suc n) small a = rw (suc-ne-zero n) tt
  write_loop-RequestWritten (r ∷ replies) c rest zero small a =
      inl (refl, sym (append-nil (sent_bytes c.log)))
  write_loop-RequestWritten (pos zero ∷ replies) c rest (suc n) small a =
      let c' = record c { net = record (c.net) { write_replies = replies } } in
      rw (suc-ne-zero n) (
        refused_lem (pos 0) c c' rest n (write_loop m c rest (suc n) replies) refl
          (write_loop-RequestWritten replies c rest (suc n) small a))
  write_loop-RequestWritten (pos (suc k) ∷ replies) c rest (suc n) small a =
      let c' = record c {
        net = record (c.net) { write_replies = replies };
        log = sent (take (suc k) rest) ∷ c.log;
      } in
      let left : (suc n + 2 ^ 32 - suc k) % 2 ^ 32 ≡ n - k = omega (arith, a.0) in
      rw (suc-ne-zero n, left)
        (Ensures-mono (RequestWritten c' (drop (suc k) rest) (n - k))
          (RequestWritten c rest (suc n)) (write_loop m c' (drop (suc k) rest) (n - k) replies)
          (λ out h.
            written_more c c' rest (suc n) (suc k) out (omega (arith, a.0)) refl
              (let e : suc n - suc k ≡ n - k = omega arith in rw e h))
          (write_loop-RequestWritten replies c' (drop (suc k) rest) (n - k) (omega arith) (a.1)))
  write_loop-RequestWritten (negsuc k ∷ replies) c rest (suc n) small a =
      let c' = record c { net = record (c.net) { write_replies = replies } } in
      rw (suc-ne-zero n) (
        refused_lem (negsuc k) c c' rest n (write_loop m c rest (suc n) replies) refl
          (write_loop-RequestWritten replies c rest (suc n) small a))
