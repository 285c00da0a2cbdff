-- ===== src/Tls/Send.antt =====
-- `wifi_tls_send_request` of main/wifi_tls.c as a whole: the request goes out, and then the response
-- is read.
use esp32_ota_https.Prelude.{
  suc-ne-zero, Bool-cases, ℤ, pos, negsuc, take, drop, Run, Ensures, Returns, Ensures->>=,
  Returns->>=, Ensures-trivial, Returns-and-Ensures, ℕ, zero, suc, ◌+◌, ◌-◌, ◌%◌, ◌^◌, ◌≤◌, ◌<◌,
  ◌≡◌, refl, ◌∙◌, inl, inr, Bool, true, List, [], ◌∷◌, ◌++◌, arith,
}
use esp32_ota_https.Tls.{
  sent, TlsLog, Mbedtls, Tls, wifi_tls_reset_context, wifi_tls_disconnect, wants_more,
}
use esp32_ota_https.Tls.Connection.{write_loop, read_loop, wifi_tls_send_request}
use esp32_ota_https.Tls.Loops.{sent_bytes, Accepts, RequestWritten, write_loop-RequestWritten}

module _ {Cert : Type 0} (m : Mbedtls Cert) where
  -- mbedTLS takes the `len` bytes of a request in the end, in pieces and with waits between them.
  abbrev pub Takes : ℕ → List ℤ → Type 0
  Takes zero replies = Unit
  Takes (suc n) [] = ⊥
  Takes (suc n) (pos zero ∷ replies) = (wants_more m (pos 0) ≡ true) × Takes (suc n) replies
  Takes (suc n) (pos (suc k) ∷ replies) = (k ≤ n) × Takes (n - k) replies
  Takes (suc n) (negsuc k ∷ replies) = (wants_more m (negsuc k) ≡ true) × Takes (suc n) replies

  Takes→Accepts : (len : ℕ) (replies : List ℤ) → Takes len replies → Accepts len replies
  Takes→Accepts zero [] h = tt
  Takes→Accepts zero (r ∷ replies) h = tt
  Takes→Accepts (suc n) [] h = absurd h
  Takes→Accepts (suc n) (pos zero ∷ replies) h = Takes→Accepts (suc n) replies h.1
  Takes→Accepts (suc n) (pos (suc k) ∷ replies) h = (h.0, Takes→Accepts (n - k) replies h.1)
  Takes→Accepts (suc n) (negsuc k ∷ replies) h = Takes→Accepts (suc n) replies h.1

  -- The loop ends with success, and the replies to reads are still to come.
  abbrev Gone : Tls Cert → Bool × Tls Cert → Type 0
  Gone c out = (out.0 ≡ true) × (out.1.net.read_replies ≡ c.net.read_replies)

  write_loop-Gone :
      (replies : List ℤ) (c : Tls Cert) (rest : List ℕ) (len : ℕ)
      → len < 2 ^ 32
      → Takes len replies
      → Returns (Gone c) (write_loop m c rest len replies)
  unfolding write_loop
  write_loop-Gone [] c rest zero small h = (refl, refl)
  write_loop-Gone [] c rest (suc n) small h = absurd h
  write_loop-Gone (r ∷ replies) c rest zero small h = (refl, refl)
  write_loop-Gone (pos zero ∷ replies) c rest (suc n) small h =
      rw (suc-ne-zero n, h.0) (write_loop-Gone replies c rest (suc n) small h.1)
  write_loop-Gone (pos (suc k) ∷ replies) c rest (suc n) small h =
      let c' = record c {
        net = record (c.net) { write_replies = replies };
        log = sent (take (suc k) rest) ∷ c.log;
      } in
      let left : (suc n + 2 ^ 32 - suc k) % 2 ^ 32 ≡ n - k = omega (arith, h.0) in
      rw (suc-ne-zero n, left)
        (write_loop-Gone replies c' (drop (suc k) rest) (n - k) (omega arith) h.1)
  write_loop-Gone (negsuc k ∷ replies) c rest (suc n) small h =
      rw (suc-ne-zero n, h.0) (write_loop-Gone replies c rest (suc n) small h.1)

  -- All bytes of the request have been sent, once and in order.
  abbrev pub AllSent : TlsLog → List ℕ → TlsLog → Type 0
  AllSent before bytes after = sent_bytes after ≡ sent_bytes before ++ bytes

  write_loop-AllSent :
      (replies : List ℤ) (c : Tls Cert) (rest : List ℕ) (len : ℕ)
      → len < 2 ^ 32
      → Takes len replies
      → Returns
          (λ out. Gone c out × AllSent c.log (take len rest) out.1.log)
          (write_loop m c rest len replies)
  write_loop-AllSent replies c rest len small h =
      Returns-and-Ensures (Gone c) (RequestWritten m c rest len) _ (write_loop m c rest len replies)
        (λ out gone written. elim written [
          | inl all ↦ (gone, all.1)
          | inr failed ↦ absurd (ground (arith, gone.0, failed.0))
        ])
        (write_loop-Gone replies c rest len small h)
        (write_loop-RequestWritten m replies c rest len small (Takes→Accepts len replies h))

  module _ {S : Type 0} (callback : ℕ → List ℕ → ℕ → S → Run (Bool × S)) where
    -- Nothing is sent while the response is read.
    abbrev Silent : Tls Cert → ℤ × Tls Cert × S → Type 0
    Silent c out = sent_bytes out.1.log ≡ sent_bytes c.log

    read_loop-Silent :
        (replies : List (ℤ × List ℕ)) (c : Tls Cert) (index : ℕ) (s : S)
        → Ensures (Silent c) (read_loop m callback c index s replies)
    unfolding read_loop wifi_tls_disconnect wifi_tls_reset_context
    read_loop-Silent [] c index s = tt
    read_loop-Silent ((pos zero, b) ∷ replies) c index s = refl
    read_loop-Silent ((pos (suc k), b) ∷ replies) c index s =
        Ensures->>= (λ _. Unit {0}) (Silent c) (callback index b (suc k) s) _
          (Ensures-trivial (callback index b (suc k) s))
          (λ out _. elim (Bool-cases out.0) [
            | inl more ↦ rw more (read_loop-Silent replies c (index + 1) out.1)
            | inr over ↦ rw over refl
          ])
    read_loop-Silent ((negsuc k, b) ∷ replies) c index s =
        elim (Bool-cases (wants_more m (negsuc k))) [
          | inl again ↦ rw again (read_loop-Silent replies c index s)
          | inr over ↦ rw over refl
        ]

    -- A request that is taken is sent as it is, and the loop that reads the response follows:
    -- what that establishes from the replies still to come holds in the end.
    pub wifi_tls_send_request-AllSent :
        (P : ℤ × Tls Cert × S → Type 0) (c : Tls Cert) (request : List ℕ) (len : ℕ) (s : S)
        → len < 2 ^ 32
        → Takes len c.net.write_replies
        → ((c' : Tls Cert) → Returns P (read_loop m callback c' 0 s c.net.read_replies))
        → Returns
            (λ out. P out × AllSent c.log (take len request) out.1.log)
            (wifi_tls_send_request m callback c request len s)
    unfolding wifi_tls_send_request
    wifi_tls_send_request-AllSent P c request len s small h answer =
        let Q : ℤ × Tls Cert × S → Type 0 =
          λ out. P out × AllSent c.log (take len request) out.1.log in
        Returns->>= (λ out. Gone c out × AllSent c.log (take len request) out.1.log) Q
          (write_loop m c request len c.net.write_replies) _
          (write_loop-AllSent c.net.write_replies c request len small h)
          (λ out ((good, same), all).
            rw (good, same)
              (Returns-and-Ensures P (Silent out.1) Q
                (read_loop m callback out.1 0 s c.net.read_replies)
                (λ last p silent. (p, silent ∙ all)) (answer out.1)
                (read_loop-Silent c.net.read_replies out.1 0 s)))
