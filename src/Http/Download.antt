-- ===== src/Http/Download.antt =====
-- A whole body in the streaming mode: the packets that `wifi_tls_send_request` of main/wifi_tls.c
-- reads, handed through `https_tls_callback` to the application's callback.
use mathlib.Core.Path.{subst}
use esp32_ota_https.Prelude.{
  leb, if◌then◌else◌, ℤ, pos, negsuc, length, take, length-append, length-take, Run, Returns,
  Returns->>=, ℕ, zero, suc, ◌+◌, ◌-◌, ◌^◌, ◌≤◌, ◌<◌, ◌≡◌, refl, sym, ◌⊎◌, inl, inr, true, false,
  some, List, [], ◌∷◌, ◌++◌, append-nil, append_assoc, arith,
}
use esp32_ota_https.Http.{stream_body, ContinueReceiving, HttpRequest, HttpContext, Exchange}
use esp32_ota_https.Http.Callback.{https_tls_callback}
use esp32_ota_https.Http.Stream.{Consumer, Waits, PacketDone, packet-done}
use esp32_ota_https.Tls.{Mbedtls, Tls, wifi_tls_reset_context, wifi_tls_disconnect, wants_more}
use esp32_ota_https.Tls.Connection.{read_loop}

module _ {Cert : Type 0} (m : Mbedtls Cert) where
  -- The `left` bytes of the body that are missing arrive: in packets that fit the buffers, with
  -- waits between them, and without an end of the connection before.
  abbrev pub Arrives : ℕ → ℕ → List (ℤ × List ℕ) → Type 0
  Arrives limit left [] = ⊥
  Arrives limit left ((pos zero, tls_buffer) ∷ replies) = ⊥
  Arrives limit left ((pos (suc k), tls_buffer) ∷ replies) =
      (suc k ≤ limit)
      × (suc k ≤ length tls_buffer)
      × (suc k ≤ left)
      × ((suc k ≡ left) ⊎ Arrives limit (left - suc k) replies)
  Arrives limit left ((negsuc k, tls_buffer) ∷ replies) =
      (wants_more m (negsuc k) ≡ true) × Arrives limit left replies

-- The bytes in the packets up to the end of the body.
abbrev pub payload : ℕ → List (ℤ × List ℕ) → List ℕ
payload left [] = []
payload left ((pos n, tls_buffer) ∷ replies) =
    take n tls_buffer ++ (if leb left n then [] else payload (left - n) replies)
payload left ((negsuc k, tls_buffer) ∷ replies) = payload left replies

module _ {Cert A : Type 0} (m : Mbedtls Cert) (f : List ℕ → ℕ → A → Run (ContinueReceiving × A))
    (limit size : ℕ) (consumer : Consumer f limit size) (c : HttpContext) (r : HttpRequest A) where
  -- What the loop leaves behind, if the callback has got `bytes` or has stopped before.
  abbrev pub Downloaded : List ℕ → ℤ × Tls Cert × Exchange A → Type 0
  Downloaded bytes out =
      (out.0 ≡ pos 0)
      × (out.1.is_valid ≡ false)
      × (consumer.Stopped out.2.app ⊎ consumer.Final bytes out.2.app)

  packet-Waits :
      (index n : ℕ) (tls_buffer got : List ℕ) (x : Exchange A)
      → r.response_mode ≡ stream_body
      → r.body_callback ≡ some f
      → r.response_buffer_len ≡ limit
      → size < 2 ^ 32
      → 0 < n
      → n ≤ limit
      → n ≤ length tls_buffer
      → length got + n ≤ size
      → Waits f limit size consumer c got x
      → Returns
          (PacketDone f limit size consumer c (got ++ take n tls_buffer))
          (https_tls_callback r (suc index) tls_buffer n x)
  packet-Waits index n tls_buffer got x mode cb same small some_bytes fits has within w =
      subst
        (λ y.
          Returns (PacketDone f limit size consumer c (got ++ take n tls_buffer))
            (https_tls_callback r (suc index) tls_buffer n y))
        (sym w.is_waiting)
        (packet-done f limit size consumer c r index n tls_buffer x.buffer got x.app mode cb same
          w.room small some_bytes fits has within w.consumed)

  -- Once the headers are done, every byte of the body goes to the application's callback, once and
  -- in order, and then the callback is told the end; or the callback stops before. The loop returns
  -- 0 with the connection closed. This is so however the body is cut into packets, if they fit the
  -- buffers and all of them arrive, for a body of less than 4 GB.
  pub read_loop-Downloaded :
      (replies : List (ℤ × List ℕ)) (tls : Tls Cert) (index : ℕ) (got : List ℕ) (x : Exchange A)
      → r.response_mode ≡ stream_body
      → r.body_callback ≡ some f
      → r.response_buffer_len ≡ limit
      → size < 2 ^ 32
      → Waits f limit size consumer c got x
      → Arrives m limit (size - length got) replies
      → Returns
          (Downloaded (got ++ payload (size - length got) replies))
          (read_loop m (https_tls_callback r) tls (suc index) x replies)
  unfolding read_loop wifi_tls_disconnect wifi_tls_reset_context
  read_loop-Downloaded [] tls index got x mode cb same small w arr = elim arr [ ]
  read_loop-Downloaded ((pos zero, b) ∷ replies) tls index got x mode cb same small w arr =
      elim arr [ ]
  read_loop-Downloaded ((negsuc k, b) ∷ replies) tls index got x mode cb same small w (again, arr) =
      rw again (read_loop-Downloaded replies tls index got x mode cb same small w arr)
  read_loop-Downloaded ((pos (suc k), b) ∷ replies) tls index got x mode cb same small w
        (fits, has, within, rest) =
      let n = suc k in
      let left = size - length got in
      let got' = got ++ take n b in
      let more : length got < size = w.more in
      let total : length got' ≡ length got + n =
        omega (arith, length-append got (take n b), length-take n b) in
      let bytes = got ++ (take n b ++ (if leb left n then [] else payload (left - n) replies)) in
      Returns->>= (PacketDone f limit size consumer c got') (Downloaded bytes)
        (https_tls_callback r (suc index) b n x) _
        (packet-Waits index n b got x mode cb same small (omega arith) fits has (omega arith) w)
        λ out h. elim h [
          | inl go_on ↦ elim rest [
            | inl last ↦ absurd (omega (arith, (go_on.1).more, total))
            | inr arr ↦
                let unfinished : leb left n ≡ false = ground (arith, (go_on.1).more, total) in
                let left' : left - n ≡ size - length got' = omega (arith, total) in
                let next : suc index + 1 ≡ suc (suc index) = omega arith in
                rw (go_on.0) (
                  rw
                    (
                      unfinished,
                      next,
                      left',
                      ← append_assoc got (take n b) (payload (size - length got') replies),
                    )
                    (read_loop-Downloaded replies tls (suc index) got' out.1 mode cb same small
                      (go_on.1) (rw left' at arr)))
          ]
          | inr over ↦ elim (over.1) [
            | inl stopped ↦ rw (over.0) (refl, refl, inl stopped)
            | inr whole ↦
                let closed : leb left n ≡ true = ground (arith, whole.0, total) in
                rw (over.0) (rw (closed, append-nil (take n b)) (refl, refl, inr (whole.1)))
          ]
        ]
