-- ===== src/Http/Response.antt =====
-- A whole response in the streaming mode: the packet with the headers and the packets with the rest
-- of the body, as `wifi_tls_send_request` of main/wifi_tls.c reads them and `https_tls_callback` of
-- main/https_client.c takes them.
use esp32_ota_https.Prelude.{
  leb, if◌then◌else◌, ℤ, pos, negsuc, length, take, drop, length-take, length-drop, Run, done,
  Returns, Returns->>=, ℕ, zero, suc, ◌+◌, ◌-◌, ◌^◌, ◌≤◌, ◌<◌, ◌≡◌, refl, ◌⊎◌, inl, inr, Bool, true,
  false, some, List, [], ◌∷◌, ◌++◌, append-nil, arith,
}
use esp32_ota_https.Http.{stream_body, ContinueReceiving, HttpRequest, HttpContext, Exchange}
use esp32_ota_https.Http.Callback.{https_tls_callback}
use esp32_ota_https.Http.Stream.{Consumer, PacketDone}
use esp32_ota_https.Http.First.{first_packet-PacketDone}
use esp32_ota_https.Http.Download.{Arrives, payload, Downloaded, read_loop-Downloaded}
use esp32_ota_https.Tls.{Mbedtls, Tls, wifi_tls_reset_context, wifi_tls_disconnect, wants_more}
use esp32_ota_https.Tls.Connection.{read_loop}
use esp32_ota_https.Http.Headers.{headers, HasHeaders}

module _ {Cert A : Type 0} (m : Mbedtls Cert) (r : HttpRequest A) where
  -- The response arrives: waits, a packet with all the headers, which fill `i + 4` bytes of it, and
  -- perhaps the beginning of the body, and then the packets with the rest of the `size` bytes.
  abbrev pub ResponseArrives : ℕ → ℕ → List ℕ → List (ℤ × List ℕ) → Type 0
  ResponseArrives i size buffer [] = ⊥
  ResponseArrives i size buffer ((pos zero, tls_buffer) ∷ replies) = ⊥
  ResponseArrives i size buffer ((pos (suc k), tls_buffer) ∷ replies) =
      (suc k ≤ r.response_buffer_len)
      × (suc k ≤ length tls_buffer)
      × (i + 4 ≤ suc k)
      × (suc k - (i + 4) ≤ size)
      × HasHeaders r tls_buffer (suc k) i size buffer
      × ((suc k - (i + 4) ≡ size)
          ⊎ Arrives m r.response_buffer_len (size - (suc k - (i + 4))) replies)
  ResponseArrives i size buffer ((negsuc k, tls_buffer) ∷ replies) =
      (wants_more m (negsuc k) ≡ true) × ResponseArrives i size buffer replies

-- The bytes of the body in such a response.
abbrev pub response_body : ℕ → ℕ → List (ℤ × List ℕ) → List ℕ
response_body i size [] = []
response_body i size ((pos n, tls_buffer) ∷ replies) =
    let first = n - (i + 4) in
    take first (drop (i + 4) tls_buffer)
    ++ (if leb size first then [] else payload (size - first) replies)
response_body i size ((negsuc k, tls_buffer) ∷ replies) = response_body i size replies

module _ {Cert A : Type 0} (m : Mbedtls Cert) (f : List ℕ → ℕ → A → Run (ContinueReceiving × A))
    (limit size : ℕ) (consumer : Consumer f limit size) (r : HttpRequest A) where
  first_length :
      (n i : ℕ) (tls_buffer : List ℕ)
      → n ≤ length tls_buffer
      → i + 4 ≤ n
      → length (take (n - (i + 4)) (drop (i + 4) tls_buffer)) ≡ n - (i + 4)
  first_length n i tls_buffer has inside =
      omega
        (arith, length-take (n - (i + 4)) (drop (i + 4) tls_buffer), length-drop (i + 4) tls_buffer)

  -- Behind the packet with the headers.
  rest-Downloaded :
      (c : HttpContext) (first : ℕ) (body : List ℕ) (replies : List (ℤ × List ℕ))
      (tls closed : Tls Cert) (out : Bool × Exchange A)
      → r.response_mode ≡ stream_body
      → r.body_callback ≡ some f
      → r.response_buffer_len ≡ limit
      → size < 2 ^ 31
      → closed.is_valid ≡ false
      → length body ≡ first
      → (first ≡ size) ⊎ Arrives m limit (size - first) replies
      → PacketDone f limit size consumer c body out
      → let rest = read_loop m (https_tls_callback r) tls 1 out.1 replies in
        Returns
          (Downloaded m f limit size consumer c r
            (body ++ (if leb size first then [] else payload (size - first) replies)))
          (if out.0 then rest else done (pos 0, closed, out.1))
  rest-Downloaded c first body replies tls closed out mode cb same small off n more
        (inl (go_on, waits)) =
      elim more [
        | inl whole ↦ absurd (omega (arith, waits.more, n))
        | inr arrives ↦
            let unfinished : leb size first ≡ false = ground (arith, waits.more, n) in
            let left : size - first ≡ size - length body = omega (arith, n) in
            rw go_on (
              rw (unfinished, left)
                (read_loop-Downloaded m f limit size consumer c r replies tls 0 body out.1 mode cb
                  same (omega arith) waits (rw left at arrives)))
      ]
  rest-Downloaded c first body replies tls closed out mode cb same small off n more
        (inr (stop, over)) =
      elim over [
        | inl stopped ↦ rw stop (refl, off, inl stopped)
        | inr whole ↦
            let finished : leb size first ≡ true = ground (arith, whole.0, n) in
            rw stop (rw (finished, append-nil body) (refl, off, inr (whole.1)))
      ]

  -- A whole response with status 200 and a content length below 2 GB, whose headers are in its first
  -- packet: the bytes behind the headers, however they are cut into packets, go to the application's
  -- callback, once and in order, and then the callback is told the end; or the callback stops before.
  -- The loop returns 0 with the connection closed.
  pub response-Downloaded :
      (replies : List (ℤ × List ℕ)) (tls : Tls Cert) (i : ℕ) (x : Exchange A)
      → r.response_mode ≡ stream_body
      → r.body_callback ≡ some f
      → r.response_buffer_len ≡ limit
      → length x.buffer ≡ limit
      → limit < 2 ^ 32
      → 0 < size
      → size < 2 ^ 31
      → consumer.Inv [] x.app
      → ResponseArrives m r i size x.buffer replies
      → Returns
          (Downloaded m f limit size consumer x.context r (response_body i size replies))
          (read_loop m (https_tls_callback r) tls 0 x replies)
  unfolding read_loop wifi_tls_disconnect wifi_tls_reset_context
  response-Downloaded [] tls i x mode cb same room small some_bytes small' start arr = absurd arr
  response-Downloaded ((pos zero, b) ∷ replies) tls i x mode cb same room small some_bytes small'
        start arr =
      absurd arr
  response-Downloaded ((negsuc k, b) ∷ replies) tls i x mode cb same room small some_bytes small'
        start (again, arr) =
      rw again
        (response-Downloaded replies tls i x mode cb same room small some_bytes small' start arr)
  response-Downloaded ((pos (suc k), b) ∷ replies) tls i x mode cb same room small some_bytes small'
        start (fits, has, inside, within, headers, more) =
      let n = suc k in
      let body = take (n - (i + 4)) (drop (i + 4) b) in
      let c' =
        wifi_tls_disconnect (record tls { net = record (tls.net) { read_replies = replies } }) in
      Returns->>= (PacketDone f limit size consumer x.context body)
        (Downloaded m f limit size consumer x.context r
          (response_body i size ((pos n, b) ∷ replies)))
        (https_tls_callback r 0 b n x) _
        (first_packet-PacketDone f limit size consumer r n i b x mode cb same room small some_bytes
          small' (omega arith) has inside within headers start)
        (λ out h.
          rest-Downloaded x.context (n - (i + 4)) body replies tls c' out mode cb same small' refl
            (first_length n i b has inside) (rw same at more) h)
