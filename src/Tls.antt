-- ===== src/Tls.antt =====
-- main/wifi_tls.c and main/wifi_tls.h: TLS connections with certificate pinning, and requests whose
-- response is handed to a callback.
--
-- mbedTLS is no code of this repository. `Mbedtls` holds its replies, as functions of the calls made
-- before; a `Net` holds the replies of the calls that are made in loops, in their order. A loop that
-- has used up its replies waits for the peer: it is `blocked`.
pub mod Pinning
pub mod Connection
pub mod Keys
pub mod Trust
pub mod Loops
pub mod Send
pub mod Port
pub mod Secured
mod Tests
use esp32_ota_https.Prelude.{
  ltb, leb, if◌then◌else◌, ℤ, pos, negsuc, is_zero, ◌==ℤ◌, Run, done, blocked, ◌>>=◌, ℕ, Bool, true,
  false, ◌&&◌, ◌||◌, Option, none, some, List, [], ◌∷◌, ◌++◌,
}
use esp32_ota_https.CText.{atoi}

-- The calls that matter to a peer, newest first, with what they gave; `handshaken` has the last reply
-- of `mbedtls_ssl_handshake`.
pub data TlsEvent : Type 0 where
  connected : ℤ → TlsEvent
  handshaken : ℤ → TlsEvent
  verified : ℕ → TlsEvent
  pinned : ℤ → TlsEvent
  sent : List ℕ → TlsEvent
  disconnected reset : TlsEvent

abbrev pub TlsLog : Type 0
TlsLog = List TlsEvent

pub record Mbedtls (Cert : Type 0) : Type 0 where
  -- MBEDTLS_ERR_SSL_WANT_READ and MBEDTLS_ERR_SSL_WANT_WRITE
  pub want_read : ℤ
  pub want_write : ℤ
  pub ctr_drbg_seed : TlsLog → ℤ
  pub x509_crt_parse : List ℕ → ℤ × Cert
  pub ssl_setup : TlsLog → ℤ
  -- the name of the server and the text of the port
  pub net_connect : TlsLog → List ℕ → List ℕ → ℤ
  pub ssl_get_verify_result : TlsLog → ℕ
  pub ssl_get_peer_cert : TlsLog → Option Cert
  -- the length, or a negative error, and the new contents of the buffer
  pub pk_write_pubkey_der : Cert → List ℕ → ℤ × List ℕ
  -- whether the two buffers for the public keys can be allocated
  pub calloc : TlsLog → Bool × Bool

-- The replies that are still to come. A read gives its result, and the response buffer after it.
pub record Net : Type 0 where
  pub handshake_replies : List ℤ
  pub write_replies : List ℤ
  pub read_replies : List (ℤ × List ℕ)

-- `wifi_tls_context_t`, with the network behind it and the log of the calls.
pub record Tls (Cert : Type 0) : Type 0 where
  pub is_valid : Bool
  pub server_host_name : List ℕ
  pub server_root_ca_public_key_pem : List ℕ
  pub peer_public_key_pem : List ℕ
  pub server_port : ℕ
  pub peer_cert : Option Cert
  pub net : Net
  pub log : TlsLog

-- `wifi_tls_init_struct_t`
pub record TlsInit : Type 0 where
  pub host_name : Option (List ℕ)
  pub port : Option (List ℕ)
  pub root_ca_public_key_pem : Option (List ℕ)
  pub peer_public_key_pem : Option (List ℕ)

abbrev pub all_true : List Bool → Bool
all_true [] = true
all_true (b ∷ bs) = b && all_true bs

abbrev pub minus_one : ℤ
minus_one = negsuc 0

module _ {Cert : Type 0} where
  -- The context that `wifi_tls_create_context` sets up, once all is allocated.
  abbrev pub new_context : Net → List ℕ → List ℕ → List ℕ → ℕ → Tls Cert
  new_context n host root peer port = record {
    is_valid = false;
    server_host_name = host;
    server_root_ca_public_key_pem = root;
    peer_public_key_pem = peer;
    server_port = port;
    peer_cert = none;
    net = n;
    log = [];
  }

  -- The part of `wifi_tls_create_context` behind the test for missing parameters. The four
  -- allocations are made one after the other, and all is released if one fails.
  unfoldable pub create_context_for :
      Net → List Bool → List ℕ → List ℕ → List ℕ → List ℕ → Run (Option (Tls Cert))
  create_context_for n allocations host port root peer = do
    -- the port is a text that ends with its last byte
    server_port ← atoi (port ++ 0 ∷ [])
    let valid : Bool = elim server_port [ pos k ↦ ltb 0 k && leb k 65535 | negsuc k ↦ false ]
    let number : ℕ = elim server_port [ pos k ↦ k | negsuc k ↦ 0 ]
    done
        (if valid && all_true allocations then some (new_context n host root peer number) else none)

  unfoldable pub wifi_tls_create_context : Net → List Bool → TlsInit → Run (Option (Tls Cert))
  unfolding create_context_for
  wifi_tls_create_context n allocations params = elim (params.port) [
    | none ↦ done none
    | some port ↦ elim (params.host_name) [
      | none ↦ done none
      | some host ↦ elim (params.root_ca_public_key_pem) [
        | none ↦ done none
        | some root ↦ elim (params.peer_public_key_pem) [
          | none ↦ done none
          | some peer ↦ create_context_for n allocations host port root peer
        ]
      ]
    ]
  ]

  unfoldable pub wifi_tls_reset_context : Tls Cert → Tls Cert
  wifi_tls_reset_context c = record c { is_valid = false; log = reset ∷ c.log }

  unfoldable pub wifi_tls_disconnect : Tls Cert → Tls Cert
  unfolding wifi_tls_reset_context
  wifi_tls_disconnect c = wifi_tls_reset_context (record c { log = disconnected ∷ c.log })

module _ {Cert : Type 0} (m : Mbedtls Cert) where
  -- The steps of `wifi_tls_init_context` that can fail, one after the other.
  unfoldable pub init_steps : Tls Cert → Bool × Tls Cert
  init_steps c =
      let (root_result, _) = m.x509_crt_parse (c.server_root_ca_public_key_pem ++ 0 ∷ []) in
      let (peer_result, peer) = m.x509_crt_parse (c.peer_public_key_pem ++ 0 ∷ []) in
      let c' = record c { peer_cert = some peer } in
      if is_zero (m.ctr_drbg_seed c.log)
      then if is_zero root_result
        then if is_zero peer_result then (is_zero (m.ssl_setup c.log), c') else (false, c)
        else (false, c)
      else (false, c)

  unfoldable pub wifi_tls_init_context : Tls Cert → ℤ × Tls Cert
  unfolding init_steps wifi_tls_reset_context
  wifi_tls_init_context c =
      let (good, c') = init_steps c in
      if c.is_valid
      then (pos 0, c)
      else if good
      then (pos 0, record c' { is_valid = true })
      else (minus_one, wifi_tls_reset_context c')

  abbrev pub wants_more : ℤ → Bool
  wants_more r = r ==ℤ m.want_read || r ==ℤ m.want_write

  -- The loop of `wifi_tls_handshake`: its result, the last reply of `mbedtls_ssl_handshake`, and the
  -- replies that it leaves.
  unfoldable pub handshake_loop : List ℤ → Run (ℤ × ℤ × List ℤ)
  handshake_loop [] = blocked
  handshake_loop (r ∷ replies) =
      let rest = handshake_loop replies in
      if is_zero r
      then done (pos 0, r, replies)
      else if wants_more r
      then rest
      else done (minus_one, r, replies)

  unfoldable pub wifi_tls_handshake : Tls Cert → Run (ℤ × Tls Cert)
  unfolding handshake_loop
  wifi_tls_handshake c = do
    (result, r, replies) ← handshake_loop c.net.handshake_replies
    done (
      result,
      record c { net = record (c.net) { handshake_replies = replies }; log = handshaken r ∷ c.log },
    )
