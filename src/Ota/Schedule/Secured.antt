-- ===== src/Ota/Schedule/Secured.antt =====
-- What the task of main/iap_https.c sends, through every order of turns.
use esp32_ota_https.Prelude.{
  pos, Ensures, Ensures->>=, Ensures-mono, Ensures-if, Ensures-both, ℕ, ◌≡◌, Bool, ◌||◌, List, [],
  ◌∷◌,
}
use esp32_ota_https.Flash.{Platform}
use esp32_ota_https.Http.Request.{Mallocs}
use esp32_ota_https.Tls.{Mbedtls}
use esp32_ota_https.Ota.Task.{
  TimerCalls, connect, iap_https_check_for_update, request_image, iap_https_download_image,
}
use esp32_ota_https.Ota.Secured.{
  SystemSecure, iap_https_check_for_update-SystemSecure, request_image-SystemSecure,
  iap_https_download_image-SystemSecure,
}
use esp32_ota_https.Ota.Schedule.{
  Phase, waiting, woken, downloading, downloaded, checking, checked, prepared, Station, Turn, task,
  check_now, timer_fires, check_bit, download_bit, armed, task_turn, turn,
}

module _ {Cert : Type 0} (p : Platform) (m : Mbedtls Cert) (mem : ℕ → Mallocs) where
  -- The connection of a download opens with success. The code does not test this.
  abbrev pub OpensAt : Phase → Station Cert → Type 0
  OpensAt downloading s = Ensures (λ out. out.0 ≡ pos 0) (connect p m mem s.system.tls_context)
  OpensAt _ s = Unit

  abbrev pub OpensTurn : Turn → Station Cert → Type 0
  OpensTurn (task online timers) s = OpensAt s.phase s
  OpensTurn _ s = Unit

  abbrev pub Opens : List Turn → Station Cert → Type 0
  Opens [] s = Unit
  Opens (t ∷ turns) s = OpensTurn t s × Ensures (Opens turns) (turn p m mem t s)

  abbrev pub StationSecure : Station Cert → Type 0
  StationSecure s = SystemSecure p m mem s.system

  task_turn-Secure :
      (at : Phase) (online : Bool) (timers : TimerCalls) (s : Station Cert)
      → OpensAt at s
      → StationSecure s
      → Ensures StationSecure (task_turn p m mem at online timers s)
  task_turn-Secure waiting online timers s opens h =
      Ensures-if StationSecure (check_bit s || download_bit s) _ _ h h
  task_turn-Secure (woken c d) online timers s opens h = Ensures-if StationSecure online _ _ h h
  task_turn-Secure downloading online timers s opens h =
      Ensures->>= (SystemSecure p m mem) StationSecure (iap_https_download_image p m mem s.system) _
        (iap_https_download_image-SystemSecure p m mem s.system h opens) (λ system kept. kept)
  task_turn-Secure downloaded online timers s opens h = h
  task_turn-Secure checking online timers s opens h =
      Ensures->>= (SystemSecure p m mem) StationSecure (iap_https_check_for_update p m mem s.system)
        _ (iap_https_check_for_update-SystemSecure p m mem s.system h) (λ system kept. kept)
  task_turn-Secure checked online timers s opens h = h
  task_turn-Secure prepared online timers s opens h = h

  turn-Secure :
      (t : Turn) (s : Station Cert)
      → OpensTurn t s
      → StationSecure s
      → Ensures StationSecure (turn p m mem t s)
  unfolding turn
  turn-Secure (task online timers) s opens h = task_turn-Secure s.phase online timers s opens h
  turn-Secure check_now s opens h = h
  turn-Secure timer_fires s opens h = Ensures-if StationSecure (armed s) _ _ h h

  -- A download that begins with a turn at this phase: the state at its end, or at the restart of
  -- the device, which no turn returns.
  abbrev pub RequestedAt : Phase → Station Cert → Type 0
  RequestedAt downloading s = Ensures (SystemSecure p m mem) (request_image p m mem s.system)
  RequestedAt _ s = Unit

  abbrev pub RequestedTurn : Turn → Station Cert → Type 0
  RequestedTurn (task online timers) s = RequestedAt s.phase s
  RequestedTurn _ s = Unit

  -- The device is secure before each turn, at the end of it and where it restarts in it.
  abbrev pub StaysSecure : List Turn → Station Cert → Type 0
  StaysSecure [] s = StationSecure s
  StaysSecure (t ∷ turns) s =
      StationSecure s × RequestedTurn t s × Ensures (StaysSecure turns) (turn p m mem t s)

  requested_at : (at : Phase) (s : Station Cert) → OpensAt at s → StationSecure s → RequestedAt at s
  requested_at downloading s opens h = request_image-SystemSecure p m mem s.system h opens
  requested_at waiting s opens h = tt
  requested_at (woken c d) s opens h = tt
  requested_at downloaded s opens h = tt
  requested_at checking s opens h = tt
  requested_at checked s opens h = tt
  requested_at prepared s opens h = tt

  requested : (t : Turn) (s : Station Cert) → OpensTurn t s → StationSecure s → RequestedTurn t s
  requested (task online timers) s opens h = requested_at s.phase s opens h
  requested check_now s opens h = tt
  requested timer_fires s opens h = tt

  -- Through every order of turns in which the connection of each download opens with success or does
  -- not return, at each turn and where a download restarts the device, it has sent nothing but over
  -- a connection that was opened with success, whose handshake mbedTLS has answered with success,
  -- whose certificate was verified and whose key was pinned, in this order, if that holds at the
  -- start; whatever the server answers, and whatever fails. The connections of the checks may fail.
  pub run_turns-StationSecure :
      (turns : List Turn) (s : Station Cert) → StationSecure s → Opens turns s → StaysSecure turns s
  run_turns-StationSecure [] s h opens = h
  run_turns-StationSecure (t ∷ turns) s h opens = (
    h,
    requested t s (opens.0) h,
    Ensures-mono (λ s'. StationSecure s' × Opens turns s') (StaysSecure turns) (turn p m mem t s)
        (λ s' (h', opens'). run_turns-StationSecure turns s' h' opens')
        (Ensures-both StationSecure (Opens turns) (turn p m mem t s) (turn-Secure t s (opens.0) h)
          (opens.1)),
  )
