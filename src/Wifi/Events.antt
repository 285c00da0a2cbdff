-- ===== src/Wifi/Events.antt =====
-- What a sequence of WIFI events does to the state of main/wifi_sta.c.
use esp32_ota_https.Prelude.{
  if◌then◌else◌, ℤ, Run, done, ◌>>=◌, Returns, Returns->>=, Returns-mono, Returns->>=_assoc, ◌≡◌,
  refl, sym, ap, ◌∙◌, Bool, true, false, some, List, [], ◌∷◌, arith,
}
use esp32_ota_https.Wifi.{
  WifiCall, esp_wifi_connect, Driver, Wifi, SystemEvent, sta_start, sta_got_ip, sta_connected,
  sta_disconnected, other_event, wifi_sta_is_connected, same_flag, wifi_sta_set_connected,
  wifi_sta_handle_event, app_event_handler,
}

-- Whether the device is connected after an event.
abbrev pub online : Bool → SystemEvent → Bool
online before sta_start = before
online before sta_got_ip = true
online before sta_connected = before
online before sta_disconnected = false
online before (other_event n) = before

-- Whether the handler tries to connect.
abbrev pub connects : SystemEvent → Bool
connects sta_start = true
connects sta_got_ip = false
connects sta_connected = false
connects sta_disconnected = true
connects (other_event n) = false

-- Oldest event first.
abbrev pub online_after : Bool → List SystemEvent → Bool
online_after before [] = before
online_after before (e ∷ events) = online_after (online before e) events

abbrev pub attempts : List SystemEvent → List WifiCall → List WifiCall
attempts [] calls = calls
attempts (e ∷ events) calls =
    attempts events (if connects e then esp_wifi_connect ∷ calls else calls)

module _ (d : Driver) where
  -- The events, handed to the application's handler one after the other.
  unfoldable pub handle_events : List SystemEvent → Wifi → Run Wifi
  handle_events [] s = done s
  handle_events (e ∷ events) s = do (_, s') ← app_event_handler d e s; handle_events events s'

  -- What an event leaves behind.
  abbrev Handled : SystemEvent → Bool → Wifi → ℤ × Wifi → Type 0
  Handled e bit s out =
      (out.1.wifi_sta_event_group ≡ some (online bit e))
      × (out.1.calls ≡ (if connects e then esp_wifi_connect ∷ s.calls else s.calls))

  -- What the change of the flag leaves behind.
  abbrev Set : Bool → Wifi → Wifi → Type 0
  Set c s out = (out.wifi_sta_event_group ≡ some c) × (out.calls ≡ s.calls)

  set_connected-Set :
      (c bit : Bool) (s : Wifi)
      → s.wifi_sta_event_group ≡ some bit
      → Returns (Set c s) (wifi_sta_set_connected c s)
  unfolding wifi_sta_set_connected wifi_sta_is_connected
  set_connected-Set c bit s g =
      Returns->>= (λ b. b ≡ bit) (Set c s) (wifi_sta_is_connected s) _
        (rw (g, wifi_sta_is_connected) refl) (λ b e. changed c b (g ∙ ap some (sym e)))
    where
      changed :
          (c bit : Bool)
          → s.wifi_sta_event_group ≡ some bit
          → Returns
              (Set c s)
              (done (if same_flag bit c then s else record s { wifi_sta_event_group = some c }))
      changed true true g = (g, refl)
      changed true false g = (refl, refl)
      changed false true g = (refl, refl)
      changed false false g = (g, refl)

  app_event_handler-Handled :
      (e : SystemEvent) (bit : Bool) (s : Wifi)
      → s.wifi_sta_event_group ≡ some bit
      → Returns (Handled e bit s) (app_event_handler d e s)
  unfolding app_event_handler wifi_sta_handle_event
  app_event_handler-Handled sta_start bit s g = ground arith
  app_event_handler-Handled sta_got_ip bit s g =
      Returns->>=_assoc (Set true s) (Handled sta_got_ip bit s) (wifi_sta_set_connected true s) _ _
        (set_connected-Set true bit s g) (λ out h. h)
  app_event_handler-Handled sta_connected bit s g = (g, refl)
  app_event_handler-Handled sta_disconnected bit s g =
      Returns->>=_assoc (Set false s) (Handled sta_disconnected bit s)
        (wifi_sta_set_connected false s) _ _ (set_connected-Set false bit s g)
        (λ out h. ground (arith, h))
  app_event_handler-Handled (other_event n) bit s g = (g, refl)

  -- Once the event group exists, every sequence of events is handled. The connected flag then tells
  -- whether the last event that matters to it was an address or a disconnection; and the handler has
  -- asked to connect once for each start and each disconnection, in order, and for nothing else.
  pub handle_events-online :
      (events : List SystemEvent) (bit : Bool) (s : Wifi)
      → s.wifi_sta_event_group ≡ some bit
      → Returns
          (λ out.
            (wifi_sta_is_connected out ≡ done (online_after bit events))
            × (out.calls ≡ attempts events s.calls))
          (handle_events events s)
  unfolding handle_events wifi_sta_is_connected
  handle_events-online [] bit s g = (rw (g, wifi_sta_is_connected) refl, refl)
  handle_events-online (e ∷ events) bit s g =
      Returns->>= (Handled e bit s) _ (app_event_handler d e s) _
        (app_event_handler-Handled e bit s g)
        λ out h.
          Returns-mono
            (λ end.
              (wifi_sta_is_connected end ≡ done (online_after (online bit e) events))
              × (end.calls ≡ attempts events out.1.calls))
            (λ end.
              (wifi_sta_is_connected end ≡ done (online_after (online bit e) events))
              × (end.calls
                  ≡ attempts events (if connects e then esp_wifi_connect ∷ s.calls else s.calls)))
            (handle_events events out.1) (λ end k. (k.0, k.1 ∙ ap (attempts events) (h.1)))
            (handle_events-online events (online bit e) out.1 (h.0))
