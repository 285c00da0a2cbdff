-- ===== src/Wifi.antt =====
-- main/wifi_sta.c and main/wifi_sta.h: the connection to the WIFI network.
--
-- The calls of the WIFI driver are no code of this repository: a `Driver` gives their replies, each a
-- function of the calls made before, newest first. 0 is ESP_OK. The event group is none for NULL, and
-- otherwise its one bit, the connected flag; to read a bit through NULL is a `fault`.
pub mod Events
pub mod Setup
mod Tests
use esp32_ota_https.Prelude.{
  leb, if◌then◌else◌, ℤ, pos, is_zero, length, Run, done, fault, ◌>>=◌, memcpy, ℕ, ◌+◌, Bool, true,
  false, ◌||◌, not, Option, none, some, List, [], ◌∷◌, ◌++◌,
}

-- The calls of the driver.
pub data WifiCall : Type 0 where
  esp_wifi_init esp_wifi_set_storage esp_wifi_set_mode : WifiCall
  esp_wifi_set_config : List ℕ → List ℕ → WifiCall
  esp_wifi_start esp_wifi_connect : WifiCall

pub record Driver : Type 0 where
  pub reply : List WifiCall → WifiCall → ℤ
  -- the bit of a new event group, which is cleared, or none for NULL
  pub group_create : List WifiCall → Option Bool
  pub invalid_arg : ℤ

-- The module's state: the event group, the two arrays of `wifi_sta_config_struct`, the calls made.
pub record Wifi : Type 0 where
  pub wifi_sta_event_group : Option Bool
  pub ssid : List ℕ
  pub password : List ℕ
  pub calls : List WifiCall

-- `system_event_id_t`, as far as the module tells its values apart.
pub data SystemEvent : Type 0 where
  sta_start sta_got_ip sta_connected sta_disconnected : SystemEvent
  other_event : ℕ → SystemEvent

-- `strcpy`: the text and its final 0 are written to the front of the array.
abbrev pub strcpy : List ℕ → List ℕ → Run (List ℕ)
strcpy array text = memcpy array 0 (text ++ 0 ∷ []) (length text + 1)

unfoldable pub wifi_sta_is_connected : Wifi → Run Bool
wifi_sta_is_connected s = elim (s.wifi_sta_event_group) [ none ↦ fault | some bit ↦ done bit ]

abbrev pub same_flag : Bool → Bool → Bool
same_flag true c = c
same_flag false c = not c

unfoldable pub wifi_sta_set_connected : Bool → Wifi → Run Wifi
unfolding wifi_sta_is_connected
wifi_sta_set_connected c s = do
  bit ← wifi_sta_is_connected s
  done (if same_flag bit c then s else record s { wifi_sta_event_group = some c })

module _ (d : Driver) where
  unfoldable pub call : WifiCall → Wifi → ℤ × Wifi
  call c s = (d.reply s.calls c, record s { calls = c ∷ s.calls })

  -- The result, whether the event was handled, and the new state.
  unfoldable pub wifi_sta_handle_event : SystemEvent → Wifi → Run (ℤ × Bool × Wifi)
  unfolding wifi_sta_set_connected call
  wifi_sta_handle_event sta_start s = let (r, s') = call esp_wifi_connect s in done (r, true, s')
  wifi_sta_handle_event sta_got_ip s = do s' ← wifi_sta_set_connected true s; done (pos 0, true, s')
  wifi_sta_handle_event sta_connected s = done (pos 0, true, s)
  wifi_sta_handle_event sta_disconnected s = do
    s' ← wifi_sta_set_connected false s
    let (r, s″) = call esp_wifi_connect s'
    done (r, true, s″)
  wifi_sta_handle_event (other_event n) s = done (pos 0, false, s)

  -- `app_event_handler` of main/main.c
  unfoldable pub app_event_handler : SystemEvent → Wifi → Run (ℤ × Wifi)
  app_event_handler e s = do
    (result, handled, s') ← wifi_sta_handle_event e s
    done (if not (is_zero result) || handled then (result, s') else (pos 0, s'))

  -- A call whose failure ends `wifi_sta_init` with its result.
  abbrev pub and_then : ℤ × Wifi → (Wifi → Run (ℤ × Wifi)) → Run (ℤ × Wifi)
  and_then (r, s) next = let rest = next s in if is_zero r then rest else done (r, s)

  -- The end of `wifi_sta_init`.
  unfoldable pub start_wifi : Wifi → Run (ℤ × Wifi)
  unfolding call
  start_wifi s =
      let s' = record s { wifi_sta_event_group = d.group_create s.calls } in
      and_then (call esp_wifi_start s') λ s″. done (pos 0, s″)

  -- The configuration of the network.
  unfoldable pub set_config : List ℕ → List ℕ → Wifi → Run (ℤ × Wifi)
  unfolding call start_wifi
  set_config network_ssid network_password s = do
    ssid ← strcpy s.ssid network_ssid
    password ← strcpy s.password network_password
    let s' = record s { ssid = ssid; password = password }
    and_then (call (esp_wifi_set_config ssid password) s') start_wifi

  -- The two texts that the parameter holds, and the sizes of the two arrays.
  unfoldable pub wifi_sta_init : List ℕ → List ℕ → Wifi → Run (ℤ × Wifi)
  unfolding call set_config
  wifi_sta_init network_ssid network_password s =
      let begin = and_then (call esp_wifi_init s) λ s₁.
        and_then (call esp_wifi_set_storage s₁)
          λ s₂. and_then (call esp_wifi_set_mode s₂) (set_config network_ssid network_password) in
      if leb (length s.ssid) (length network_ssid)
      then done (d.invalid_arg, s)
      else if leb (length s.password) (length network_password)
      then done (d.invalid_arg, s)
      else begin

-- The number of flashes of the LED in a round of the loop of `app_main` of main/main.c.
unfoldable pub nof_flashes : Bool → Bool → ℕ
nof_flashes connected in_progress =
    1 + (if connected then 1 else 0) + (if in_progress then 2 else 0)
