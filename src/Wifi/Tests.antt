-- ===== src/Wifi/Tests.antt =====
-- main/wifi_sta.c with a driver whose calls succeed.
use esp32_ota_https.Prelude.{
  pos, replicate, done, Returns, ◌≡◌, refl, true, false, some, List, [], ◌∷◌,
}
use esp32_ota_https.CText.{codes}
use esp32_ota_https.Wifi.{
  esp_wifi_connect, Driver, Wifi, SystemEvent, sta_start, sta_got_ip, sta_connected,
  sta_disconnected, wifi_sta_is_connected, wifi_sta_init, nof_flashes,
}
use esp32_ota_https.Wifi.Events.{handle_events, handle_events-online}
use esp32_ota_https.Wifi.Setup.{SetUp, wifi_sta_init-SetUp}

abbrev driver : Driver
driver = record {
  reply = λ calls c. pos 0;
  group_create = λ calls. some false;
  invalid_arg = pos 258;
}

abbrev station : Wifi
station = record {
  wifi_sta_event_group = some false;
  ssid = replicate 32 0;
  password = replicate 64 0;
  calls = [];
}

abbrev events : List SystemEvent
events = sta_start ∷ sta_connected ∷ sta_got_ip ∷ sta_disconnected ∷ sta_got_ip ∷ []

handle_events-online_example :
    Returns
      (λ out.
        (wifi_sta_is_connected out ≡ done true)
        × (out.calls ≡ esp_wifi_connect ∷ esp_wifi_connect ∷ []))
      (handle_events driver events station)
handle_events-online_example = handle_events-online driver events false station refl

wifi_sta_init-SetUp_example :
    Returns
      (SetUp driver (codes "net") (codes "secret") station)
      (wifi_sta_init driver (codes "net") (codes "secret") station)
wifi_sta_init-SetUp_example = wifi_sta_init-SetUp driver (codes "net") (codes "secret") station refl

-- The LED tells whether the device is connected, and whether an update is in progress.
flashes :
    (nof_flashes false false ≡ 1)
    × (nof_flashes true false ≡ 2)
    × (nof_flashes false true ≡ 3)
    × (nof_flashes true true ≡ 4)
unfolding nof_flashes
flashes = (refl, refl, refl, refl)
