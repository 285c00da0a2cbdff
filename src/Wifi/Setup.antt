-- ===== src/Wifi/Setup.antt =====
-- `wifi_sta_init` of main/wifi_sta.c: that the two texts fit their arrays, and what a success means.
use esp32_ota_https.Prelude.{
  leb, Bool-cases, ℤ, pos, is_zero, length, take, drop, length-append, take-ge, Run, done, Returns,
  memcpy_done, ℕ, suc, ◌+◌, ◌<◌, ◌≡◌, refl, ap, ◌⊎◌, inl, inr, true, false, List, [], ◌∷◌, ◌++◌,
  append_assoc, arith,
}
use esp32_ota_https.Wifi.{
  WifiCall, esp_wifi_init, esp_wifi_set_storage, esp_wifi_set_mode, esp_wifi_set_config,
  esp_wifi_start, Driver, Wifi, strcpy, call, and_then, start_wifi, set_config, wifi_sta_init,
}

-- An array that a text has been copied to, with its final 0.
abbrev pub copied : List ℕ → List ℕ → List ℕ
copied array text = text ++ (0 ∷ drop (suc (length text)) array)

strcpy_lem :
    (array text : List ℕ)
    → length text < length array
    → strcpy array text ≡ done (copied array text)
strcpy_lem array text fits =
    let n : length (text ++ 0 ∷ []) ≡ length text + 1 = length-append text (0 ∷ []) in
    let whole : take (length text + 1) (text ++ 0 ∷ []) ≡ text ++ 0 ∷ [] =
      take-ge (length text + 1) (text ++ 0 ∷ []) (omega (arith, n)) in
    let z : 0 + length (text ++ 0 ∷ []) ≡ suc (length text) = omega (arith, n) in
    rw (memcpy_done array 0 (text ++ 0 ∷ []) (length text + 1) (omega arith) (omega (arith, n)))
      (rw whole (rw z (ap done (append_assoc text (0 ∷ []) (drop (suc (length text)) array)))))

-- The calls, newest first, were made after those of `base`, and each succeeded.
abbrev pub AllSucceed : Driver → List WifiCall → List WifiCall → Type 0
AllSucceed d [] base = Unit
AllSucceed d (c ∷ calls) base =
    (is_zero (d.reply (calls ++ base) c) ≡ true) × AllSucceed d calls base

-- The calls of a set-up with these contents of the arrays.
abbrev pub setup_calls : List ℕ → List ℕ → List WifiCall
setup_calls ssid password =
    esp_wifi_start
    ∷ esp_wifi_set_config ssid password
    ∷ esp_wifi_set_mode
    ∷ esp_wifi_set_storage
    ∷ esp_wifi_init
    ∷ []

-- The network is configured and WIFI is started.
pub record Configured (d : Driver) (network_ssid network_password : List ℕ) (s out : Wifi)
    : Type 0 where
  pub ssid : out.ssid ≡ copied s.ssid network_ssid
  pub password : out.password ≡ copied s.password network_password
  pub calls : out.calls ≡ setup_calls out.ssid out.password ++ s.calls
  pub successes : AllSucceed d (setup_calls out.ssid out.password) s.calls

-- What `wifi_sta_init` leaves behind: an error, or a network that is configured.
abbrev pub SetUp : Driver → List ℕ → List ℕ → Wifi → ℤ × Wifi → Type 0
SetUp d network_ssid network_password s out =
    (is_zero out.0 ≡ false)
    ⊎ (is_zero out.0 ≡ true) × Configured d network_ssid network_password s out.1

module _ (d : Driver) (network_ssid network_password : List ℕ) (s : Wifi) where
  abbrev P : ℤ × Wifi → Type 0
  P out = SetUp d network_ssid network_password s out

  -- A call, and what follows it if it succeeds.
  next_step :
      (c : WifiCall) (s' : Wifi) (next : Wifi → Run (ℤ × Wifi))
      → (is_zero (d.reply s'.calls c) ≡ true
          → Returns P (next (record s' { calls = c ∷ s'.calls })))
      → Returns P (and_then d (call d c s') next)
  unfolding call
  next_step c s' next h = elim (Bool-cases (is_zero (d.reply s'.calls c))) [
    | inl good ↦ rw good (h good)
    | inr bad ↦ rw bad (inl bad)
  ]

  start_wifi-SetUp :
      (s' : Wifi)
      → s'.ssid ≡ copied s.ssid network_ssid
      → s'.password ≡ copied s.password network_password
      → s'.calls
        ≡ esp_wifi_set_config s'.ssid s'.password
          ∷ esp_wifi_set_mode
          ∷ esp_wifi_set_storage
          ∷ esp_wifi_init
          ∷ s.calls
      → AllSucceed d
          (esp_wifi_set_config s'.ssid s'.password
            ∷ esp_wifi_set_mode
            ∷ esp_wifi_set_storage
            ∷ esp_wifi_init
            ∷ [])
          s.calls
      → Returns P (start_wifi d s')
  unfolding start_wifi
  start_wifi-SetUp s' a b c succeeded =
      let s″ = record s' { wifi_sta_event_group = d.group_create s'.calls } in
      next_step esp_wifi_start s″ (λ t. done (pos 0, t))
        (λ good. inr (
          refl,
          record {
            ssid = a;
            password = b;
            calls = ap (λ t. esp_wifi_start ∷ t) c;
            successes = (rw c at good, succeeded);
          },
        ))

  set_config-SetUp :
      length network_ssid < length s.ssid
      → length network_password < length s.password
      → AllSucceed d (esp_wifi_set_mode ∷ esp_wifi_set_storage ∷ esp_wifi_init ∷ []) s.calls
      → Returns P (
          set_config d network_ssid network_password (record s {
            calls = esp_wifi_set_mode ∷ esp_wifi_set_storage ∷ esp_wifi_init ∷ s.calls;
          }))
  unfolding set_config
  set_config-SetUp a b succeeded =
      let s' = record s {
        ssid = copied s.ssid network_ssid;
        password = copied s.password network_password;
        calls = esp_wifi_set_mode ∷ esp_wifi_set_storage ∷ esp_wifi_init ∷ s.calls;
      } in
      rw (strcpy_lem s.ssid network_ssid a, strcpy_lem s.password network_password b)
        (next_step (esp_wifi_set_config s'.ssid s'.password) s' (start_wifi d) (λ good.
          start_wifi-SetUp
            (record s' { calls = esp_wifi_set_config s'.ssid s'.password ∷ s'.calls }) refl refl
            refl (good, succeeded)))

  -- `wifi_sta_init` returns, whatever the driver replies: the copies of the two texts stay inside
  -- their arrays. If it returns 0, both texts with their final 0 are in the arrays, and the driver
  -- has been initialized, configured with them and started, each call made once, in this order and with success.
  pub wifi_sta_init-SetUp :
      is_zero d.invalid_arg ≡ false
      → Returns
          (SetUp d network_ssid network_password s)
          (wifi_sta_init d network_ssid network_password s)
  unfolding wifi_sta_init
  wifi_sta_init-SetUp e =
      let config = set_config d network_ssid network_password in
      let mode = λ (t : Wifi). and_then d (call d esp_wifi_set_mode t) config in
      let storage = λ (t : Wifi). and_then d (call d esp_wifi_set_storage t) mode in
      let s₁ = record s { calls = esp_wifi_init ∷ s.calls } in
      let s₂ = record s { calls = esp_wifi_set_storage ∷ esp_wifi_init ∷ s.calls } in
      elim (Bool-cases (leb (length s.ssid) (length network_ssid))) [
        | inl long ↦ rw long (inl e)
        | inr short ↦ elim (Bool-cases (leb (length s.password) (length network_password))) [
          | inl long ↦ rw (short, long) (inl e)
          | inr short' ↦
              rw (short, short')
                (next_step esp_wifi_init s storage (λ first.
                  next_step esp_wifi_set_storage s₁ mode (λ second.
                    next_step esp_wifi_set_mode s₂ config (λ third.
                      set_config-SetUp (ground arith) (ground arith)
                        (third, (second, (first, tt)))))))
        ]
      ]
