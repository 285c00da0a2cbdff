-- ===== src/App/Tests.antt =====
-- The set-up of main/main.c with two concrete certificates.
use esp32_ota_https.Prelude.{Returns, true, [], ◌∷◌}
use esp32_ota_https.CText.{codes}
use esp32_ota_https.Iap.Sample.{good_flash}
use esp32_ota_https.Ota.Sample.{
  tls, zeros, device, answer, memory, good_timers, good_timers-TimersWork,
}
use esp32_ota_https.App.{init_ota, SetUp, init_ota-SetUp}

init_ota-SetUp_example :
    Returns (SetUp good_flash tls memory good_timers (codes "root") (codes "peer") true) (
      init_ota good_flash tls memory
        (codes "root")
        (codes "peer")
        answer
        (true ∷ true ∷ true ∷ true ∷ [])
        true
        good_timers
        (7 ∷ [])
        zeros
        device)
init_ota-SetUp_example =
    init_ota-SetUp good_flash tls memory good_timers (codes "root") (codes "peer") answer
      (true ∷ true ∷ true ∷ true ∷ []) (7 ∷ []) zeros device good_timers-TimersWork
