-- ===== src/Ota/Timer.antt =====
-- What `iap_https_prepare_timer` of main/iap_https.c makes of the timer for the next check.
use mathlib.Core.Path.{subst}
use esp32_ota_https.Prelude.{
  ltb, Bool-cases, ℕ, ◌*◌, ◌%◌, ◌^◌, ◌<◌, ◌≡◌, refl, sym, ◌⊎◌, inl, inr, true, ◌||◌, Option, none,
  some, arith,
}
use esp32_ota_https.Ota.{Ota}
use esp32_ota_https.Ota.Task.{TimerCalls, iap_https_prepare_timer}

-- Each call for the timer succeeds.
pub record TimersWork (t : TimerCalls) : Type 0 where
  pub creates : t.created ≡ true
  pub changes : t.changed ≡ true
  pub resets : t.reset ≡ true
  pub deletes : t.deleted ≡ true

-- There is no timer if the interval is 0, and otherwise one that runs, with the period in ticks of the
-- interval in milliseconds, which wraps at 32 bits.
abbrev pub TimerSet : TimerCalls → Ota → Type 0
TimerSet t o =
    (o.config.polling_interval_s ≡ 0) × (o.check_for_updates_timer ≡ none)
    ⊎ (0 < o.config.polling_interval_s)
      × (o.check_for_updates_timer
          ≡ some (t.ms_to_ticks ((1000 * o.config.polling_interval_s) % 2 ^ 32)))
      × (o.timer_runs ≡ true)

-- The timer is set up, and nothing else is touched.
abbrev pub TimerPrepared : TimerCalls → Ota → Ota → Type 0
TimerPrepared t o o' =
    TimerSet t o'
    × (o' ≡ record o {
      check_for_updates_timer = o'.check_for_updates_timer;
      timer_runs = o'.timer_runs;
    })

pub iap_https_prepare_timer-TimerPrepared :
    (t : TimerCalls) (o : Ota) → TimersWork t → TimerPrepared t o (iap_https_prepare_timer t o)
unfolding iap_https_prepare_timer
iap_https_prepare_timer-TimerPrepared t o works = go o.check_for_updates_timer refl
  where
    runs : o.timer_runs || t.changed || t.reset ≡ true
    runs = ground (arith, works.changes)

    go :
        (timer : Option ℕ)
        → o.check_for_updates_timer ≡ timer
        → TimerPrepared t o (iap_https_prepare_timer t o)
    go none e = elim (Bool-cases (ltb 0 o.config.polling_interval_s)) [
      | inl wanted ↦
          simp (wanted, e, works.creates, works.changes)
            (inr (ground (arith, wanted), refl, ground arith), refl)
      | inr unwanted ↦
          let same : iap_https_prepare_timer t o ≡ o = simp (unwanted, e) refl in
          subst (TimerPrepared t o) (sym same) (inl (ground (arith, unwanted), e), refl)
    ]
    go (some k) e = elim (Bool-cases (ltb 0 o.config.polling_interval_s)) [
      | inl wanted ↦
          simp (wanted, e, works.changes) (inr (ground (arith, wanted), refl, ground arith), refl)
      | inr unwanted ↦ simp (unwanted, e) (inl (ground (arith, unwanted), refl), refl)
    ]
