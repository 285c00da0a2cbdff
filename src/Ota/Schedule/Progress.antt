-- ===== src/Ota/Schedule/Progress.antt =====
-- How the task of main/iap_https.c gets on: orders of turns that lead to a station of some kind.
use esp32_ota_https.Prelude.{
  Run, done, blocked, fault, ◌>>=◌, Ensures, ℕ, ◌+◌, ◌≤◌, ◌≡◌, ◌⊎◌, inl, inr, true, false, List, [],
  ◌∷◌, arith,
}
use esp32_ota_https.Flash.{Platform}
use esp32_ota_https.Http.Request.{Mallocs}
use esp32_ota_https.Tls.{Mbedtls}
use esp32_ota_https.Ota.Schedule.{Station, Turn, task, check_now, timer_fires, turn}

-- What a turn leads to: it returns, and then `P`, or it is stuck in a request.
abbrev pub Progress : {A : Type 0} → (A → Type 0) → Type 0 → Run A → Type 0
Progress P Stuck (done a) = P a
Progress P Stuck blocked = Stuck
Progress P Stuck fault = Stuck

Progress-mono :
    {A : Type 0} (P Q : A → Type 0) (Stuck : Type 0) (r : Run A)
    → ((a : A) → P a → Q a)
    → Progress P Stuck r
    → Progress Q Stuck r
Progress-mono P Q Stuck (done a) f h = f a h
Progress-mono P Q Stuck blocked f h = h
Progress-mono P Q Stuck fault f h = h

-- A request that is stuck, or changes the system in this way.
pub Progress-request :
    {A B : Type 0} (P : A → Type 0) (Q : B → Type 0) (Stuck : Type 0) (r : Run A) (f : A → B)
    → Stuck
    → Ensures P r
    → ((a : A) → P a → Q (f a))
    → Progress Q Stuck (r >>= λ a. done (f a))
Progress-request P Q Stuck (done a) f stuck h k = k a h
Progress-request P Q Stuck blocked f stuck h k = stuck
Progress-request P Q Stuck fault f stuck h k = stuck

-- The turns in which the task goes on with the network connected.
abbrev pub cost : Turn → ℕ
cost (task true timers) = 1
cost (task false timers) = 0
cost check_now = 0
cost timer_fires = 0

pub cost_bound : (t : Turn) → cost t ≤ 1
cost_bound (task true timers) = omega arith
cost_bound (task false timers) = omega arith
cost_bound check_now = omega arith
cost_bound timer_fires = omega arith

abbrev pub online_turns : List Turn → ℕ
online_turns [] = 0
online_turns (t ∷ turns) = cost t + online_turns turns

module _ {Cert : Type 0} (p : Platform) (m : Mbedtls Cert) (mem : ℕ → Mallocs) where
  -- At some point of the schedule the station satisfies `Target`; or it is stuck before, where it
  -- satisfies `Stuck`.
  abbrev pub Eventually :
      (Station Cert → Type 0) → (Station Cert → Type 0) → List Turn → Station Cert → Type 0
  Eventually Target Stuck [] s = Target s
  Eventually Target Stuck (t ∷ turns) s =
      Target s ⊎ Progress (Eventually Target Stuck turns) (Stuck s) (turn p m mem t s)

  -- A rank that goes down in each turn leads to rank 0.
  module _ (Target Stuck Inv : Station Cert → Type 0) (rank : Station Cert → ℕ)
      (ends : (s : Station Cert) → Inv s → rank s ≡ 0 → Target s)
      (descends : (t : Turn) (s : Station Cert)
        → Inv s
        → Target s
          ⊎ Progress
              (λ s'. Inv s' × (rank s' + cost t ≤ rank s))
              (Stuck s)
              (turn p m mem t s)) where
    pub ranked :
        (turns : List Turn) (s : Station Cert)
        → Inv s
        → rank s ≤ online_turns turns
        → Eventually Target Stuck turns s
    ranked [] s i h = ends s i (omega arith)
    ranked (t ∷ turns) s i h = elim (descends t s i) [
      | inl there ↦ inl there
      | inr next ↦ inr (
          Progress-mono _ (Eventually Target Stuck turns) (Stuck s) (turn p m mem t s)
            (λ s' (i', down). ranked turns s' i' (omega arith)) next)
    ]
