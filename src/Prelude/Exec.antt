-- ===== src/Prelude/Exec.antt =====
-- The outcome of running a piece of C code, and the state-passing steps that are built from it.
use mathlib.Core.Path.{◌≡◌, refl}
use mathlib.Core.Bool.{Bool, true, false, ◌&&◌}
use mathlib.Core.List.{List}
use mathlib.Core.Option.{Option, none, some}
use Prim.Native.Nat.{ℕ, ◌+◌, ◌≤◌}
use native.Mathlib.Omega.{arith}
use esp32_ota_https.Prelude.Tests.{leb, if◌then◌else◌}
use esp32_ota_https.Prelude.Lists.{length, take, splice, length-copy}

-- `done`: the code returned. `blocked`: it still waits for the platform or the peer.
-- `fault`: its behaviour is undefined, for example by an access through a null pointer.
pub data Run {ℓ} (A : Type ℓ) : Type ℓ where
  done : A → Run A
  blocked : Run A
  fault : Run A

infixl 5 ◌>>=◌
abbrev pub ◌>>=◌ {ℓ κ} : {A : Type ℓ} {B : Type κ} → Run A → (A → Run B) → Run B
done a >>= f = f a
blocked >>= f = blocked
fault >>= f = fault

-- Partial correctness: what is returned satisfies `P`.
abbrev pub Ensures {ℓ} : {A : Type ℓ} → (A → Type 0) → Run A → Type 0
Ensures P (done a) = P a
Ensures P blocked = Unit
Ensures P fault = Unit

-- Total correctness: the code returns, and what it returns satisfies `P`.
abbrev pub Returns {ℓ} : {A : Type ℓ} → (A → Type 0) → Run A → Type 0
Returns P (done a) = P a
Returns P blocked = ⊥
Returns P fault = ⊥

pub Ensures->>= {ℓ κ} :
    {A : Type ℓ} {B : Type κ} (P : A → Type 0) (Q : B → Type 0) (m : Run A) (f : A → Run B)
    → Ensures P m
    → ((a : A) → P a → Ensures Q (f a))
    → Ensures Q (m >>= f)
Ensures->>= P Q (done a) f h k = k a h
Ensures->>= P Q blocked f h k = tt
Ensures->>= P Q fault f h k = tt

pub Returns->>= {ℓ κ} :
    {A : Type ℓ} {B : Type κ} (P : A → Type 0) (Q : B → Type 0) (m : Run A) (f : A → Run B)
    → Returns P m
    → ((a : A) → P a → Returns Q (f a))
    → Returns Q (m >>= f)
Returns->>= P Q (done a) f h k = k a h
Returns->>= P Q blocked f h k = h
Returns->>= P Q fault f h k = h

-- `memcpy(&block[i], src, n)`: both ranges lie inside their blocks, or it is a fault.
unfoldable pub memcpy : List ℕ → ℕ → List ℕ → ℕ → Run (List ℕ)
memcpy block i src n =
    if leb (i + n) (length block) && leb n (length src)
    then done (splice block i (take n src))
    else fault

pub memcpy_done :
    (block : List ℕ) (i : ℕ) (src : List ℕ) (n : ℕ)
    → i + n ≤ length block
    → n ≤ length src
    → memcpy block i src n ≡ done (splice block i (take n src))
unfolding memcpy
memcpy_done block i src n h k = ground arith

pub Returns-mono {ℓ} :
    {A : Type ℓ} (P Q : A → Type 0) (m : Run A) → ((a : A) → P a → Q a) → Returns P m → Returns Q m
Returns-mono P Q (done a) f h = f a h
Returns-mono P Q blocked f h = h
Returns-mono P Q fault f h = h

pub Ensures-mono {ℓ} :
    {A : Type ℓ} (P Q : A → Type 0) (m : Run A) → ((a : A) → P a → Q a) → Ensures P m → Ensures Q m
Ensures-mono P Q (done a) f h = f a h
Ensures-mono P Q blocked f h = tt
Ensures-mono P Q fault f h = tt

-- A copy that returns was inside both blocks, and keeps the block's size.
pub memcpy-length :
    (block : List ℕ) (i : ℕ) (src : List ℕ) (n : ℕ)
    → Ensures (λ b. (length b ≡ length block) × (i + n ≤ length block)) (memcpy block i src n)
unfolding memcpy
memcpy-length block i src n = ground (arith, length-copy block i n src)

pub Returns→Ensures {ℓ} : {A : Type ℓ} (P : A → Type 0) (m : Run A) → Returns P m → Ensures P m
Returns→Ensures P (done a) h = h
Returns→Ensures P blocked h = tt
Returns→Ensures P fault h = tt

pub done-injective {ℓ} : {A : Type ℓ} {a b : A} → done a ≡ done b → a ≡ b
done-injective h = cc

pub Returns-and {ℓ} :
    {A : Type ℓ} (P Q R : A → Type 0) (m : Run A)
    → ((a : A) → P a → Q a → R a)
    → Returns P m
    → Returns Q m
    → Returns R m
Returns-and P Q R (done a) f h k = f a h k
Returns-and P Q R blocked f h k = h
Returns-and P Q R fault f h k = h

pub Ensures-trivial {ℓ} : {A : Type ℓ} (m : Run A) → Ensures (λ _. Unit {0}) m
Ensures-trivial (done a) = tt
Ensures-trivial blocked = tt
Ensures-trivial fault = tt

-- A step that is itself two steps.
pub Returns->>=_assoc {ℓ κ μ} :
    {A : Type ℓ} {B : Type κ} {C : Type μ} (P : A → Type 0) (Q : C → Type 0) (m : Run A)
    (f : A → Run B) (g : B → Run C)
    → Returns P m
    → ((a : A) → P a → Returns Q (f a >>= g))
    → Returns Q ((m >>= f) >>= g)
Returns->>=_assoc P Q (done a) f g h k = k a h
Returns->>=_assoc P Q blocked f g h k = h
Returns->>=_assoc P Q fault f g h k = h

-- Two steps, and what follows them.
pub Returns->>=_then {ℓ κ μ} :
    {A : Type ℓ} {B : Type κ} {C : Type μ} (P : B → Type 0) (Q : C → Type 0) (m : Run A)
    (f : A → Run B) (g : B → Run C)
    → Returns P (m >>= f)
    → ((b : B) → P b → Returns Q (g b))
    → Returns Q (m >>= λ a. f a >>= g)
Returns->>=_then P Q (done a) f g h k = Returns->>= P Q (f a) g h k
Returns->>=_then P Q blocked f g h k = h
Returns->>=_then P Q fault f g h k = h

-- The branch that is taken, where the condition also stands in the branches.
pub Returns-else {ℓ} :
    {A : Type ℓ} (P : A → Type 0) (b : Bool) (m n : Run A)
    → b ≡ false
    → Returns P n
    → Returns P (if b then m else n)
Returns-else P true m n e h = absurd (ground arith)
Returns-else P false m n e h = h

-- A total and a partial property of what is returned.
pub Returns-and-Ensures {ℓ} :
    {A : Type ℓ} (P Q R : A → Type 0) (m : Run A)
    → ((a : A) → P a → Q a → R a)
    → Returns P m
    → Ensures Q m
    → Returns R m
Returns-and-Ensures P Q R (done a) f h k = f a h k
Returns-and-Ensures P Q R blocked f h k = h
Returns-and-Ensures P Q R fault f h k = h

pub Ensures-if {ℓ} :
    {A : Type ℓ} (P : A → Type 0) (b : Bool) (m n : Run A)
    → Ensures P m
    → Ensures P n
    → Ensures P (if b then m else n)
Ensures-if P true m n h k = h
Ensures-if P false m n h k = k

-- Both ends of a search.
pub Ensures-found {ℓ κ} :
    {A : Type ℓ} {B : Type κ} (Q : B → Type 0) (m : Run (Option A)) (n : Run B) (f : A → Run B)
    → Ensures Q n
    → ((a : A) → Ensures Q (f a))
    → Ensures Q (m >>= λ found. elim found [ none ↦ n | some a ↦ f a ])
Ensures-found Q (done none) n f h k = h
Ensures-found Q (done (some a)) n f h k = k a
Ensures-found Q blocked n f h k = tt
Ensures-found Q fault n f h k = tt

-- Two ways to go on after the same step, which end in the same way.
pub >>=_same {ℓ κ μ ν} :
    {A : Type ℓ} {B : Type κ} {C : Type μ} {D : Type ν} (m : Run A) (f : A → B) (g : B → Run D)
    (f' : A → C) (g' : C → Run D)
    → ((a : A) → g (f a) ≡ g' (f' a))
    → (m >>= λ a. done (f a)) >>= g ≡ (m >>= λ a. done (f' a)) >>= g'
>>=_same (done a) f g f' g' h = h a
>>=_same blocked f g f' g' h = refl
>>=_same fault f g f' g' h = refl

pub Ensures-both {ℓ} :
    {A : Type ℓ} (P Q : A → Type 0) (m : Run A)
    → Ensures P m
    → Ensures Q m
    → Ensures (λ a. P a × Q a) m
Ensures-both P Q (done a) h k = (h, k)
Ensures-both P Q blocked h k = tt
Ensures-both P Q fault h k = tt
