-- ===== src/Prelude/Parse.antt =====
-- The result of a parser: `false` of the source is `malformed`. `stuck` is no outcome of the
-- source: a loop of the model ran out of fuel.
use mathlib.Core.Path.{◌≡◌, refl}
use mathlib.Core.Bool.{Bool, true, false}
use mathlib.Core.Logic.{◌≢◌}
use mathlib.Core.Option.{Option, none, some}
use clipboard_helper.Prelude.Tests.{if◌then◌else◌}

pub data Parse {ℓ} (A : Type ℓ) : Type ℓ where
  parsed : A → Parse A
  malformed : Parse A
  stuck : Parse A

infixl 5 ◌>>=◌
abbrev pub ◌>>=◌ {ℓ κ} : {A : Type ℓ} {B : Type κ} → Parse A → (A → Parse B) → Parse B
parsed a >>= f = f a
malformed >>= f = malformed
stuck >>= f = stuck

pub >>=-eq-parsed {ℓ κ} :
    {A : Type ℓ} {B : Type κ} (m : Parse A) (f : A → Parse B) {b : B}
    → (m >>= f) ≡ parsed b
    → (a : A) × (m ≡ parsed a) × (f a ≡ parsed b)
>>=-eq-parsed (parsed a) f h = (a, refl, h)
>>=-eq-parsed malformed f h = cc
>>=-eq-parsed stuck f h = cc

-- A parser that never gets stuck, and whose result, if any, has a property.
abbrev pub Ends {ℓ} : {A : Type ℓ} → (A → Type 0) → Parse A → Type 0
Ends P (parsed a) = P a
Ends P malformed = Unit
Ends P stuck = ⊥

pub Ends-bind {ℓ κ} :
    {A : Type ℓ} {B : Type κ} (P : A → Type 0) (Q : B → Type 0) (m : Parse A) (f : A → Parse B)
    → Ends P m
    → ((a : A) → P a → Ends Q (f a))
    → Ends Q (m >>= f)
Ends-bind P Q (parsed a) f h k = k a h
Ends-bind P Q malformed f h k = tt
Ends-bind P Q stuck f h k = absurd h

pub Ends-weaken {ℓ} :
    {A : Type ℓ} (P Q : A → Type 0) (m : Parse A) → Ends P m → ((a : A) → P a → Q a) → Ends Q m
Ends-weaken P Q (parsed a) h k = k a h
Ends-weaken P Q malformed h k = tt
Ends-weaken P Q stuck h k = absurd h

pub Ends-if {ℓ} :
    {A : Type ℓ} (P : A → Type 0) (b : Bool) (m n : Parse A)
    → (b ≡ true → Ends P m)
    → (b ≡ false → Ends P n)
    → Ends P (if b then m else n)
Ends-if P true m n h k = h refl
Ends-if P false m n h k = k refl

pub >>=-congr {ℓ κ} :
    {A : Type ℓ} {B : Type κ} (m : Parse A) (f g : A → Parse B)
    → ((a : A) → f a ≡ g a)
    → (m >>= f) ≡ (m >>= g)
>>=-congr (parsed a) f g h = h a
>>=-congr malformed f g h = refl
>>=-congr stuck f g h = refl

pub Ends→ne-stuck {ℓ} : {A : Type ℓ} (P : A → Type 0) (m : Parse A) → Ends P m → m ≢ stuck
Ends→ne-stuck P (parsed a) h e = cc
Ends→ne-stuck P malformed h e = cc
Ends→ne-stuck P stuck h e = absurd h

-- The Boolean that a parser of the source returns, with the values filled in on `true`.
abbrev pub succeeded {ℓ} : {A : Type ℓ} → Parse A → Option A
succeeded (parsed a) = some a
succeeded malformed = none
succeeded stuck = none
