-- ===== src/Base/Effects.antt =====
-- How a run of C++ code ends: with a value, by the macro DIE, in undefined behaviour (an access
-- outside its object), or, for a loop on fuel, out of fuel.
use mathlib.Core.Path.{◌≡◌, refl, subst}
use mathlib.Core.Bool.{Bool, true, false}
use tema2_pc_client_server_t.Base.Tests.{if◌then◌else◌}

pub data Outcome {ℓ} (A : Type ℓ) : Type ℓ where
  ok : A → Outcome A
  die : Outcome A
  fault : Outcome A
  out_of_fuel : Outcome A

infixl 5 ◌>>=◌
abbrev pub ◌>>=◌ {ℓ κ} : {A : Type ℓ} {B : Type κ} → Outcome A → (A → Outcome B) → Outcome B
ok a >>= f = f a
die >>= f = die
fault >>= f = fault
out_of_fuel >>= f = out_of_fuel

-- A run that ends with a value has got through its first part.
pub >>=-eq-ok {ℓ κ} :
    {X : Type ℓ} {Y : Type κ} (run : Outcome X) (rest : X → Outcome Y) {y : Y}
    → (run >>= rest) ≡ ok y
    → (x : X) × (run ≡ ok x) × (rest x ≡ ok y)
>>=-eq-ok die rest ends = cc
>>=-eq-ok fault rest ends = cc
>>=-eq-ok out_of_fuel rest ends = cc
>>=-eq-ok (ok x) rest ends = (x, refl, ends)

-- What holds of a result, if there is one.
abbrev pub Holds {ℓ κ} : {A : Type ℓ} → (A → Type κ) → Outcome A → Type (ℓ ⊔ κ)
Holds {A = A} P m = (a : A) → m ≡ ok a → P a

module _ {ℓ κ} {A : Type ℓ} (P : A → Type κ) where
  pub Holds-ok : (a : A) → P a → Holds P (ok a)
  Holds-ok a h b e = let same : a ≡ b = cc in subst P same h

  pub Holds-if : (b : Bool) (m n : Outcome A) → Holds P m → Holds P n → Holds P (if b then m else n)
  Holds-if true m n h k = h
  Holds-if false m n h k = k

pub Holds->>= {ℓ κ λ'} :
    {A : Type ℓ} {B : Type κ} (P : B → Type λ') (m : Outcome A) (f : A → Outcome B)
    → ((a : A) → Holds P (f a))
    → Holds P (m >>= f)
Holds->>= P m f h b e = let (a, _, q) = >>=-eq-ok m f e in h a b q

-- The second of two steps may rely on what the first one ensures.
pub Holds-then {ℓ κ λ' μ} :
    {A : Type ℓ} {B : Type κ} (P : A → Type λ') (Q : B → Type μ) (m : Outcome A) (f : A → Outcome B)
    → Holds P m
    → ((a : A) → P a → Holds Q (f a))
    → Holds Q (m >>= f)
Holds-then P Q m f first second b e = let (a, p, q) = >>=-eq-ok m f e in second a (first a p) b q
