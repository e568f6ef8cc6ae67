-- ===== src/Base/Map.antt =====
-- `std::map` and `std::unordered_map` as association lists, in the order of their keys.
use tema2_pc_client_server_t.Base.{
  ℕ, ◌≡◌, refl, ◌↔◌, Bool, true, false, ◌&&◌, Option, none, some, List, [], ◌∷◌, arith, ◌==◌,
  if◌then◌else◌, ltb,
}
use tema2_pc_client_server_t.Base.Int
use tema2_pc_client_server_t.Base.Int.{ℤ}

-- What a map asks of its keys: an equality that is one, and `<`.
pub record Key {ℓ} (K : Type ℓ) : Type ℓ where
  pub same : K → K → Bool
  pub less : K → K → Bool
  pub same_iff : (j k : K) → (same j k ≡ true) ↔ (j ≡ k)

abbrev pub same_text : List ℕ → List ℕ → Bool
same_text [] [] = true
same_text [] (y ∷ ys) = false
same_text (x ∷ xs) [] = false
same_text (x ∷ xs) (y ∷ ys) = x == y && same_text xs ys

abbrev pub less_text : List ℕ → List ℕ → Bool
less_text [] [] = false
less_text [] (y ∷ ys) = true
less_text (x ∷ xs) [] = false
less_text (x ∷ xs) (y ∷ ys) = if x == y then less_text xs ys else ltb x y

same_text-eq : (xs ys : List ℕ) → same_text xs ys ≡ true → xs ≡ ys
same_text-eq [] [] h = refl
same_text-eq [] (y ∷ ys) h = cc
same_text-eq (x ∷ xs) [] h = cc
same_text-eq (x ∷ xs) (y ∷ ys) h = ground (arith, same_text-eq xs ys)

same_text_refl : (xs : List ℕ) → same_text xs xs ≡ true
same_text_refl [] = refl
same_text_refl (x ∷ xs) = ground (arith, same_text_refl xs)

pub same_text_iff : (xs ys : List ℕ) → (same_text xs ys ≡ true) ↔ (xs ≡ ys)
same_text_iff xs ys = (same_text-eq xs ys, λ e. rw e (same_text_refl ys))

instance abbrev pub text_key : Key (List ℕ)
text_key = record { same = same_text; less = less_text; same_iff = same_text_iff }

instance abbrev pub int_key : Key ℤ
int_key = record { same = Int.eqb; less = Int.ltb; same_iff = Int.eqb_iff }

abbrev pub Map {ℓ κ} : Type ℓ → Type κ → Type (ℓ ⊔ κ)
Map K V = List (K × V)

module _ {ℓ κ} {K : Type ℓ} {V : Type κ} ⦃o : Key K⦄ where
  -- `m.find(k)`
  unfoldable pub lookup : K → Map K V → Option V
  lookup k [] = none
  lookup k ((j, v) ∷ m) = if o.same j k then some v else lookup k m

  -- `m[k] = v`
  unfoldable pub insert : K → V → Map K V → Map K V
  insert k v [] = (k, v) ∷ []
  insert k v ((j, w) ∷ m) =
      if o.same j k
      then (k, v) ∷ m
      else if o.less k j
      then (k, v) ∷ (j, w) ∷ m
      else (j, w) ∷ insert k v m

  -- `m.erase(k)`
  unfoldable pub erase : K → Map K V → Map K V
  erase k [] = []
  erase k ((j, w) ∷ m) = if o.same j k then erase k m else (j, w) ∷ erase k m

  -- `m.count(k) > 0`
  unfoldable pub contains : K → Map K V → Bool
  unfolding lookup
  contains k m = elim (lookup k m) [ none ↦ false | some v ↦ true ]

  -- The value of `m[k]`, where a missing key is first entered with the default value `d`.
  unfoldable pub at : V → K → Map K V → V
  unfolding lookup
  at d k m = elim (lookup k m) [ none ↦ d | some v ↦ v ]

  -- What `m[k]` leaves behind.
  unfoldable pub touch : V → K → Map K V → Map K V
  unfolding lookup insert
  touch d k m = elim (lookup k m) [ none ↦ insert k d m | some v ↦ m ]

  pub lookup-insert :
      (j k : K) (v : V) (m : Map K V)
      → lookup j (insert k v m) ≡ (if o.same k j then some v else lookup j m)
  unfolding lookup insert
  lookup-insert j k v [] = refl
  lookup-insert j k v ((i, w) ∷ m) =
      ground (arith, o.same_iff k j, o.same_iff i k, o.same_iff i j, lookup-insert j k v m)

  pub lookup-erase :
      (j k : K) (m : Map K V) → lookup j (erase k m) ≡ (if o.same k j then none else lookup j m)
  unfolding lookup erase
  lookup-erase j k [] = ground arith
  lookup-erase j k ((i, w) ∷ m) =
      ground (arith, o.same_iff k j, o.same_iff i k, o.same_iff i j, lookup-erase j k m)

  pub lookup-insert_self : (k : K) (v : V) (m : Map K V) → lookup k (insert k v m) ≡ some v
  lookup-insert_self k v m = rw (lookup-insert k k v m, (o.same_iff k k).1 refl)

  pub lookup-touch :
      (d : V) (j k : K) (m : Map K V)
      → lookup j (touch d k m) ≡ (if o.same k j then some (at d k m) else lookup j m)
  unfolding touch at
  lookup-touch d j k m = ground (arith, o.same_iff k j, lookup-insert j k d m)

  pub at-lookup : (d v : V) (k : K) (m : Map K V) → lookup k m ≡ some v → at d k m ≡ v
  unfolding at
  at-lookup d v k m h = ground arith

  pub at-insert :
      (d v : V) (j k : K) (m : Map K V)
      → at d j (insert k v m) ≡ (if o.same k j then v else at d j m)
  unfolding at
  at-insert d v j k m = ground (arith, lookup-insert j k v m)

  pub at-touch : (d : V) (j k : K) (m : Map K V) → at d j (touch d k m) ≡ at d j m
  unfolding at
  at-touch d j k m = ground (arith, lookup-touch d j k m, o.same_iff k j)
