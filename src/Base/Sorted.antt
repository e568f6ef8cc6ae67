-- ===== src/Base/Sorted.antt =====
-- That a map holds its keys in order, each of them once.
use tema2_pc_client_server_t.Base.{
  ℕ, ◌≡◌, refl, sym, ◌∙◌, ap, Bool, true, false, Bool-cases, inl, inr, none, Option-cases, List, [],
  ◌∷◌, arith, All, if◌then◌else◌,
}
use tema2_pc_client_server_t.Base.Int
use tema2_pc_client_server_t.Base.Int.{ℤ, pos, negsuc}
use tema2_pc_client_server_t.Base.Map.{
  Key, Map, text_key, int_key, less_text, same_text, lookup, insert, erase, touch,
}

-- What a strict total order has, next to `Key`.
pub record Ordered {ℓ} {K : Type ℓ} (o : Key K) : Type ℓ where
  pub irreflexive : (k : K) → o.less k k ≡ false
  pub transitive : (i j k : K) → o.less i j ≡ true → o.less j k ≡ true → o.less i k ≡ true
  pub total : (j k : K) → o.same j k ≡ false → o.less k j ≡ false → o.less j k ≡ true

pub less_text_irreflexive : (xs : List ℕ) → less_text xs xs ≡ false
less_text_irreflexive [] = refl
less_text_irreflexive (x ∷ xs) = ground (arith, less_text_irreflexive xs)

pub less_text_transitive :
    (xs ys zs : List ℕ) → less_text xs ys ≡ true → less_text ys zs ≡ true → less_text xs zs ≡ true
less_text_transitive [] [] zs h k = cc
less_text_transitive [] (y ∷ ys) [] h k = cc
less_text_transitive [] (y ∷ ys) (z ∷ zs) h k = refl
less_text_transitive (x ∷ xs) [] zs h k = cc
less_text_transitive (x ∷ xs) (y ∷ ys) [] h k = cc
less_text_transitive (x ∷ xs) (y ∷ ys) (z ∷ zs) h k = ground (arith, less_text_transitive xs ys zs)

pub less_text_total :
    (xs ys : List ℕ) → same_text xs ys ≡ false → less_text ys xs ≡ false → less_text xs ys ≡ true
less_text_total [] [] h k = cc
less_text_total [] (y ∷ ys) h k = refl
less_text_total (x ∷ xs) [] h k = cc
less_text_total (x ∷ xs) (y ∷ ys) h k = ground (arith, less_text_total xs ys)

instance abbrev pub text_order : Ordered text_key
text_order = record {
  irreflexive = less_text_irreflexive;
  transitive = less_text_transitive;
  total = less_text_total;
}

pub less_int_irreflexive : (a : ℤ) → Int.ltb a a ≡ false
less_int_irreflexive (pos n) = ground arith
less_int_irreflexive (negsuc n) = ground arith

pub less_int_transitive : (a b c : ℤ) → Int.ltb a b ≡ true → Int.ltb b c ≡ true → Int.ltb a c ≡ true
less_int_transitive (pos l) (pos m) (pos n) h k = ground arith
less_int_transitive (pos l) (pos m) (negsuc n) h k = cc
less_int_transitive (pos l) (negsuc m) c h k = cc
less_int_transitive (negsuc l) b (pos n) h k = refl
less_int_transitive (negsuc l) (pos m) (negsuc n) h k = cc
less_int_transitive (negsuc l) (negsuc m) (negsuc n) h k = ground arith

pub less_int_total : (a b : ℤ) → Int.eqb a b ≡ false → Int.ltb b a ≡ false → Int.ltb a b ≡ true
less_int_total (pos m) (pos n) h k = ground arith
less_int_total (pos m) (negsuc n) h k = cc
less_int_total (negsuc m) (pos n) h k = refl
less_int_total (negsuc m) (negsuc n) h k = ground arith

instance abbrev pub int_order : Ordered int_key
int_order = record {
  irreflexive = less_int_irreflexive;
  transitive = less_int_transitive;
  total = less_int_total;
}

module _ {ℓ κ} {K : Type ℓ} {V : Type κ} ⦃o : Key K⦄ ⦃l : Ordered o⦄ where
  abbrev pub IsBelow : K → Map K V → Type 0
  IsBelow k m = All (λ e. o.less k e.0 ≡ true) m

  abbrev pub IsSorted : Map K V → Type 0
  IsSorted [] = Unit
  IsSorted ((k, v) ∷ m) = IsBelow k m × IsSorted m

  IsBelow-IsBelow : (i j : K) (m : Map K V) → o.less i j ≡ true → IsBelow j m → IsBelow i m
  IsBelow-IsBelow i j [] h b = tt
  IsBelow-IsBelow i j ((k, v) ∷ m) h (b, bs) = (l.transitive i j k h b, IsBelow-IsBelow i j m h bs)

  insert-IsBelow :
      (j k : K) (v : V) (m : Map K V) → IsBelow j m → o.less j k ≡ true → IsBelow j (insert k v m)
  unfolding insert
  insert-IsBelow j k v [] b h = (h, tt)
  insert-IsBelow j k v ((i, w) ∷ m) (b, bs) h = elim (Bool-cases (o.same i k)) [
    | inl e ↦ rw (e, insert) (h, bs)
    | inr e ↦ elim (Bool-cases (o.less k i)) [
      | inl f ↦ rw (e, f, insert) (h, (b, bs))
      | inr f ↦ rw (e, f, insert) (b, insert-IsBelow j k v m bs h)
    ]
  ]

  pub insert-IsSorted : (k : K) (v : V) (m : Map K V) → IsSorted m → IsSorted (insert k v m)
  unfolding insert
  insert-IsSorted k v [] s = (tt, tt)
  insert-IsSorted k v ((i, w) ∷ m) (b, s) = elim (Bool-cases (o.same i k)) [
    | inl e ↦ let same : i ≡ k = (o.same_iff i k).0 e in rw (e, insert) (rw (sym same) b, s)
    | inr e ↦ elim (Bool-cases (o.less k i)) [
      | inl f ↦ rw (e, f, insert) ((f, IsBelow-IsBelow k i m f b), (b, s))
      | inr f ↦
          rw (e, f, insert) (insert-IsBelow i k v m b (l.total i k e f), insert-IsSorted k v m s)
    ]
  ]

  erase-IsBelow : (j k : K) (m : Map K V) → IsBelow j m → IsBelow j (erase k m)
  unfolding erase
  erase-IsBelow j k [] b = tt
  erase-IsBelow j k ((i, w) ∷ m) (b, bs) = elim (Bool-cases (o.same i k)) [
    | inl e ↦ rw (e, erase) (erase-IsBelow j k m bs)
    | inr e ↦ rw (e, erase) (b, erase-IsBelow j k m bs)
  ]

  pub erase-IsSorted : (k : K) (m : Map K V) → IsSorted m → IsSorted (erase k m)
  unfolding erase
  erase-IsSorted k [] s = tt
  erase-IsSorted k ((i, w) ∷ m) (b, s) = elim (Bool-cases (o.same i k)) [
    | inl e ↦ rw (e, erase) (erase-IsSorted k m s)
    | inr e ↦ rw (e, erase) (erase-IsBelow i k m b, erase-IsSorted k m s)
  ]

  pub lookup_below : (k : K) (m : Map K V) → IsBelow k m → lookup k m ≡ none
  unfolding lookup
  lookup_below k [] b = refl
  lookup_below k ((i, w) ∷ m) (b, bs) = elim (Bool-cases (o.same i k)) [
    | inl e ↦
        let same : i ≡ k = (o.same_iff i k).0 e in
        let clash : false ≡ true = sym (l.irreflexive k) ∙ ap (o.less k) (sym same) ∙ b in cc
    | inr e ↦ rw e (lookup_below k m bs)
  ]

  pub touch-IsSorted : (d : V) (k : K) (m : Map K V) → IsSorted m → IsSorted (touch d k m)
  unfolding touch
  touch-IsSorted d k m s = elim (Option-cases (lookup k m)) [
    | inl e ↦ rw (e, touch) (insert-IsSorted k d m s)
    | inr (v, e) ↦ rw (e, touch) s
  ]

  pub if-IsSorted :
      (b : Bool) (m n : Map K V) → IsSorted m → IsSorted n → IsSorted (if b then m else n)
  if-IsSorted true m n s t = s
  if-IsSorted false m n s t = t
