-- ===== src/App/Numbers.antt =====
-- Numbers that are written and read back.
use tema2_pc_client_server_t.Base.{
  ℕ, zero, suc, ◌+◌, ◌-◌, ◌*◌, ◌/◌, ◌%◌, ◌^◌, ◌<◌, ◌≡◌, refl, sym, ◌∙◌, ap, true, false, Bool-cases,
  inl, inr, List, [], ◌∷◌, ◌++◌, append_assoc, append-nil, arith, ok, ◌==◌, leb,
}
use tema2_pc_client_server_t.Base.Int.{pos}
use tema2_pc_client_server_t.Base.Argv.{
  is_digit, is_space, skip_space, digits_value, signed_value, atoi,
}
use tema2_pc_client_server_t.App.Display.{digits, to_string}

-- `tens k` is 10 ^ k.
abbrev pub tens : ℕ → ℕ
tens zero = 1
tens (suc k) = 10 * tens k

digits_value_one :
    (n d : ℕ) (cs : List ℕ) → d < 10 → digits_value n ((48 + d) ∷ cs) ≡ digits_value (10 * n + d) cs
digits_value_one n d cs h =
    let e : 48 + d - 48 ≡ d = omega arith in
    let is : is_digit (48 + d) ≡ true = ground arith in rw (is, e) refl

digits_value-digits :
    (fuel n : ℕ) (cs : List ℕ)
    → n < tens fuel
    → digits_value 0 (digits fuel n ++ cs) ≡ digits_value n cs
unfolding digits
digits_value-digits zero n cs h = let e : n ≡ 0 = omega arith in rw e refl
digits_value-digits (suc fuel) n cs h = elim (Bool-cases (n / 10 == 0)) [
  | inl e ↦
      let same : 10 * 0 + n % 10 ≡ n = ground (arith) in
      rw (e, digits_value_one 0 (n % 10) cs (omega arith), same) refl
  | inr e ↦
      let same : 10 * (n / 10) + n % 10 ≡ n = omega arith in
      rw
        (
          e,
          append_assoc (digits fuel (n / 10)) ((48 + n % 10) ∷ []) cs,
          digits_value-digits fuel (n / 10) ((48 + n % 10) ∷ cs) (omega arith),
          digits_value_one (n / 10) (n % 10) cs (omega arith),
          same,
        )
        refl
]

-- A text that begins with a digit.
abbrev Begins : List ℕ → Type 0
Begins xs = (c : ℕ) × (cs : List ℕ) × (xs ≡ c ∷ cs) × (is_digit c ≡ true)

digits-Begins : (fuel n : ℕ) → Begins (digits (suc fuel) n)
unfolding digits
digits-Begins zero n = (48 + n % 10, [], ground arith, ground arith)
digits-Begins (suc fuel) n = elim (Bool-cases (n / 10 == 0)) [
  | inl e ↦ rw e (48 + n % 10, [], refl, ground arith)
  | inr e ↦
      let (c, cs, same, is) = digits-Begins fuel (n / 10) in
      rw e (c, cs ++ (48 + n % 10) ∷ [], ap (λ xs. xs ++ (48 + n % 10) ∷ []) same, is)
]

-- A number that fits an `int`, written in decimal, is read back by `atoi`.
pub atoi-to_string : (n : ℕ) → n < 2 ^ 31 → atoi (to_string n) ≡ ok (pos n)
unfolding atoi
atoi-to_string n h =
    let (c, cs, same, is) = digits-Begins 19 n in
    let value : digits_value 0 (c ∷ cs) ≡ n =
      ap (digits_value 0) (sym same ∙ sym (append-nil (to_string n)))
      ∙ digits_value-digits 20 n [] (omega arith) in
    let not_space : is_space c ≡ false = ground arith in
    let not_minus : (c == b'-') ≡ false = ground arith in
    let not_plus : (c == b'+') ≡ false = ground arith in
    let in_range : leb (2 ^ 31) n ≡ false = ground arith in
    ap (λ t. signed_value (skip_space t)) same
    ∙ rw (not_space, not_minus, not_plus, value, in_range) refl
