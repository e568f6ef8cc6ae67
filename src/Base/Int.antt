-- ===== src/Base/Int.antt =====
-- The C++ `int`, as an integer over the native numbers; `negsuc n` is -(n + 1).
use tema2_pc_client_server_t.Base.{ℕ, ◌≡◌, ◌↔◌, Bool, true, false, arith, ◌==◌, ltb as ltb_nat}

pub data ℤ : Type 0 where
  pos : ℕ → ℤ
  negsuc : ℕ → ℤ

abbrev pub minus_one : ℤ
minus_one = negsuc 0

abbrev pub eqb : ℤ → ℤ → Bool
eqb (pos m) (pos n) = m == n
eqb (pos m) (negsuc n) = false
eqb (negsuc m) (pos n) = false
eqb (negsuc m) (negsuc n) = m == n

abbrev pub ltb : ℤ → ℤ → Bool
ltb (pos m) (pos n) = ltb_nat m n
ltb (pos m) (negsuc n) = false
ltb (negsuc m) (pos n) = true
ltb (negsuc m) (negsuc n) = ltb_nat n m

-- `x < 0` and `x <= 0`.
abbrev pub is_neg : ℤ → Bool
is_neg (pos n) = false
is_neg (negsuc n) = true

abbrev pub is_le_zero : ℤ → Bool
is_le_zero (pos n) = n == 0
is_le_zero (negsuc n) = true

pub eqb_iff : (a b : ℤ) → (eqb a b ≡ true) ↔ (a ≡ b)
eqb_iff (pos m) (pos n) = (ground arith, ground arith)
eqb_iff (pos m) (negsuc n) = (ground arith, ground arith)
eqb_iff (negsuc m) (pos n) = (ground arith, ground arith)
eqb_iff (negsuc m) (negsuc n) = (ground arith, ground arith)
