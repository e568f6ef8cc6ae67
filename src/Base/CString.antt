-- ===== src/Base/CString.antt =====
-- C strings in memory. A read past the end of the memory is undefined behaviour.
use tema2_pc_client_server_t.Base.{
  ℕ, zero, suc, ◌+◌, ◌-◌, ◌<◌, ◌≡◌, refl, List, [], ◌∷◌, ◌++◌, arith, length, replicate,
  length-replicate, All, Outcome, ok, fault, ◌>>=◌,
}

abbrev pub nuls : ℕ → List ℕ
nuls k = replicate k 0

pub length-nuls : (k : ℕ) → length (nuls k) ≡ k
length-nuls k = length-replicate {A = ℕ} k 0

pub nuls_pos : (k : ℕ) → 0 < k → nuls k ≡ 0 ∷ nuls (k - 1)
nuls_pos zero h = elim h [ ]
nuls_pos (suc k) h = let e : suc k - 1 ≡ k = omega arith in rw e

-- The text at a `char *`: the bytes before the first NUL.
unfoldable pub c_str : List ℕ → Outcome (List ℕ)
c_str [] = fault
c_str (zero ∷ mem) = ok []
c_str (suc b ∷ mem) = do rest ← c_str mem; ok (suc b ∷ rest)

-- The `n` bytes that `strncpy(dst, src, n)` writes: NULs behind the text, if it is shorter, and no
-- NUL, if it is not.
unfoldable pub strncpy : ℕ → List ℕ → Outcome (List ℕ)
strncpy zero src = ok []
strncpy (suc n) [] = fault
strncpy (suc n) (zero ∷ src) = ok (nuls (suc n))
strncpy (suc n) (suc b ∷ src) = do rest ← strncpy n src; ok (suc b ∷ rest)

-- `strnlen(mem, n)`
unfoldable pub strnlen : List ℕ → ℕ → Outcome ℕ
strnlen mem zero = ok 0
strnlen [] (suc n) = fault
strnlen (zero ∷ mem) (suc n) = ok 0
strnlen (suc b ∷ mem) (suc n) = do k ← strnlen mem n; ok (suc k)

-- A text holds no NUL.
abbrev pub IsText : List ℕ → Type 0
IsText = All (λ b. 0 < b)

pub c_str_text : (t mem : List ℕ) → IsText t → c_str (t ++ 0 ∷ mem) ≡ ok t
unfolding c_str
c_str_text [] mem h = refl
c_str_text (zero ∷ t) mem h = absurd (omega (arith, h.0))
c_str_text (suc b ∷ t) mem h = rw (c_str_text t mem h.1)

-- A source that ends within its memory, or fills `n` bytes of it.
pub strncpy_short :
    (n k : ℕ) (t mem : List ℕ)
    → IsText t
    → length t + k ≡ n
    → 0 < k
    → strncpy n (t ++ 0 ∷ mem) ≡ ok (t ++ nuls k)
unfolding strncpy
strncpy_short zero k t mem h e p = absurd (omega arith)
strncpy_short (suc n) zero [] mem h e p = absurd (omega arith)
strncpy_short (suc n) (suc k) [] mem h e p = ground arith
strncpy_short (suc n) k (zero ∷ t) mem h e p = absurd (omega (arith, h.0))
strncpy_short (suc n) k (suc b ∷ t) mem h e p = rw (strncpy_short n k t mem h.1 (omega arith) p)

pub strncpy_full : (n : ℕ) (t mem : List ℕ) → IsText t → length t ≡ n → strncpy n (t ++ mem) ≡ ok t
unfolding strncpy
strncpy_full zero [] mem h e = refl
strncpy_full zero (b ∷ t) mem h e = absurd (omega arith)
strncpy_full (suc n) [] mem h e = absurd (omega arith)
strncpy_full (suc n) (zero ∷ t) mem h e = absurd (omega (arith, h.0))
strncpy_full (suc n) (suc b ∷ t) mem h e = rw (strncpy_full n t mem h.1 (omega arith))

pub strnlen_short :
    (n : ℕ) (t mem : List ℕ) → IsText t → length t < n → strnlen (t ++ 0 ∷ mem) n ≡ ok (length t)
unfolding strnlen
strnlen_short zero t mem h e = absurd (omega arith)
strnlen_short (suc n) [] mem h e = refl
strnlen_short (suc n) (zero ∷ t) mem h e = absurd (omega (arith, h.0))
strnlen_short (suc n) (suc b ∷ t) mem h e = rw (strnlen_short n t mem h.1 (omega arith))

pub strnlen_full : (n : ℕ) (t mem : List ℕ) → IsText t → length t ≡ n → strnlen (t ++ mem) n ≡ ok n
unfolding strnlen
strnlen_full zero t mem h e = refl
strnlen_full (suc n) [] mem h e = absurd (omega arith)
strnlen_full (suc n) (zero ∷ t) mem h e = absurd (omega (arith, h.0))
strnlen_full (suc n) (suc b ∷ t) mem h e = rw (strnlen_full n t mem h.1 (omega arith))
