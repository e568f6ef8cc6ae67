-- ===== src/Base/Argv.antt =====
-- The command line of the two programs: `argv` is the list of its texts.
use tema2_pc_client_server_t.Base.{
  ℕ, zero, suc, ◌+◌, ◌-◌, ◌*◌, ◌%◌, ◌^◌, Bool, ◌&&◌, ◌||◌, List, [], ◌∷◌, Outcome, ok, fault, leb,
  ◌==◌, if◌then◌else◌,
}
use tema2_pc_client_server_t.Base.Int.{ℤ, pos, negsuc}
use tema2_pc_client_server_t.Base.Words.{swap16}

-- How a program starts: `usage` writes a text and ends it by `exit(0)`, or it runs.
pub data Launched {ℓ} (A : Type ℓ) : Type ℓ where
  usage : List ℕ → Launched A
  runs : A → Launched A

-- `isspace` and `isdigit`
abbrev pub is_space : ℕ → Bool
is_space c = c == 32 || (leb 9 c && leb c 13)

abbrev pub is_digit : ℕ → Bool
is_digit c = leb b'0' c && leb c b'9'

abbrev pub skip_space : List ℕ → List ℕ
skip_space [] = []
skip_space (c ∷ cs) = let rest = skip_space cs in if is_space c then rest else c ∷ cs

-- The number that the digits at the front stand for, behind digits that stand for `n`.
abbrev pub digits_value : ℕ → List ℕ → ℕ
digits_value n [] = n
digits_value n (c ∷ cs) =
    let rest = digits_value (10 * n + (c - b'0')) cs in if is_digit c then rest else n

-- A number with its sign as an `int`: out of its range the behaviour is undefined.
abbrev pub positive : ℕ → Outcome ℤ
positive n = if leb (2 ^ 31) n then fault else ok (pos n)

abbrev pub negative : ℕ → Outcome ℤ
negative zero = ok (pos 0)
negative (suc n) = if leb (2 ^ 31) n then fault else ok (negsuc n)

abbrev pub signed_value : List ℕ → Outcome ℤ
signed_value [] = ok (pos 0)
signed_value (c ∷ cs) =
    if c == b'-'
    then negative (digits_value 0 cs)
    else if c == b'+'
    then positive (digits_value 0 cs)
    else positive (digits_value 0 (c ∷ cs))

-- `atoi`
unfoldable pub atoi : List ℕ → Outcome ℤ
atoi text = signed_value (skip_space text)

-- `htons` on an `int`, which becomes a `uint16_t`.
unfoldable pub htons : ℤ → ℕ
htons (pos n) = swap16 (n % 2 ^ 16)
htons (negsuc n) = swap16 (2 ^ 16 - 1 - n % 2 ^ 16)
