-- ===== src/Utils.antt =====
-- utils.cpp: `print_hex`. `char` is signed, and `std::hex` writes an `int` as the `unsigned int` of
-- the same 32 bits. (`max_int` is in Multi.antt, `my_pow` in App/Display.antt.)
mod Tests
use tema2_pc_client_server_t.Base.{
  ℕ, zero, suc, ◌+◌, ◌-◌, ◌*◌, ◌/◌, ◌%◌, ◌^◌, ◌≤◌, ◌<◌, ◌≡◌, true, false, refl, ◌∙◌, ap, Bool-cases,
  inl, inr, List, [], ◌∷◌, ◌++◌, arith, length, replicate, take, drop, Outcome, ok, ◌>>=◌, ltb,
  ◌==◌, if◌then◌else◌,
}
use tema2_pc_client_server_t.Base.Words.{IsBytes}
use tema2_pc_client_server_t.App.Display.{read_bytes}
use tema2_pc_client_server_t.App.Shown.{read_bytes_append}

abbrev pub hex_digit : ℕ → ℕ
hex_digit n = if ltb n 10 then 48 + n else 87 + n

-- A number in base 16, of at most `fuel` digits.
unfoldable pub hex_digits : ℕ → ℕ → List ℕ
hex_digits zero n = []
hex_digits (suc fuel) n =
    let front = hex_digits fuel (n / 16) in
    (if n / 16 == 0 then [] else front) ++ hex_digit (n % 16) ∷ []

-- `(int)data[i]` as an `unsigned int`.
abbrev pub widened : ℕ → ℕ
widened b = if ltb b 128 then b else b + (2 ^ 32 - 256)

-- `std::setw(2)` with the fill character 0.
abbrev pub padded : List ℕ → List ℕ
padded text = replicate (2 - length text) b'0' ++ text

abbrev pub hex_all : List ℕ → List ℕ
hex_all [] = []
hex_all (b ∷ bs) = padded (hex_digits 8 (widened b)) ++ hex_all bs

-- What `print_hex(data, size)` writes.
unfoldable pub print_hex : List ℕ → ℕ → Outcome (List ℕ)
print_hex buf size = do (bytes, rest) ← read_bytes size buf; ok (hex_all bytes ++ b'\n' ∷ [])

-- A byte by two digits, with six digits f in front if it is 128 or more.
abbrev pub signed_hex : ℕ → List ℕ
signed_hex b =
    (if ltb b 128 then [] else replicate 6 b'f') ++ hex_digit (b / 16) ∷ hex_digit (b % 16) ∷ []

abbrev pub signed_hexes : List ℕ → List ℕ
signed_hexes [] = []
signed_hexes (b ∷ bs) = signed_hex b ++ signed_hexes bs

last_digit : (fuel n : ℕ) → n < 16 → hex_digits (suc fuel) n ≡ hex_digit n ∷ []
unfolding hex_digits
last_digit fuel n h =
    let none_left : (n / 16 == 0) ≡ true = ground arith in
    let own : n % 16 ≡ n = omega arith in rw (none_left, own) refl

more_digits :
    (fuel n : ℕ)
    → 16 ≤ n
    → hex_digits (suc fuel) n ≡ hex_digits fuel (n / 16) ++ hex_digit (n % 16) ∷ []
unfolding hex_digits
more_digits fuel n h = let some_left : (n / 16 == 0) ≡ false = ground arith in rw some_left refl

low_hex : (b : ℕ) → b < 128 → padded (hex_digits 8 b) ≡ hex_digit (b / 16) ∷ hex_digit (b % 16) ∷ []
low_hex b h = elim (Bool-cases (ltb b 16)) [
  | inl e ↦
      let small : b < 16 = ground arith in
      let none : b / 16 ≡ 0 = omega arith in
      let own : b % 16 ≡ b = omega arith in rw (last_digit 7 b small, none, own) refl
  | inr e ↦
      let large : 16 ≤ b = ground arith in
      rw (more_digits 7 b large, last_digit 6 (b / 16) (omega arith)) refl
]

high_hex :
    (b : ℕ)
    → 128 ≤ b
    → b < 256
    → hex_digits 8 (b + (2 ^ 32 - 256))
      ≡ replicate 6 b'f' ++ hex_digit (b / 16) ∷ hex_digit (b % 16) ∷ []
high_hex b h k =
    let n = b + (2 ^ 32 - 256) in
    let e1 : n % 16 ≡ b % 16 = omega arith in
    let e2 : n / 16 % 16 ≡ b / 16 = omega arith in
    let e3 : n / 16 / 16 ≡ 2 ^ 24 - 1 = omega arith in
    let six : hex_digits 6 (2 ^ 24 - 1) ≡ replicate 6 b'f' = unfold hex_digits in refl in
    rw (more_digits 7 n (omega arith), more_digits 6 (n / 16) (omega arith), e1, e2, e3, six) refl

one_hex : (b : ℕ) → b < 256 → padded (hex_digits 8 (widened b)) ≡ signed_hex b
one_hex b h = elim (Bool-cases (ltb b 128)) [
  | inl e ↦ rw e (low_hex b (ground arith))
  | inr e ↦ rw (e, high_hex b (ground arith) h) refl
]

-- `print_hex` writes each byte by two digits in base 16 and then a newline, but puts six digits f
-- in front of the two for each byte of 128 or more.
pub print_hex-signed_hexes :
    (bytes behind : List ℕ)
    → IsBytes bytes
    → print_hex (bytes ++ behind) (length bytes) ≡ ok (signed_hexes bytes ++ b'\n' ∷ [])
unfolding print_hex
print_hex-signed_hexes bytes behind h =
    rw (read_bytes_append (length bytes) bytes behind refl)
      (ap (λ t. ok (t ++ b'\n' ∷ [])) (hex_all-signed_hexes bytes h))
  where
    hex_all-signed_hexes : (bs : List ℕ) → IsBytes bs → hex_all bs ≡ signed_hexes bs
    hex_all-signed_hexes [] h = refl
    hex_all-signed_hexes (b ∷ bs) h = rw (one_hex b h.0, hex_all-signed_hexes bs h.1) refl
