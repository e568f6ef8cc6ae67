-- ===== src/App/Display.antt =====
-- subscriber.cpp: `parse_subscriber_news`, with `my_pow` of utils.cpp. A `char *buf` that moves on is
-- the memory from `buf` on. `double` and its output are the interface `Doubles`; of it nothing is
-- assumed.
use tema2_pc_client_server_t.Base.{
  ℕ, zero, suc, ◌+◌, ◌/◌, ◌%◌, Bool, not, List, [], ◌∷◌, ◌++◌, length, take, drop, get_or, Outcome,
  ok, fault, ◌>>=◌, leb, ◌==◌, if◌then◌else◌,
}
use tema2_pc_client_server_t.Base.Words.{sub64, bytes_word, swap16, swap32}

-- `double`: what the arithmetic gives, and what a stream writes with a precision, in the fixed
-- notation and in the default one.
pub record Doubles : Type 1 where
  pub Double : Type 0
  pub of_nat : ℕ → Double
  pub minus_one : Double
  pub times : Double → Double → Double
  pub over : Double → Double → Double
  pub write_fixed : ℕ → Double → List ℕ
  pub write : ℕ → Double → List ℕ

-- `subscriber_news`; `topic` is the memory of its array.
pub record News : Type 0 where
  pub addr : List ℕ
  pub port : List ℕ
  pub topic : List ℕ
  pub data_type : List ℕ
  pub value : List ℕ

-- `n` bytes at `buf`, and the memory behind them.
unfoldable pub read_bytes : ℕ → List ℕ → Outcome (List ℕ × List ℕ)
read_bytes n buf = if leb n (length buf) then ok (take n buf, drop n buf) else fault

-- `std::to_string` on numbers of at most `fuel` digits.
unfoldable pub digits : ℕ → ℕ → List ℕ
digits zero n = []
digits (suc fuel) n =
    let front = digits fuel (n / 10) in (if n / 10 == 0 then [] else front) ++ (48 + n % 10) ∷ []

abbrev pub to_string : ℕ → List ℕ
to_string n = digits 20 n

-- `std::to_string` on a `long long` of this size, below zero if it is `negative`.
abbrev pub signed_string : Bool → ℕ → List ℕ
signed_string negative n =
    if negative then (if n == 0 then to_string n else b'-' ∷ to_string n) else to_string n

-- `inet_ntoa`
unfoldable pub inet_ntoa : List ℕ → List ℕ
inet_ntoa [] = []
inet_ntoa (b ∷ []) = to_string b
inet_ntoa (b ∷ c ∷ bs) = to_string b ++ b'.' ∷ inet_ntoa (c ∷ bs)

abbrev pub int_name : List ℕ
int_name = b'I' ∷ b'N' ∷ b'T' ∷ []

abbrev pub short_real_name : List ℕ
short_real_name = b'S' ∷ b'H' ∷ b'O' ∷ b'R' ∷ b'T' ∷ b'_' ∷ b'R' ∷ b'E' ∷ b'A' ∷ b'L' ∷ []

abbrev pub float_name : List ℕ
float_name = b'F' ∷ b'L' ∷ b'O' ∷ b'A' ∷ b'T' ∷ []

abbrev pub string_name : List ℕ
string_name = b'S' ∷ b'T' ∷ b'R' ∷ b'I' ∷ b'N' ∷ b'G' ∷ []

module _ (d : Doubles) where
  -- The rounds of the loop of `my_pow`.
  unfoldable pub pow_rounds : d.Double → ℕ → d.Double → d.Double
  pow_rounds a zero res = res
  pow_rounds a (suc e) res = pow_rounds a e (d.times res a)

  unfoldable pub my_pow : d.Double → ℕ → d.Double
  unfolding pow_rounds
  my_pow a e = pow_rounds a e (d.of_nat 1)

  abbrev pub sign_of : List ℕ → d.Double
  sign_of sign = if get_or sign 0 0 == 0 then d.of_nat 1 else d.minus_one

  unfoldable pub int_value : List ℕ → News → Outcome News
  int_value buf news = do
    (sign, rest) ← read_bytes 1 buf
    (word, rest') ← read_bytes 4 rest
    ok (record news {
      data_type = int_name;
      value = signed_string (not (get_or sign 0 0 == 0)) (swap32 (bytes_word word));
    })

  unfoldable pub short_real_value : List ℕ → News → Outcome News
  short_real_value buf news = do
    (word, rest) ← read_bytes 2 buf
    ok (record news {
      data_type = short_real_name;
      value = d.write_fixed 2 (d.over (d.of_nat (swap16 (bytes_word word))) (d.of_nat 100));
    })

  unfoldable pub float_value : List ℕ → News → Outcome News
  unfolding my_pow
  float_value buf news = do
    (sign, rest) ← read_bytes 1 buf
    (word, rest') ← read_bytes 4 rest
    (exponent, rest'') ← read_bytes 1 rest'
    let real =
        d.over (d.of_nat (swap32 (bytes_word word))) (my_pow (d.of_nat 10) (get_or exponent 0 0))
    ok (record news { data_type = float_name; value = d.write 10 (d.times real (sign_of sign)) })

  unfoldable pub string_value : List ℕ → ℕ → News → Outcome News
  string_value buf size news = do
    (text, rest) ← read_bytes size buf
    ok (record news { data_type = string_name; value = text })

  -- The `switch` over the data type.
  unfoldable pub parse_value : ℕ → List ℕ → ℕ → News → Outcome News
  unfolding int_value short_real_value float_value string_value
  parse_value data_type buf size news =
      if data_type == 0
      then int_value buf news
      else if data_type == 1
      then short_real_value buf news
      else if data_type == 2
      then float_value buf news
      else if data_type == 3
      then string_value buf size news
      else ok news

  -- `size` is a `size_t`.
  unfoldable pub parse_subscriber_news : List ℕ → ℕ → News → Outcome News
  unfolding parse_value
  parse_subscriber_news buf size news = do
    (addr, buf1) ← read_bytes 4 buf
    (port, buf2) ← read_bytes 2 buf1
    (topic, buf3) ← read_bytes 50 buf2
    (kind, buf4) ← read_bytes 1 buf3
    let size1 = sub64 (sub64 (sub64 (sub64 size 4) 2) 50) 1
    parse_value (get_or kind 0 0) buf4 size1 (record news {
      addr = inet_ntoa addr;
      port = to_string (bytes_word port);
      topic = topic ++ 0 ∷ [];
    })
