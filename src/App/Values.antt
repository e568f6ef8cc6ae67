-- ===== src/App/Values.antt =====
-- News of all four data types: from the datagram of a publisher to what the client shows.
use tema2_pc_client_server_t.Base.{
  ℕ, zero, suc, ◌∙◌, ap, refl, arith, false, ◌^◌, ◌<◌, ◌≡◌, not, List, [], ◌∷◌, ◌++◌, length, ok,
  ◌==◌,
}
use tema2_pc_client_server_t.Base.Words.{word_bytes, swap16, swap32}
use tema2_pc_client_server_t.Framing.{Memory}
use tema2_pc_client_server_t.App.News.{SockAddr, get_sendable_news}
use tema2_pc_client_server_t.App.Display.{
  Doubles, News, signed_string, to_string, digits, pow_rounds, int_name, short_real_name,
  float_name, string_name, my_pow, sign_of, parse_subscriber_news,
}
use tema2_pc_client_server_t.App.Shown.{
  with_source, parse-int, parse-short, parse-float, parse-string,
}

-- The values that publishers send: a sign, a number, and for `float` the exponent.
pub data Value : Type 0 where
  int : ℕ → ℕ → Value
  short_real : ℕ → Value
  float : ℕ → ℕ → ℕ → Value
  string : List ℕ → Value

-- The data type and the bytes behind it, in network order.
abbrev pub encoded : Value → List ℕ
encoded (int sign value) = 0 ∷ sign ∷ word_bytes 4 (swap32 value)
encoded (short_real value) = 1 ∷ word_bytes 2 (swap16 value)
encoded (float sign value e) = 2 ∷ sign ∷ (word_bytes 4 (swap32 value) ++ e ∷ [])
encoded (string text) = 3 ∷ text

abbrev pub Fits : Value → Type 0
Fits (int sign value) = value < 2 ^ 32
Fits (short_real value) = value < 2 ^ 16
Fits (float sign value e) = value < 2 ^ 32
Fits (string text) = length text < 2 ^ 32

abbrev pub name_of : Value → List ℕ
name_of (int sign value) = int_name
name_of (short_real value) = short_real_name
name_of (float sign value e) = float_name
name_of (string text) = string_name

-- A number in decimal, below zero if the sign is not 0.
abbrev pub decimal : ℕ → ℕ → List ℕ
decimal zero n = to_string n
decimal (suc sign) zero = b'0' ∷ []
decimal (suc sign) (suc n) = b'-' ∷ to_string (suc n)

nonzero : (n : ℕ) → (suc n == 0) ≡ false
nonzero n = ground arith

decimal-signed_string : (sign n : ℕ) → signed_string (not (sign == 0)) n ≡ decimal sign n
decimal-signed_string zero n = refl
decimal-signed_string (suc sign) zero = rw (nonzero sign) (unfold digits in refl)
decimal-signed_string (suc sign) (suc n) = rw (nonzero sign, nonzero n) refl

module _ (d : Doubles) where
  -- A power of ten, as a product.
  abbrev pub ten_to : ℕ → d.Double
  ten_to zero = d.of_nat 1
  ten_to (suc e) = d.times (ten_to e) (d.of_nat 10)

  -- 1 or -1, for a sign.
  abbrev pub unit : ℕ → d.Double
  unit zero = d.of_nat 1
  unit (suc sign) = d.minus_one

  pow_rounds-suc :
      (a : d.Double) (e : ℕ) (res : d.Double)
      → pow_rounds d a (suc e) res ≡ d.times (pow_rounds d a e res) a
  unfolding pow_rounds
  pow_rounds-suc a zero res = refl
  pow_rounds-suc a (suc e) res = pow_rounds-suc a e (d.times res a)

  my_pow-ten_to : (e : ℕ) → my_pow d (d.of_nat 10) e ≡ ten_to e
  unfolding my_pow
  my_pow-ten_to zero = unfold pow_rounds in refl
  my_pow-ten_to (suc e) =
      pow_rounds-suc (d.of_nat 10) e (d.of_nat 1)
      ∙ ap (λ x. d.times x (d.of_nat 10)) (my_pow-ten_to e)

  sign_of-unit : (sign : ℕ) → sign_of d (sign ∷ []) ≡ unit sign
  sign_of-unit zero = refl
  sign_of-unit (suc sign) = rw (nonzero sign) refl

  abbrev pub text_of : Value → List ℕ
  text_of (int sign value) = decimal sign value
  text_of (short_real value) = d.write_fixed 2 (d.over (d.of_nat value) (d.of_nat 100))
  text_of (float sign value e) =
      d.write 10 (d.times (d.over (d.of_nat value) (ten_to e)) (unit sign))
  text_of (string text) = text

  -- What the client shows of a value on a topic, from a sender.
  abbrev pub shown_as : SockAddr → List ℕ → Value → News → News
  shown_as saddr topic v news = record (with_source saddr topic news) {
    data_type = name_of v;
    value = text_of v;
  }

  -- A datagram of a topic of 50 bytes and a value of any of the four data types is forwarded, and
  -- then shown with its sender's address and port, the topic, the name of the data type, and the
  -- value: INT in decimal with its sign, SHORT_REAL as a hundredth with two digits behind the
  -- point, FLOAT over its power of 10 with its sign, STRING as it is, all bytes of it.
  pub parse-shown_as :
      (m : Memory) (saddr : SockAddr) (topic : List ℕ) (v : Value) (news : News) (tail : List ℕ)
      → length saddr.sin_addr ≡ 4
      → length topic ≡ 50
      → Fits v
      → (packet : List ℕ) × (get_sendable_news m (topic ++ encoded v) saddr ≡ ok packet)
        × (parse_subscriber_news d (packet ++ tail) (length packet) news
            ≡ ok (shown_as saddr topic v news))
  parse-shown_as m saddr topic (int sign value) news tail four fifty h =
      let (packet, made, parsed) = parse-int d m saddr topic news four fifty sign value tail h in
      (
        packet,
        made,
        parsed
            ∙ ap
                (λ x.
                  ok (record (with_source saddr topic news) { data_type = int_name; value = x }))
                (decimal-signed_string sign value),
      )
  parse-shown_as m saddr topic (short_real value) news tail four fifty h =
      parse-short d m saddr topic news four fifty value tail h
  parse-shown_as m saddr topic (float sign value e) news tail four fifty h =
      let (packet, made, parsed) =
        parse-float d m saddr topic news four fifty sign value e tail h in
      (
        packet,
        made,
        parsed
            ∙ ap
                (λ x. ok (record (with_source saddr topic news) {
                  data_type = float_name;
                  value = d.write 10 (d.times (d.over (d.of_nat value) x) (sign_of d (sign ∷ [])));
                }))
                (my_pow-ten_to e)
            ∙ ap
                (λ x. ok (record (with_source saddr topic news) {
                  data_type = float_name;
                  value = d.write 10 (d.times (d.over (d.of_nat value) (ten_to e)) x);
                }))
                (sign_of-unit sign),
      )
  parse-shown_as m saddr topic (string text) news tail four fifty h =
      parse-string d m saddr topic news four fifty text tail h
