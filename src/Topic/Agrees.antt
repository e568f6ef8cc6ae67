-- ===== src/Topic/Agrees.antt =====
-- INT data: `parse_topic` and `parse_topic_value_to_string` of topic.cpp against
-- `parse_subscriber_news` of subscriber.cpp.
use tema2_pc_client_server_t.Base.{
  ℕ, zero, suc, ◌+◌, ◌-◌, ◌/◌, ◌%◌, ◌^◌, ◌≤◌, ◌<◌, ◌≡◌, refl, sym, ap, ◌∙◌, Bool, true, false, not,
  Bool-cases, inl, inr, List, [], ◌∷◌, ◌++◌, append_assoc, arith, length, take, drop, length-append,
  take_all, drop-append_add, All-append, All-take, length-take, ok, ◌==◌,
}
use tema2_pc_client_server_t.Base.Words.{
  word_bytes, swap32, swap32-swap32, memcpy_fits, write_at, write_at_front, write_at_next,
}
use tema2_pc_client_server_t.Base.CString.{IsText, c_str, c_str_text}
use tema2_pc_client_server_t.Framing.{Memory}
use tema2_pc_client_server_t.App.News.{SockAddr, get_sendable_news}
use tema2_pc_client_server_t.App.Display.{
  Doubles, News, read_bytes, digits, signed_string, parse_subscriber_news,
}
use tema2_pc_client_server_t.App.Numbers.{tens}
use tema2_pc_client_server_t.App.Shown.{bytes_word-word_bytes_four, swap32_bound, parse-int}
use tema2_pc_client_server_t.Topic.{
  topic_data_size, char_at, to_host, parse_topic, snprintf, parse_topic_value_to_string,
}

digits-IsText : (fuel n : ℕ) → IsText (digits fuel n)
unfolding digits
digits-IsText zero n = tt
digits-IsText (suc fuel) n = elim (Bool-cases (n / 10 == 0)) [
  | inl e ↦ rw e (omega arith, tt)
  | inr e ↦
      rw e (All-append _ (digits fuel (n / 10)) _ (digits-IsText fuel (n / 10)) (omega arith, tt))
]

signed_string-IsText : (negative : Bool) (n : ℕ) → IsText (signed_string negative n)
signed_string-IsText false n = digits-IsText 20 n
signed_string-IsText true n = elim (Bool-cases (n == 0)) [
  | inl e ↦ rw e (digits-IsText 20 n)
  | inr e ↦ rw e (omega arith, digits-IsText 20 n)
]

digits_bound : (fuel k n : ℕ) → n < tens (suc k) → length (digits fuel n) ≤ suc k
unfolding digits
digits_bound zero k n h = omega arith
digits_bound (suc fuel) zero n h = let e : n / 10 ≡ 0 = omega arith in ground (arith, e)
digits_bound (suc fuel) (suc k) n h = elim (Bool-cases (n / 10 == 0)) [
  | inl e ↦ rw e (omega arith)
  | inr e ↦ rw e (
      omega (
        arith,
        digits_bound fuel k (n / 10) (omega arith),
        length-append (digits fuel (n / 10)) ((48 + n % 10) ∷ []),
      ))
]

signed_string_bound :
    (negative : Bool) (n : ℕ) → n < 2 ^ 32 → length (signed_string negative n) ≤ 11
signed_string_bound negative n h = let l = digits_bound 20 9 n (omega arith) in ground (arith, l)

-- What `snprintf` writes of a text is a string: as much of the text as fits.
pub snprintf_lem :
    (str text : List ℕ) (n : ℕ)
    → 0 < n
    → n ≤ length str
    → IsText text
    → (str' : List ℕ) × (snprintf str n text ≡ ok str') × (c_str str' ≡ ok (take (n - 1) text))
unfolding snprintf
snprintf_lem str text n l h t =
    let cut = take (n - 1) text in
    let written : length (cut ++ 0 ∷ []) ≤ length str =
      omega (arith, length-append cut (0 ∷ []), length-take (n - 1) text) in
    let positive : (n == 0) ≡ false = ground arith in
    (
      write_at str 0 (cut ++ 0 ∷ []),
      rw positive (memcpy_fits str 0 (cut ++ 0 ∷ []) (omega arith)),
      rw
          (
            write_at_front str (cut ++ 0 ∷ []),
            append_assoc cut (0 ∷ []) (drop (length (cut ++ 0 ∷ [])) str),
          )
          (c_str_text cut _ (All-take _ (n - 1) text t)),
    )

-- What the object holds behind `memcpy`, at its front.
pub parse_topic_lem :
    (buf mem : List ℕ) (size : ℕ)
    → length buf ≡ size
    → size ≤ length mem
    → parse_topic buf size mem
      ≡ ok (to_host (char_at 50 (buf ++ drop size mem)) size (buf ++ drop size mem))
unfolding parse_topic
parse_topic_lem buf mem size e h =
    let read : read_bytes size buf ≡ ok (buf, drop size buf) =
      unfold read_bytes in (ground (arith, take_all size buf (omega arith))) in
    rw (read, memcpy_fits mem 0 buf (omega arith), write_at_front mem buf, e) refl

module _ (topic : List ℕ) (fifty : length topic ≡ 50) where
  -- The fields behind the topic.
  pub drop_topic : (k : ℕ) (rest : List ℕ) → drop (50 + k) (topic ++ rest) ≡ drop k rest
  drop_topic k rest = drop-append_add 50 k topic rest fifty

  int_host :
      (sign value : ℕ) (rest : List ℕ)
      → value < 2 ^ 32
      → to_host 0 56 (topic ++ 0 ∷ sign ∷ (word_bytes 4 (swap32 value) ++ rest))
        ≡ topic ++ 0 ∷ sign ∷ (word_bytes 4 value ++ rest)
  unfolding to_host
  int_host sign value rest h =
      let next =
        write_at_next 52 (topic ++ 0 ∷ sign ∷ []) (word_bytes 4 (swap32 value) ++ rest)
          (word_bytes 4 value) (omega (arith, length-append topic (0 ∷ sign ∷ []))) in
      rw
        (
          drop_topic 2 (0 ∷ sign ∷ (word_bytes 4 (swap32 value) ++ rest)),
          bytes_word-word_bytes_four (swap32 value) (swap32_bound value),
          swap32-swap32 value h,
        )
        (ap (λ m. write_at m 52 (word_bytes 4 value))
            (sym (append_assoc topic (0 ∷ sign ∷ []) (word_bytes 4 (swap32 value) ++ rest)))
          ∙ next
          ∙ append_assoc topic (0 ∷ sign ∷ []) (word_bytes 4 value ++ rest))

  int_datagram : ℕ → ℕ → List ℕ
  int_datagram sign value = topic ++ 0 ∷ sign ∷ word_bytes 4 (swap32 value)

  length-int_datagram : (sign value : ℕ) → length (int_datagram sign value) ≡ 56
  unfolding int_datagram
  length-int_datagram sign value =
      omega (arith, length-append topic (0 ∷ sign ∷ word_bytes 4 (swap32 value)))

  parse_topic-int :
      (sign value : ℕ) (mem : List ℕ)
      → value < 2 ^ 32
      → length mem ≡ topic_data_size
      → parse_topic (topic ++ 0 ∷ sign ∷ word_bytes 4 (swap32 value)) 56 mem
        ≡ ok (topic ++ 0 ∷ sign ∷ (word_bytes 4 value ++ drop 56 mem))
  unfolding int_datagram
  parse_topic-int sign value mem h l =
      parse_topic_lem (topic ++ 0 ∷ sign ∷ word_bytes 4 (swap32 value)) mem 56
        (length-int_datagram sign value) (omega arith)
      ∙ rw
          (
            append_assoc topic (0 ∷ sign ∷ word_bytes 4 (swap32 value)) (drop 56 mem),
            drop_topic 0 (0 ∷ sign ∷ (word_bytes 4 (swap32 value) ++ drop 56 mem)),
          )
          (ap ok (int_host sign value (drop 56 mem) h))

  value_to_string-int :
      (d : Doubles) (sign value : ℕ) (rest str : List ℕ)
      → value < 2 ^ 32
      → parse_topic_value_to_string d (topic ++ 0 ∷ sign ∷ (word_bytes 4 value ++ rest)) str
        ≡ snprintf str 12 (signed_string (not (sign == 0)) value)
  unfolding parse_topic_value_to_string
  value_to_string-int d sign value rest str h =
      rw
        (
          drop_topic 0 (0 ∷ sign ∷ (word_bytes 4 value ++ rest)),
          drop_topic 1 (0 ∷ sign ∷ (word_bytes 4 value ++ rest)),
          drop_topic 2 (0 ∷ sign ∷ (word_bytes 4 value ++ rest)),
          bytes_word-word_bytes_four value h,
        )
        refl

  -- A datagram of INT data, of a topic of 50 bytes, a sign and the four bytes of a value, highest
  -- first: `parse_topic` into a `topic_data`, whatever it holds, and `parse_topic_value_to_string`
  -- into 12 bytes or more make no access out of bounds and leave the very text that
  -- `parse_subscriber_news` gives as the value, when the server has forwarded the datagram.
  pub value_to_string-agrees :
      (d : Doubles) (m : Memory) (saddr : SockAddr) (news : News) (sign value : ℕ)
      (mem str tail : List ℕ)
      → length saddr.sin_addr ≡ 4
      → value < 2 ^ 32
      → length mem ≡ topic_data_size
      → 12 ≤ length str
      → let datagram = topic ++ 0 ∷ sign ∷ word_bytes 4 (swap32 value) in
        (packet : List ℕ) × (get_sendable_news m datagram saddr ≡ ok packet)
        × (shown : News) × (parse_subscriber_news d (packet ++ tail) (length packet) news
            ≡ ok shown)
        × (host : List ℕ) × (parse_topic datagram 56 mem ≡ ok host)
        × (str' : List ℕ) × (parse_topic_value_to_string d host str ≡ ok str')
        × (c_str str' ≡ ok shown.value)
  value_to_string-agrees d m saddr news sign value mem str tail four h l s =
      let (packet, sent, shows) = parse-int d m saddr topic news four fifty sign value tail h in
      let negative = not (sign == 0) in
      let l11 = signed_string_bound negative value h in
      let text = signed_string negative value in
      let (str', wrote, reads) =
        snprintf_lem str text 12 (omega arith) s (signed_string-IsText negative value) in
      (
        packet,
        sent,
        _,
        shows,
        _,
        parse_topic-int sign value mem h l,
        str',
        value_to_string-int d sign value (drop 56 mem) str h ∙ wrote,
        reads ∙ ap ok (take_all 11 text l11),
      )
