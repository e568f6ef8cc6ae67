-- ===== src/App/Shown.antt =====
-- What the client shows of a datagram that the server has forwarded.
use tema2_pc_client_server_t.Base.{
  ℕ, ◌+◌, ◌^◌, ◌<◌, ◌≡◌, refl, ◌∙◌, not, List, [], ◌∷◌, ◌++◌, append_assoc, arith, length,
  length-append, take-append, drop-append, ok, ◌==◌,
}
use tema2_pc_client_server_t.Base.Words.{
  sub64, word_bytes, bytes_word, swap16, swap32, swap32-swap32, swap16-swap16,
}
use tema2_pc_client_server_t.Framing.{Memory}
use tema2_pc_client_server_t.App.News.{SockAddr, get_sendable_news}
use tema2_pc_client_server_t.App.Topics.{get_sendable_news_lem}
use tema2_pc_client_server_t.App.Display.{
  Doubles, News, read_bytes, inet_ntoa, to_string, signed_string, int_name, short_real_name,
  float_name, string_name, int_value, short_real_value, float_value, my_pow, sign_of, string_value,
  parse_value, parse_subscriber_news,
}

pub read_bytes_append :
    (n : ℕ) (xs ys : List ℕ) → length xs ≡ n → read_bytes n (xs ++ ys) ≡ ok (xs, ys)
unfolding read_bytes
read_bytes_append n xs ys h =
    ground (arith, length-append xs ys, take-append n xs ys h, drop-append n xs ys h)

pub bytes_word-word_bytes_two : (x : ℕ) → x < 2 ^ 16 → bytes_word (word_bytes 2 x) ≡ x
bytes_word-word_bytes_two x h = omega arith

pub bytes_word-word_bytes_four : (x : ℕ) → x < 2 ^ 32 → bytes_word (word_bytes 4 x) ≡ x
bytes_word-word_bytes_four x h = omega arith

swap16_bound : (x : ℕ) → swap16 x < 2 ^ 16
unfolding swap16
swap16_bound x = omega arith

pub swap32_bound : (x : ℕ) → swap32 x < 2 ^ 32
unfolding swap32
swap32_bound x = omega arith

-- The packet of a datagram [ topic | kind | body ].
abbrev packet_of : SockAddr → List ℕ → ℕ → List ℕ → List ℕ
packet_of saddr topic kind body =
    saddr.sin_addr ++ (word_bytes 2 (swap16 saddr.sin_port) ++ (topic ++ kind ∷ body))

-- What is shown whatever the data type.
abbrev pub with_source : SockAddr → List ℕ → News → News
with_source saddr topic news = record news {
  addr = inet_ntoa saddr.sin_addr;
  port = to_string (swap16 saddr.sin_port);
  topic = topic ++ 0 ∷ [];
}

module _ (d : Doubles) (m : Memory) (saddr : SockAddr) (topic : List ℕ) (news : News)
    (four : length saddr.sin_addr ≡ 4) (fifty : length topic ≡ 50) where
  parse_header :
      (kind : ℕ) (body tail : List ℕ) (size : ℕ)
      → parse_subscriber_news d (packet_of saddr topic kind body ++ tail) size news
        ≡ parse_value d kind
            (body ++ tail)
            (sub64 (sub64 (sub64 (sub64 size 4) 2) 50) 1)
            (with_source saddr topic news)
  unfolding parse_subscriber_news
  parse_header kind body tail size =
      rw
        (
          append_assoc saddr.sin_addr
              (word_bytes 2 (swap16 saddr.sin_port) ++ (topic ++ kind ∷ body)) tail,
          append_assoc topic (kind ∷ body) tail,
          read_bytes_append 4 saddr.sin_addr
              (word_bytes 2 (swap16 saddr.sin_port) ++ (topic ++ kind ∷ (body ++ tail))) four,
          read_bytes_append 2 (word_bytes 2 (swap16 saddr.sin_port))
              (topic ++ kind ∷ (body ++ tail)) refl,
          read_bytes_append 50 topic (kind ∷ (body ++ tail)) fifty,
          read_bytes_append 1 (kind ∷ []) (body ++ tail) refl,
          bytes_word-word_bytes_two (swap16 saddr.sin_port) (swap16_bound saddr.sin_port),
        )
        refl

  -- INT news: a datagram of a topic of 50 bytes, the data type 0, a sign and the four bytes of a
  -- value, highest first, is forwarded and then shown with its sender's address and port, the
  -- topic, and the value in decimal, with a minus sign if the sign is not 0 and the value is not 0.
  pub parse-int :
      (sign value : ℕ) (tail : List ℕ)
      → value < 2 ^ 32
      → (packet : List ℕ) × (get_sendable_news m
            (topic ++ 0 ∷ sign ∷ word_bytes 4 (swap32 value))
            saddr
          ≡ ok packet)
        × (parse_subscriber_news d (packet ++ tail) (length packet) news
            ≡ ok (record (with_source saddr topic news) {
              data_type = int_name;
              value = signed_string (not (sign == 0)) value;
            }))
  unfolding parse_value int_value
  parse-int sign value tail bound = (
    packet_of saddr topic 0 (sign ∷ word_bytes 4 (swap32 value)),
    get_sendable_news_lem m (topic ++ 0 ∷ sign ∷ word_bytes 4 (swap32 value)) saddr four,
    parse_header 0 (sign ∷ word_bytes 4 (swap32 value)) tail _
        ∙ rw
            (
              read_bytes_append 1 (sign ∷ []) (word_bytes 4 (swap32 value) ++ tail) refl,
              read_bytes_append 4 (word_bytes 4 (swap32 value)) tail refl,
              bytes_word-word_bytes_four (swap32 value) (swap32_bound value),
              swap32-swap32 value bound,
            )
            refl,
  )

  -- SHORT_REAL news: the two bytes of a value, highest first, are shown as a hundredth of it with two
  -- digits behind the point.
  pub parse-short :
      (value : ℕ) (tail : List ℕ)
      → value < 2 ^ 16
      → (packet : List ℕ) × (get_sendable_news m (topic ++ 1 ∷ word_bytes 2 (swap16 value)) saddr
          ≡ ok packet)
        × (parse_subscriber_news d (packet ++ tail) (length packet) news
            ≡ ok (record (with_source saddr topic news) {
              data_type = short_real_name;
              value = d.write_fixed 2 (d.over (d.of_nat value) (d.of_nat 100));
            }))
  unfolding parse_value short_real_value
  parse-short value tail bound = (
    packet_of saddr topic 1 (word_bytes 2 (swap16 value)),
    get_sendable_news_lem m (topic ++ 1 ∷ word_bytes 2 (swap16 value)) saddr four,
    parse_header 1 (word_bytes 2 (swap16 value)) tail _
        ∙ rw
            (
              read_bytes_append 2 (word_bytes 2 (swap16 value)) tail refl,
              bytes_word-word_bytes_two (swap16 value) (swap16_bound value),
              swap16-swap16 value bound,
            )
            refl,
  )

  -- FLOAT news: a sign, the four bytes of a value, highest first, and an exponent are shown as the
  -- value over a power of 10, below zero if the sign is not 0.
  pub parse-float :
      (sign value e : ℕ) (tail : List ℕ)
      → value < 2 ^ 32
      → (packet : List ℕ) × (get_sendable_news m
            (topic ++ 2 ∷ sign ∷ (word_bytes 4 (swap32 value) ++ e ∷ []))
            saddr
          ≡ ok packet)
        × (parse_subscriber_news d (packet ++ tail) (length packet) news
            ≡ ok (record (with_source saddr topic news) {
              data_type = float_name;
              value = d.write 10 (
                  d.times
                    (d.over (d.of_nat value) (my_pow d (d.of_nat 10) e))
                    (sign_of d (sign ∷ [])));
            }))
  unfolding parse_value float_value
  parse-float sign value e tail bound = (
    packet_of saddr topic 2 (sign ∷ (word_bytes 4 (swap32 value) ++ e ∷ [])),
    get_sendable_news_lem m (topic ++ 2 ∷ sign ∷ (word_bytes 4 (swap32 value) ++ e ∷ [])) saddr
        four,
    parse_header 2 (sign ∷ (word_bytes 4 (swap32 value) ++ e ∷ [])) tail _
        ∙ rw
            (
              read_bytes_append 1 (sign ∷ []) (word_bytes 4 (swap32 value) ++ e ∷ tail) refl,
              read_bytes_append 4 (word_bytes 4 (swap32 value)) (e ∷ tail) refl,
              read_bytes_append 1 (e ∷ []) tail refl,
              bytes_word-word_bytes_four (swap32 value) (swap32_bound value),
              swap32-swap32 value bound,
            )
            refl,
  )

  string_size :
      (text : List ℕ)
      → length text < 2 ^ 32
      → sub64 (sub64 (sub64 (sub64 (length (packet_of saddr topic 3 text)) 4) 2) 50) 1 ≡ length text
  string_size text l =
      let whole : length (packet_of saddr topic 3 text) ≡ 57 + length text = omega (
        arith,
        length-append saddr.sin_addr (word_bytes 2 (swap16 saddr.sin_port) ++ (topic ++ 3 ∷ text)),
        length-append topic (3 ∷ text),
      ) in
      rw whole (unfold sub64 in omega arith)

  -- STRING news: a datagram of a topic of 50 bytes, the data type 3 and a text of less than 2^32
  -- bytes is forwarded and then shown with its sender's address and port, the topic and the text,
  -- all bytes of it.
  pub parse-string :
      (text tail : List ℕ)
      → length text < 2 ^ 32
      → (packet : List ℕ) × (get_sendable_news m (topic ++ 3 ∷ text) saddr ≡ ok packet)
        × (parse_subscriber_news d (packet ++ tail) (length packet) news
            ≡ ok (record (with_source saddr topic news) { data_type = string_name; value = text }))
  unfolding parse_value string_value
  parse-string text tail l = (
    packet_of saddr topic 3 text,
    get_sendable_news_lem m (topic ++ 3 ∷ text) saddr four,
    parse_header 3 text tail _
        ∙ rw (string_size text l, read_bytes_append (length text) text tail refl) refl,
  )
