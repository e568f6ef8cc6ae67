-- ===== src/Topic/Errors.antt =====
-- What `parse_topic` and `parse_topic_value_to_string` make of SHORT_REAL and STRING data.
use tema2_pc_client_server_t.Base.{
  ℕ, zero, suc, ◌+◌, ◌-◌, ◌*◌, ◌%◌, ◌≤◌, ◌<◌, ◌≡◌, refl, sym, ap, ◌∙◌, List, [], ◌∷◌, ◌++◌,
  append_assoc, arith, length, take, drop, length-append, drop-append, ok, lt→ltb,
}
use tema2_pc_client_server_t.Base.Words.{
  sub64, word_bytes, bytes_word, swap16, write_at, write_at_next,
}
use tema2_pc_client_server_t.Base.CString.{IsText, nuls, length-nuls, nuls_pos, c_str, c_str_text}
use tema2_pc_client_server_t.App.Display.{Doubles}
use tema2_pc_client_server_t.Topic.{
  topic_data_size, char_at, to_host, short_in, size_of, parse_topic, snprintf,
  parse_topic_value_to_string,
}
use tema2_pc_client_server_t.Topic.Agrees.{parse_topic_lem, drop_topic, snprintf_lem}

nuls_add : (n k : ℕ) → nuls (n + k) ≡ nuls n ++ nuls k
nuls_add zero k = let e : zero + k ≡ k = omega arith in rw e refl
nuls_add (suc n) k = let e : suc n + k ≡ suc (n + k) = omega arith in rw (e, nuls_add n k) refl

-- The zeros behind a text of `n` bytes, and the `char` of zero behind them.
drop-nuls : (n : ℕ) → n ≤ 1500 → drop (51 + n) (nuls 1553) ≡ nuls (1501 - n) ++ 0 ∷ []
drop-nuls n h =
    let e : 1553 ≡ (51 + n) + ((1501 - n) + 1) = omega arith in
    ap (λ (k : ℕ). drop (51 + n) (nuls k)) e
    ∙ rw (nuls_add (51 + n) ((1501 - n) + 1), nuls_add (1501 - n) 1)
        (drop-append (51 + n) (nuls (51 + n)) _ (length-nuls (51 + n)))

module _ (topic : List ℕ) (fifty : length topic ≡ 50) where
  -- A datagram of SHORT_REAL data, of a topic of 50 bytes and the two bytes of a value, highest
  -- first: the value that `parse_topic` leaves is read one byte further on, from the low byte of
  -- the value and a byte `x` that the object held before, and this is the value that
  -- `parse_topic_value_to_string` writes.
  pub parse_topic-short :
      (d : Doubles) (high low x : ℕ) (mem str : List ℕ)
      → low < 256
      → x < 256
      → length mem ≡ topic_data_size
      → (rest : List ℕ) × (drop 53 mem ≡ x ∷ rest)
      → (host : List ℕ) × (parse_topic (topic ++ 1 ∷ high ∷ low ∷ []) 53 mem ≡ ok host)
        × (short_in host ≡ 256 * low + x)
        × (parse_topic_value_to_string d host str
            ≡ snprintf str 7 (d.write_fixed 6 (d.over (d.of_nat (256 * low + x)) (d.of_nat 100))))
  unfolding to_host parse_topic_value_to_string
  parse_topic-short d high low x mem str hl hx l (rest, e) =
      let swapped : swap16 (bytes_word (low ∷ x ∷ [])) ≡ 256 * low + x =
        unfold swap16 in omega arith in
      let got : bytes_word (word_bytes 2 (256 * low + x)) ≡ 256 * low + x = omega arith in
      let ran =
        parse_topic_lem (topic ++ 1 ∷ high ∷ low ∷ []) mem 53
          (omega (arith, length-append topic (1 ∷ high ∷ low ∷ []))) (omega arith) in
      let next =
        write_at_next 52 (topic ++ 1 ∷ high ∷ []) (low ∷ x ∷ rest) (word_bytes 2 (256 * low + x))
          (omega (arith, length-append topic (1 ∷ high ∷ []))) in
      let host = topic ++ 1 ∷ high ∷ (word_bytes 2 (256 * low + x) ++ rest) in
      (
        host,
        ran
            ∙ rw
                (
                  append_assoc topic (1 ∷ high ∷ low ∷ []) (drop 53 mem),
                  e,
                  drop_topic topic fifty 0 (1 ∷ high ∷ low ∷ x ∷ rest),
                  drop_topic topic fifty 2 (1 ∷ high ∷ low ∷ x ∷ rest),
                  swapped,
                )
                (ap ok (
                  ap (λ m. write_at m 52 (word_bytes 2 (256 * low + x)))
                    (sym (append_assoc topic (1 ∷ high ∷ []) (low ∷ x ∷ rest)))
                  ∙ next
                  ∙ append_assoc topic (1 ∷ high ∷ []) (word_bytes 2 (256 * low + x) ++ rest))),
        rw (drop_topic topic fifty 2 (1 ∷ high ∷ (word_bytes 2 (256 * low + x) ++ rest))) got,
        rw
            (
              drop_topic topic fifty 0 (1 ∷ high ∷ (word_bytes 2 (256 * low + x) ++ rest)),
              drop_topic topic fifty 2 (1 ∷ high ∷ (word_bytes 2 (256 * low + x) ++ rest)),
              got,
            )
            refl,
      )

  -- STRING data, into an object of zeros: of a text of `n` bytes, at most 1500, with 0 < n % 256 <
  -- 128, the first n % 256 - 1 bytes are written; that is all but the last of a text of less than
  -- 128 bytes.
  pub parse_topic-string :
      (d : Doubles) (text str : List ℕ)
      → IsText text
      → length text ≤ 1500
      → 0 < length text % 256
      → length text % 256 < 128
      → length text % 256 ≤ length str
      → (host : List ℕ) × (parse_topic (topic ++ 3 ∷ text) (51 + length text) (nuls topic_data_size)
          ≡ ok host)
        × (str' : List ℕ) × (parse_topic_value_to_string d host str ≡ ok str')
        × (c_str str' ≡ ok (take (length text % 256 - 1) text))
  unfolding to_host parse_topic_value_to_string
  parse_topic-string d text str t l p q fits =
      let n = length text in
      let front = topic ++ 3 ∷ (text ++ nuls (1501 - n)) in
      let long : length front ≡ 1552 = omega (
        arith,
        length-append topic (3 ∷ (text ++ nuls (1501 - n))),
        length-append text (nuls (1501 - n)),
        length-nuls (1501 - n),
      ) in
      let ran =
        parse_topic_lem (topic ++ 3 ∷ text) (nuls topic_data_size) (51 + n)
          (omega (arith, length-append topic (3 ∷ text)))
          (omega (arith, length-nuls topic_data_size)) in
      let next = write_at_next 1552 front (0 ∷ []) (n % 256 ∷ []) long in
      let behind = nuls (1501 - n) ++ n % 256 ∷ [] in
      let host = topic ++ 3 ∷ (text ++ behind) in
      let whole : front ++ n % 256 ∷ [] ≡ host =
        rw
          (
            append_assoc topic (3 ∷ (text ++ nuls (1501 - n))) (n % 256 ∷ []),
            append_assoc text (nuls (1501 - n)) (n % 256 ∷ []),
          )
          refl in
      let size : size_of host ≡ n % 256 =
        ap size_of (sym whole)
        ∙ rw (drop-append 1552 front (n % 256 ∷ []) long, lt→ltb (n % 256) 128 q) refl in
      let filled : (topic ++ 3 ∷ text) ++ drop (51 + n) (nuls topic_data_size) ≡ front ++ 0 ∷ [] =
        ap (λ z. (topic ++ 3 ∷ text) ++ z) (drop-nuls n l)
        ∙ rw
            (
              append_assoc topic (3 ∷ text) (nuls (1501 - n) ++ 0 ∷ []),
              append_assoc topic (3 ∷ (text ++ nuls (1501 - n))) (0 ∷ []),
              append_assoc text (nuls (1501 - n)) (0 ∷ []),
            )
            refl in
      let kind : char_at 50 (front ++ 0 ∷ []) ≡ 3 =
        rw
          (
            append_assoc topic (3 ∷ (text ++ nuls (1501 - n))) (0 ∷ []),
            drop_topic topic fifty 0 (3 ∷ ((text ++ nuls (1501 - n)) ++ 0 ∷ [])),
          )
          refl in
      let stored : sub64 (sub64 (51 + n) 50) 1 ≡ n = unfold sub64 in omega arith in
      let (str', wrote, reads) = snprintf_lem str text (n % 256) p fits t in
      (
        host,
        ran
            ∙ ap (λ f. ok (to_host (char_at 50 f) (51 + n) f)) filled
            ∙ rw (kind, stored, next) (ap ok whole),
        str',
        rw
            (
              drop_topic topic fifty 0 (3 ∷ (text ++ behind)),
              drop_topic topic fifty 1 (3 ∷ (text ++ behind)),
              size,
              nuls_pos (1501 - n) (omega arith),
              c_str_text text ((nuls (1501 - n - 1)) ++ n % 256 ∷ []) t,
            )
            wrote,
        reads,
      )
