-- ===== src/Topic/Tests.antt =====
-- Runs of `parse_topic` and `parse_topic_value_to_string`.
use tema2_pc_client_server_t.Base.{
  ℕ, ◌+◌, ◌-◌, ◌*◌, ◌%◌, ◌≡◌, refl, List, [], ◌∷◌, ◌++◌, arith, length, take, ok,
}
use tema2_pc_client_server_t.Base.Words.{word_bytes, swap32}
use tema2_pc_client_server_t.Base.CString.{nuls, length-nuls, c_str}
use tema2_pc_client_server_t.Framing.Tests.{zeroed}
use tema2_pc_client_server_t.App.News.{get_sendable_news}
use tema2_pc_client_server_t.App.Display.{News, parse_subscriber_news}
use tema2_pc_client_server_t.App.Tests.{sender, long_topic, no_doubles, no_news}
use tema2_pc_client_server_t.Topic.{
  topic_data_size, short_in, parse_topic, snprintf, parse_topic_value_to_string,
}
use tema2_pc_client_server_t.Topic.Agrees.{value_to_string-agrees}
use tema2_pc_client_server_t.Topic.Bounds.{limit_of, KeepsBehind, to_string-KeepsBehind}
use tema2_pc_client_server_t.Topic.Errors.{parse_topic-short, parse_topic-string}

abbrev zeros : List ℕ
zeros = nuls 1553

value_to_string-agrees_example :
    (packet : List ℕ) × (get_sendable_news zeroed
        (long_topic ++ 0 ∷ 1 ∷ word_bytes 4 (swap32 1205))
        sender
      ≡ ok packet)
    × (shown : News) × (parse_subscriber_news no_doubles (packet ++ 0 ∷ []) (length packet) no_news
        ≡ ok shown)
    × (host : List ℕ) × (parse_topic (long_topic ++ 0 ∷ 1 ∷ word_bytes 4 (swap32 1205)) 56 zeros
        ≡ ok host)
    × (str' : List ℕ) × (parse_topic_value_to_string no_doubles host (nuls 12) ≡ ok str')
    × (c_str str' ≡ ok shown.value)
value_to_string-agrees_example =
    value_to_string-agrees long_topic refl no_doubles zeroed sender no_news 1 1205 zeros (nuls 12)
      (0 ∷ []) refl (omega arith) (length-nuls topic_data_size) (omega arith)

abbrev int_memory : List ℕ
int_memory = long_topic ++ 0 ∷ 1 ∷ nuls 10

to_string-KeepsBehind_example :
    KeepsBehind
      (limit_of int_memory)
      (nuls 20)
      (parse_topic_value_to_string no_doubles int_memory (nuls 20))
to_string-KeepsBehind_example =
    to_string-KeepsBehind no_doubles int_memory (nuls 20) (λ e. absurd (omega (arith, e)))
      (unfold limit_of in omega arith)

parse_topic-short_example :
    (host : List ℕ) × (parse_topic (long_topic ++ 1 ∷ 2 ∷ 3 ∷ []) 53 zeros ≡ ok host)
    × (short_in host ≡ 256 * 3 + 0)
    × (parse_topic_value_to_string no_doubles host (nuls 7)
        ≡ snprintf (nuls 7) 7 (
            no_doubles.write_fixed 6
              (no_doubles.over (no_doubles.of_nat (256 * 3 + 0)) (no_doubles.of_nat 100))))
parse_topic-short_example =
    parse_topic-short long_topic refl no_doubles 2 3 0 zeros (nuls 7) (omega arith) (omega arith)
      (length-nuls topic_data_size) (nuls 1499, refl)

parse_topic-string_example :
    (host : List ℕ) × (parse_topic (long_topic ++ 3 ∷ 72 ∷ 105 ∷ []) (51 + 2) (nuls topic_data_size)
      ≡ ok host)
    × (str' : List ℕ) × (parse_topic_value_to_string no_doubles host (nuls 8) ≡ ok str')
    × (c_str str' ≡ ok (take (2 % 256 - 1) (72 ∷ 105 ∷ [])))
parse_topic-string_example =
    parse_topic-string long_topic refl no_doubles (72 ∷ 105 ∷ []) (nuls 8)
      (omega arith, (omega arith, tt)) (omega arith) (omega arith) (omega arith) (omega arith)
