-- ===== src/App/Tests.antt =====
-- Runs of the packets' functions.
use tema2_pc_client_server_t.Base.{
  ℕ, ◌<◌, ◌*◌, ◌/◌, true, ◌≡◌, refl, List, [], ◌∷◌, ◌++◌, arith, length, replicate, ok, ◌>>=◌,
}
use tema2_pc_client_server_t.Base.Words.{swap16, memcpy, write_at}
use tema2_pc_client_server_t.Base.CString.{IsText, c_str}
use tema2_pc_client_server_t.Framing.Tests.{zeroed}
use tema2_pc_client_server_t.App.News.{SockAddr, get_sendable_news, get_news_topic}
use tema2_pc_client_server_t.App.Display.{
  Doubles, News, digits, to_string, signed_string, parse_subscriber_news,
}
use tema2_pc_client_server_t.App.Values.{encoded, float, shown_as, parse-shown_as}
use tema2_pc_client_server_t.App.Topics.{get_news_topic_full}

-- 127.0.0.1, port 8080
abbrev pub sender : SockAddr
sender = record { sin_addr = 127 ∷ 0 ∷ 0 ∷ 1 ∷ []; sin_port = swap16 8080 }

abbrev pub long_topic : List ℕ
long_topic = replicate 50 65

long_topic-IsText : IsText long_topic
long_topic-IsText = ground arith

full_read :
    (get_sendable_news zeroed (long_topic ++ 2 ∷ 51 ∷ 0 ∷ []) sender >>= get_news_topic)
    ≡ ok (long_topic ++ 2 ∷ 51 ∷ [])
unfolding get_sendable_news get_news_topic memcpy write_at swap16 c_str
full_read = refl

get_news_topic_full_example : 50 < length (long_topic ++ 2 ∷ 51 ∷ [])
get_news_topic_full_example =
    get_news_topic_full zeroed long_topic (51 ∷ 0 ∷ []) (long_topic ++ 2 ∷ 51 ∷ []) 2 sender refl
      long_topic-IsText refl (omega arith) full_read

-- Numbers that are rounded down, in the place of doubles.
abbrev pub no_doubles : Doubles
no_doubles = record {
  Double = ℕ;
  of_nat = λ n. n;
  minus_one = 0;
  times = λ x y. x * y;
  over = λ x y. x / y;
  write_fixed = λ n x. to_string x;
  write = λ n x. to_string x;
}

abbrev pub no_news : News
no_news = record { addr = []; port = []; topic = []; data_type = []; value = [] }

shown_int : signed_string true 1205 ≡ b'-' ∷ b'1' ∷ b'2' ∷ b'0' ∷ b'5' ∷ []
unfolding digits
shown_int = refl

parse-shown_as_example :
    (packet : List ℕ) × (get_sendable_news zeroed (long_topic ++ encoded (float 1 1205 3)) sender
      ≡ ok packet)
    × (parse_subscriber_news no_doubles (packet ++ 0 ∷ []) (length packet) no_news
        ≡ ok (shown_as no_doubles sender long_topic (float 1 1205 3) no_news))
parse-shown_as_example =
    parse-shown_as no_doubles zeroed sender long_topic (float 1 1205 3) no_news (0 ∷ []) refl refl
      (omega arith)
