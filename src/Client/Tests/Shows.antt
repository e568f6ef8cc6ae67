-- ===== src/Client/Tests/Shows.antt =====
-- A client with a packet of news.
use tema2_pc_client_server_t.Base.{ℕ, ◌≡◌, refl, false, some, List, [], ◌∷◌, ◌++◌, arith, ok}
use tema2_pc_client_server_t.Base.Int.{ℤ, pos}
use tema2_pc_client_server_t.Base.Map.{int_key, lookup, insert}
use tema2_pc_client_server_t.Base.Words.{word_bytes, swap16}
use tema2_pc_client_server_t.Framing.{Socket}
use tema2_pc_client_server_t.Framing.Tests.{zeroed, empty_socket}
use tema2_pc_client_server_t.Framing.Valid.{IsValid, view}
use tema2_pc_client_server_t.Multi.{MultiSocket, new_multi, sock_tcp, get_next_fd}
use tema2_pc_client_server_t.Multi.Invariant.{IsSound, replace-IsSound}
use tema2_pc_client_server_t.Multi.Tests.{one, one-IsSound}
use tema2_pc_client_server_t.App.News.{get_sendable_news}
use tema2_pc_client_server_t.App.Topics.{get_sendable_news_lem}
use tema2_pc_client_server_t.App.Values.{Value, int, encoded, shown_as}
use tema2_pc_client_server_t.App.Tests.{sender, long_topic, no_doubles}
use tema2_pc_client_server_t.Client.Main.{Client, shows, handle_fd}
use tema2_pc_client_server_t.Client.Shows.{handle_fd-shows}
use tema2_pc_client_server_t.Client.Tests.Typed.{user, types, connection}

abbrev value : Value
value = int 1 1205

abbrev packet : List ℕ
packet = sender.sin_addr ++ (word_bytes 2 (swap16 sender.sin_port) ++ (long_topic ++ encoded value))

sendable : get_sendable_news zeroed (long_topic ++ encoded value) sender ≡ ok packet
sendable = get_sendable_news_lem zeroed (long_topic ++ encoded value) sender refl

abbrev loaded : Socket
loaded = record {
  sockfd = pos 4;
  current_buffer = packet;
  expected_size = 0;
  buffer_size = 62;
  size_read = false;
  read_size_index = 0;
  packet_queue = record { size = 62; memory = packet } ∷ [];
}

loaded-IsValid : IsValid loaded
loaded-IsValid = record { progress = omega arith; whole = (refl, tt) }

abbrev has_news : MultiSocket
has_news = record one {
  curr_sockfd = pos 4;
  current_fd_type = sock_tcp;
  tcp_sockets = insert (pos 4) loaded one.tcp_sockets;
}

has_news-IsSound : IsSound has_news
has_news-IsSound =
    replace-IsSound (record one { curr_sockfd = pos 4; current_fd_type = sock_tcp }) one-IsSound
      (pos 4) empty_socket loaded connection loaded-IsValid

news_there : lookup (pos 4) has_news.tcp_sockets ≡ some loaded
unfolding lookup insert new_multi
news_there = refl

abbrev reader : Client
reader = record user { multi = has_news }

handle_fd-shows_example :
    (next : ℤ) × (c' : Client) × (m1 : MultiSocket) × (t : Socket) × (handle_fd no_doubles
        (types [])
        (pos 4)
        reader
      ≡ ok (some next, c'))
    × (c'.log ≡ [] ++ shows (shown_as no_doubles sender long_topic value reader.news) ∷ [])
    × ((next, c'.multi) ≡ get_next_fd m1)
    × (m1 ≡ record has_news { tcp_sockets = insert (pos 4) t has_news.tcp_sockets })
    × (view t ≡ record { pending = (view loaded).pending; packets = [] })
handle_fd-shows_example =
    handle_fd-shows no_doubles (types []) (pos 4) reader zeroed sender long_topic value packet []
      loaded refl refl (omega arith) sendable refl refl has_news-IsSound news_there refl
      (omega arith)
