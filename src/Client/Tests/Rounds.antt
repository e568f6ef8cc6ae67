-- ===== src/Client/Tests/Rounds.antt =====
-- A client that is admitted, and types an empty line and then a long one.
use tema2_pc_client_server_t.Base.{
  ◌≡◌, ◌++◌, List, ℕ, refl, true, false, some, [], ◌∷◌, replicate, ok, arith,
}
use tema2_pc_client_server_t.Base.Int.{pos, minus_one, eqb}
use tema2_pc_client_server_t.Base.Map.{int_key, lookup, insert}
use tema2_pc_client_server_t.Base.Words.{memcpy, write_at, sub32, sub64, swap32}
use tema2_pc_client_server_t.Base.CString.{IsText, strncpy, c_str}
use tema2_pc_client_server_t.App.{generate_tcp_auth_packet, get_tcp_packet_type}
use tema2_pc_client_server_t.Multi
use tema2_pc_client_server_t.Framing
use tema2_pc_client_server_t.Framing.{failed, chunk}
use tema2_pc_client_server_t.Framing.Tests.{zeroed}
use tema2_pc_client_server_t.Multi.{
  Address, MultiSocket, Ready, sock_tcp, sock_null, fd_unbuffered, fd_set,
}
use tema2_pc_client_server_t.Client.Main.{
  Client, Turn, sends, join, greet, await, admission, client_send, handle_fd, on_typed, type_line,
}
use tema2_pc_client_server_t.Client.Rounds.{here, waits, handles, Works-IsSafely}
use tema2_pc_client_server_t.Client.Bounded.{IsSafely}
use tema2_pc_client_server_t.Client.Words.{IsBlank}
use tema2_pc_client_server_t.Client.{subscribe_name}
use tema2_pc_client_server_t.App.Tests.{no_doubles}
use tema2_pc_client_server_t.Multi.Scan.{AllBytes}
use tema2_pc_client_server_t.Server.Deliveries.{frame}

-- On the descriptor 4 comes a packet of one byte, TYPE_AUTH.
abbrev welcome : Ready
welcome = record { selected = λ x. eqb (pos 4) x; arrives = λ x. chunk (0 ∷ 0 ∷ 0 ∷ 1 ∷ 1 ∷ []) }

abbrev greeting : Turn
greeting = record { memory = zeroed; typed = []; answers = some welcome ∷ []; sent = pos 16 }

-- 127.0.0.1, on the port 8080.
abbrev server : Address
server = record { s_addr = 16777343; sin_port = 36895 }

abbrev admitted : Client
admitted = record {
  multi = record {
    serv_addr = server;
    sockfd_udp = minus_one;
    sockfd_tcp = minus_one;
    curr_sockfd = pos 4;
    read_fds = fd_set (pos 0) (fd_set (pos 4) (λ x. false));
    fdmax = pos 4;
    current_fd_type = sock_tcp;
    sock_queue = record { fd = pos 4; kind = sock_tcp } ∷ [];
    tcp_sockets =
        (
          pos 4,
          record {
            sockfd = pos 4;
            current_buffer = 1 ∷ [];
            expected_size = 0;
            buffer_size = 1;
            size_read = false;
            read_size_index = 0;
            packet_queue = [];
          },
        )
        ∷ [];
  };
  sockfd_tcp = pos 4;
  buffer = 1 ∷ 65 ∷ replicate 2046 0;
  type = 0;
  topic = replicate 50 0;
  news = record { addr = []; port = []; topic = replicate 51 0; data_type = []; value = [] };
  log = sends (pos 4) (frame (1 ∷ 65 ∷ replicate 10 0)) ∷ [];
}

joined : join greeting zeroed (pos 4) (λ a. true) server (65 ∷ 0 ∷ []) ≡ ok (some admitted)
unfolding join greet await admission client_send Multi.connect generate_tcp_auth_packet memcpy
    strncpy write_at Multi.send lookup insert Multi.new_multi Framing.send Multi.select
    Multi.scan_fd Framing.recv Framing.read Framing.read_loop Framing.read_current_packet
    Framing.new_socket get_tcp_packet_type sub32 sub64 swap32 Framing.after_size Framing.copy_body
    Framing.packet_complete Framing.packet_ready Framing.read_size Framing.recv_answer Framing.reset
    Framing.size_complete Framing.size_to_copy Framing.write_front Framing.write_packet Multi.add_fd
    Multi.classify Multi.get_next_fd Multi.has_packet Multi.recv Multi.scan Multi.scan_from
    Multi.skim
joined = refl

welcome-AllBytes : AllBytes welcome
welcome-AllBytes fd = (omega arith, (omega arith, (omega arith, (omega arith, (omega arith, tt)))))

-- The queue is drained, and then there is something on standard input.
abbrev idle : Client
idle = record admitted {
  multi = record admitted.multi {
    curr_sockfd = minus_one;
    current_fd_type = sock_null;
    sock_queue = [];
  };
}

abbrev at_keyboard : Client
at_keyboard = record idle {
  multi = record idle.multi { curr_sockfd = pos 0; current_fd_type = fd_unbuffered };
}

abbrev types_empty : Turn
types_empty = record {
  memory = zeroed;
  typed = 10 ∷ [];
  answers = some (record { selected = λ x. eqb (pos 0) x; arrives = λ x. failed }) ∷ [];
  sent = pos 16;
}

drains : await types_empty admitted ≡ ok (minus_one, idle)
unfolding await Multi.select Multi.get_next_fd Multi.skim Multi.has_packet Framing.packet_ready
    lookup
drains = refl

asks_keyboard : await types_empty idle ≡ ok (pos 0, at_keyboard)
unfolding await Multi.select Multi.get_next_fd Multi.scan Multi.scan_from Multi.scan_fd Multi.skim
    lookup
asks_keyboard = refl

abbrev blank : Client
blank = record at_keyboard { buffer = replicate 2048 0 }

reads_blank : handle_fd no_doubles types_empty (pos 0) at_keyboard ≡ ok (some (pos 0), blank)
unfolding handle_fd on_typed type_line memcpy write_at c_str
reads_blank = refl

-- A topic of 60 bytes.
abbrev long_line : List ℕ
long_line = subscribe_name ++ 32 ∷ (replicate 60 65 ++ 32 ∷ 49 ∷ [])

long_line-IsText : IsText long_line
long_line-IsText = ground arith

not-IsBlank : ¬ IsBlank long_line
not-IsBlank (h, hs) = cc

abbrev types_long : Turn
types_long = record types_empty { typed = long_line ++ 10 ∷ [] }

Works-IsSafely_example : IsSafely types_long blank (handle_fd no_doubles types_long (pos 0) blank)
Works-IsSafely_example =
    Works-IsSafely no_doubles greeting zeroed (pos 4) (λ a. true) server (65 ∷ 0 ∷ []) minus_one
      (pos 0) admitted blank types_long long_line (welcome-AllBytes, tt) joined
      (handles types_empty
        (waits types_empty (waits types_empty here refl ((λ fd. tt), tt) drains) refl
          ((λ fd. tt), tt) asks_keyboard)
        refl reads_blank)
      refl long_line-IsText not-IsBlank (omega arith)
