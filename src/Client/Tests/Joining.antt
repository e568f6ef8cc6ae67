-- ===== src/Client/Tests/Joining.antt =====
-- Runs of the client's start.
use tema2_pc_client_server_t.Base.{
  ℕ, ◌%◌, ◌^◌, ◌&&◌, ◌≡◌, refl, true, false, none, some, List, [], ◌∷◌, arith, take, replicate, ok,
  die, ◌>>=◌, ◌==◌, if◌then◌else◌,
}
use tema2_pc_client_server_t.Base.Int.{pos}
use tema2_pc_client_server_t.Base.Map.{int_key, lookup, insert}
use tema2_pc_client_server_t.Base.Words.{swap16}
use tema2_pc_client_server_t.Base.Argv.{runs}
use tema2_pc_client_server_t.Framing.{Socket}
use tema2_pc_client_server_t.Framing.Tests.{zeroed, empty_socket}
use tema2_pc_client_server_t.Framing.Valid.{IsValid}
use tema2_pc_client_server_t.Multi.{Address, MultiSocket, new_multi}
use tema2_pc_client_server_t.Multi.Invariant.{IsSound, replace-IsSound}
use tema2_pc_client_server_t.Multi.Tests.{one, one-IsSound}
use tema2_pc_client_server_t.App.{type_auth}
use tema2_pc_client_server_t.App.Display.{to_string}
use tema2_pc_client_server_t.App.Tests.{no_doubles, no_news}
use tema2_pc_client_server_t.Server.Commands.{authenticate, process_tcp_client_packet}
use tema2_pc_client_server_t.Server.Deliveries.{frame}
use tema2_pc_client_server_t.Client.Main.{Client, Turn, sends, greet, await, admission}
use tema2_pc_client_server_t.Client.Entry.{Connection, go_on, client_main}
use tema2_pc_client_server_t.Client.Joining.{greet-authenticates, admission-answer, client_main-id}
use tema2_pc_client_server_t.Client.Tests.{nobody}
use tema2_pc_client_server_t.Client.Tests.Typed.{connection}

-- 127.0.0.1, on the port 8080.
abbrev server : Address
server = record { s_addr = 16777343; sin_port = 36895 }

abbrev turn : Turn
turn = record { memory = zeroed; typed = []; answers = []; sent = pos 16 }

greet-authenticates_example :
    (c : Client) × (packet : List ℕ) × (greet turn zeroed (pos 4) (λ a. true) server (65 ∷ 0 ∷ [])
      ≡ ok c)
    × (c.multi.serv_addr ≡ server)
    × (c.log ≡ sends (pos 4) (frame (take 12 packet)) ∷ [])
    × (process_tcp_client_packet zeroed (pos 5) packet 12 nobody
        ≡ ok (authenticate (pos 5) (65 ∷ []) nobody))
greet-authenticates_example =
    greet-authenticates turn zeroed (pos 4) (λ a. true) server (65 ∷ []) [] zeroed (pos 5) nobody
      (omega arith, tt) (omega arith) refl refl refl

-- Only the server can be connected to.
abbrev reached : Connection
reached = record {
  aton = λ text. some server.s_addr;
  fd = pos 4;
  done = λ a. a.s_addr == server.s_addr && a.sin_port == server.sin_port;
  turn = turn;
}

client_main-id_example :
    (c : Client) × (packet : List ℕ) × (client_main no_doubles
        ((b'c' ∷ []) ∷ (65 ∷ []) ∷ [] ∷ to_string 8080 ∷ [])
        reached
        zeroed
        []
      ≡ (if reached.done (record { s_addr = server.s_addr; sin_port = swap16 (8080 % 2 ^ 16) })
          then ((await turn c >>= λ (next, c'). admission c') >>= λ joined.
              go_on no_doubles [] joined >>= λ left. ok (runs left))
          else die))
    × (c.log ≡ sends (pos 4) (frame (take 12 packet)) ∷ [])
    × (process_tcp_client_packet zeroed (pos 5) packet 12 nobody
        ≡ ok (authenticate (pos 5) (65 ∷ []) nobody))
client_main-id_example =
    client_main-id no_doubles (b'c' ∷ []) (65 ∷ []) [] 8080 server.s_addr [] reached zeroed []
      zeroed (pos 5) nobody refl (omega arith) (omega arith, tt) (omega arith) refl refl

-- A socket that has got a packet of 12 bytes.
abbrev answer : List ℕ
answer = 1 ∷ 65 ∷ replicate 10 0

abbrev answered : Socket
answered = record {
  sockfd = pos 4;
  current_buffer = answer;
  expected_size = 0;
  buffer_size = 12;
  size_read = false;
  read_size_index = 0;
  packet_queue = record { size = 12; memory = answer } ∷ [];
}

answered-IsValid : IsValid answered
answered-IsValid = record { progress = omega arith; whole = (refl, tt) }

abbrev has_answer : MultiSocket
has_answer = record one {
  curr_sockfd = pos 4;
  tcp_sockets = insert (pos 4) answered one.tcp_sockets;
}

abbrev waits : Client
waits = record {
  multi = has_answer;
  sockfd_tcp = pos 4;
  buffer = replicate 20 7;
  type = 0;
  topic = replicate 50 9;
  news = no_news;
  log = [];
}

has_answer-IsSound : IsSound has_answer
has_answer-IsSound =
    replace-IsSound (record one { curr_sockfd = pos 4 }) one-IsSound (pos 4) empty_socket answered
      connection answered-IsValid

answer_there : lookup (pos 4) has_answer.tcp_sockets ≡ some answered
unfolding lookup insert new_multi
answer_there = refl

admission-answer_example :
    (c' : Client) × (admission waits ≡ ok (if 1 == type_auth then some c' else none))
    × (c'.multi.read_fds (pos 0) ≡ true)
    × (c'.log ≡ waits.log)
    × (c'.sockfd_tcp ≡ waits.sockfd_tcp)
admission-answer_example =
    admission-answer waits 1 (65 ∷ replicate 10 0) [] answered has_answer-IsSound answer_there refl
      (omega arith)
