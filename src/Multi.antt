-- ===== src/Multi.antt =====
-- MultiSocket.cpp and MultiSocket.h: the sockets that a program listens on, and the queue of those
-- that have something for it. `fd_set` is its membership test. What system calls answer is an
-- argument: the set and the bytes of `select` and `recv`, the descriptor of `socket` and `accept`.
pub mod Invariant
pub mod Scan
pub mod Queued
pub mod Kinds
pub mod Next
pub mod Reach
pub mod Waiting
pub mod Tests
use tema2_pc_client_server_t.Base.{
  ℕ, zero, suc, ◌+◌, ◌≡◌, Bool, true, false, ◌&&◌, ◌||◌, not, Option, none, some, List, [], ◌∷◌,
  ◌++◌, Outcome, ok, die, out_of_fuel, ◌>>=◌, ◌==◌, if◌then◌else◌,
}
use tema2_pc_client_server_t.Base.Int.{ℤ, pos, negsuc, minus_one, eqb, is_neg, is_le_zero}
use tema2_pc_client_server_t.Base.Int
use tema2_pc_client_server_t.Base.Argv.{htons}
use tema2_pc_client_server_t.Base.Map.{Map, int_key, lookup, insert, erase, contains}
use tema2_pc_client_server_t.Framing
use tema2_pc_client_server_t.Framing.{Memory, Socket, Code, Received, is_too_big, new_socket}

-- The macros of MultiSocket.h.
abbrev pub sock_null : ℕ
sock_null = 0

abbrev pub sock_close : ℕ
sock_close = 16

abbrev pub sock_tcp : ℕ
sock_tcp = 32

abbrev pub sock_udp : ℕ
sock_udp = 64

abbrev pub sock_connect : ℕ
sock_connect = 256

abbrev pub fd_unbuffered : ℕ
fd_unbuffered = 512

-- `recv_holder`
pub record Holder : Type 0 where
  pub fd : ℤ
  pub kind : ℕ

-- What `serv_addr` holds, as `bind` and `connect` get it.
pub record Address : Type 0 where
  pub s_addr : ℕ
  pub sin_port : ℕ

pub record MultiSocket : Type 0 where
  pub serv_addr : Address
  pub sockfd_udp : ℤ
  pub sockfd_tcp : ℤ
  pub curr_sockfd : ℤ
  pub read_fds : ℤ → Bool
  pub fdmax : ℤ
  pub current_fd_type : ℕ
  pub sock_queue : List Holder
  pub tcp_sockets : Map ℤ Socket

-- `FD_SET` and `FD_CLR`, on descriptors below `FD_SETSIZE`: on others they are undefined.
abbrev pub fd_set : ℤ → (ℤ → Bool) → ℤ → Bool
fd_set fd fds x = if eqb fd x then true else fds x

abbrev pub fd_clr : ℤ → (ℤ → Bool) → ℤ → Bool
fd_clr fd fds x = if eqb fd x then false else fds x

-- `max_int`
abbrev pub max_int : ℤ → ℤ → ℤ
max_int a b = if Int.ltb b a then a else b

-- The constructor without a port.
unfoldable pub new_multi : MultiSocket
new_multi = record {
  serv_addr = record { s_addr = 0; sin_port = 0 };
  sockfd_udp = minus_one;
  sockfd_tcp = minus_one;
  curr_sockfd = negsuc 1;
  read_fds = λ x. false;
  fdmax = minus_one;
  current_fd_type = sock_null;
  sock_queue = [];
  tcp_sockets = [];
}

-- `MultiSocket(int port)`; `INADDR_ANY` is 0.
unfoldable pub multi_on : ℤ → MultiSocket
unfolding new_multi htons
multi_on port = record new_multi { serv_addr = record { s_addr = 0; sin_port = htons port } }

-- `enable_udp` and `enable_tcp_connections`, with the descriptor that `socket` returns; `bound`
-- says whether the calls that follow (`bind`, `listen`, `setsockopt`) succeed for an address. The
-- latter tests `sockfd_udp` where it means the descriptor that it just got.
unfoldable pub enable_udp : ℤ → (Address → Bool) → MultiSocket → Outcome MultiSocket
enable_udp fd bound m =
    if is_neg fd || not (bound m.serv_addr)
    then die
    else ok
        (record m { sockfd_udp = fd; read_fds = fd_set fd m.read_fds; fdmax = max_int m.fdmax fd })

unfoldable pub enable_tcp_connections : ℤ → (Address → Bool) → MultiSocket → Outcome MultiSocket
enable_tcp_connections fd bound m =
    if is_neg m.sockfd_udp || not (bound m.serv_addr)
    then die
    else ok
        (record m { sockfd_tcp = fd; read_fds = fd_set fd m.read_fds; fdmax = max_int m.fdmax fd })

-- A new buffered socket, as `connect` and `accept` enter it.
abbrev pub enter : Memory → ℤ → MultiSocket → MultiSocket
enter mem fd m = record m {
  read_fds = fd_set fd m.read_fds;
  fdmax = max_int m.fdmax fd;
  tcp_sockets = insert fd (new_socket mem fd) m.tcp_sockets;
}

-- `connect`, with the descriptor of `socket` and whether the calls that follow succeed for an
-- address.
unfoldable pub connect : Memory → ℤ → (Address → Bool) → Address → MultiSocket → Outcome MultiSocket
connect mem fd done addr m =
    if is_neg fd || not (done addr) then die else ok (enter mem fd (record m { serv_addr = addr }))

-- `accept`, with the descriptor that it returns and whether `setsockopt` succeeds.

unfoldable pub accept : Memory → ℤ → Bool → MultiSocket → Outcome MultiSocket
accept mem fd done m = if is_neg fd || not done then die else ok (enter mem fd m)

unfoldable pub add_fd : ℤ → MultiSocket → MultiSocket
add_fd fd m = record m { read_fds = fd_set fd m.read_fds }

-- `close(int)`
unfoldable pub close : ℤ → MultiSocket → MultiSocket
close fd m = record m {
  read_fds = if m.read_fds fd then fd_clr fd m.read_fds else m.read_fds;
  tcp_sockets = erase fd m.tcp_sockets;
}

-- `close()`
unfoldable pub close_all : MultiSocket → MultiSocket
close_all m = record m { tcp_sockets = []; read_fds = λ x. false; fdmax = minus_one }

-- What one call of `select` brings: the descriptors, and what a `recv` on each then returns.
pub record Ready : Type 0 where
  pub selected : ℤ → Bool
  pub arrives : ℤ → Received

-- The branch of a buffered socket, behind its `recv`: the new `fd_type`. If the socket goes on and
-- has no whole packet, `fd_type` is not written.
unfoldable pub classify : ℤ → ℕ → MultiSocket → ℤ × Code × Socket → MultiSocket × ℕ
unfolding close
classify fd kind m (ret, out, s) =
    let m' = record m { tcp_sockets = insert fd s m.tcp_sockets } in
    if is_le_zero ret || is_too_big out
    then (close fd m', sock_close)
    else (m', if Framing.packet_ready s then sock_tcp else kind)

abbrev pub push : ℤ → MultiSocket × ℕ → MultiSocket × ℕ
push fd (m, kind) =
    (record m { sock_queue = m.sock_queue ++ record { fd = fd; kind = kind } ∷ [] }, kind)

-- The kind of a descriptor that is no buffered socket.
abbrev pub plain_kind : ℤ → MultiSocket → ℕ
plain_kind fd m =
    if eqb fd m.sockfd_tcp
    then sock_connect
    else if eqb fd m.sockfd_udp
    then sock_udp
    else fd_unbuffered

-- One round of the loop of `this_method_does_something_important_with_the_file_descriptors`, with
-- the value that `fd_type` has before it.
unfoldable pub scan_fd : Memory → Ready → ℤ → MultiSocket × ℕ → Outcome (MultiSocket × ℕ)
unfolding classify
scan_fd mem r fd (m, kind) = elim (r.selected fd) [
  | false ↦ ok (m, kind)
  | true ↦ elim (lookup fd m.tcp_sockets) [
    | none ↦ ok (push fd (m, plain_kind fd m))
    | some s ↦ do
      answer ← Framing.recv mem s (r.arrives fd)
      ok (push fd (classify fd kind m answer))
  ]
]

-- `n` rounds from the descriptor `fd` on.
unfoldable pub scan_from : ℕ → ℕ → Memory → Ready → MultiSocket × ℕ → Outcome (MultiSocket × ℕ)
scan_from zero fd mem r st = ok st
scan_from (suc n) fd mem r st = scan_fd mem r (pos fd) st >>= scan_from n (fd + 1) mem r

abbrev pub rounds : ℤ → ℕ
rounds (pos n) = n + 1
rounds (negsuc n) = 0

-- The whole loop; `fd_type` starts out with what the stack holds.
unfoldable pub scan : Memory → Ready → MultiSocket → Outcome MultiSocket
unfolding scan_from
scan mem r m = do (m', kind) ← scan_from (rounds m.fdmax) 0 mem r (m, mem.word); ok m'

-- `select`: `none` is a failure of the system call. It waits for as long as there is no answer.
unfoldable pub select : Memory → List (Option Ready) → MultiSocket → Outcome MultiSocket
unfolding scan
select mem [] m = elim m.sock_queue [ [] ↦ out_of_fuel | h ∷ q ↦ ok m ]
select mem (answer ∷ rest) m = elim m.sock_queue [
  | h ∷ q ↦ ok m
  | [] ↦ elim answer [ none ↦ die | some r ↦ (scan mem r m >>= select mem rest) ]
]

-- Whether a buffered socket has a whole packet.
unfoldable pub has_packet : ℤ → MultiSocket → Bool
has_packet fd m = elim (lookup fd m.tcp_sockets) [ none ↦ false | some s ↦ Framing.packet_ready s ]

-- The `while` loop of `get_next_fd`: what it leaves of the queue.
unfoldable pub skim : MultiSocket → List Holder → List Holder
skim m [] = []
skim m (h ∷ q) = let rest = skim m q in if not (has_packet h.fd m) then rest else h ∷ q

-- What `get_next_fd` stores and returns for the queue that is left.
abbrev pub no_fd : MultiSocket → ℤ × MultiSocket
no_fd m =
    (minus_one, record m { current_fd_type = sock_null; curr_sockfd = minus_one; sock_queue = [] })

abbrev pub at_fd : Holder → List Holder → MultiSocket → ℤ × MultiSocket
at_fd h q m = (h.fd, record m { current_fd_type = h.kind; curr_sockfd = h.fd; sock_queue = q })

abbrev pub after_skim : MultiSocket → List Holder → ℤ × MultiSocket
after_skim m [] = no_fd m
after_skim m (h ∷ q) = at_fd h (h ∷ q) m

abbrev pub next_in : MultiSocket → List Holder → ℤ × MultiSocket
next_in m [] = no_fd m
next_in m (h ∷ q) = if not (h.kind == sock_tcp) then at_fd h q m else after_skim m (skim m (h ∷ q))

unfoldable pub get_next_fd : MultiSocket → ℤ × MultiSocket
unfolding skim
get_next_fd m = next_in m m.sock_queue

abbrev pub is_tcp_connection : MultiSocket → Bool
is_tcp_connection m = m.current_fd_type == sock_connect

abbrev pub is_udp : MultiSocket → Bool
is_udp m = m.current_fd_type == sock_udp

abbrev pub has_closed : MultiSocket → Bool
has_closed m = m.current_fd_type == sock_close

-- `send`: the frame that goes to the descriptor, or none and -1 for one that is not buffered.
unfoldable pub send : ℤ → List ℕ → MultiSocket → Outcome (Option (List ℕ))
send fd buf m = elim (lookup fd m.tcp_sockets) [
  | none ↦ ok none
  | some s ↦ do frame ← Framing.send buf; ok (some frame)
]

abbrev pub received : MultiSocket → ℕ × List ℕ × Socket → Outcome (ℤ × Code × List ℕ × MultiSocket)
received m (n, bytes, s) =
    ok (pos n, Code.no_code, bytes, record m { tcp_sockets = insert m.curr_sockfd s m.tcp_sockets })

-- `recv`: the value returned, `*out`, the memory at `buf` and the new state. `len` is not looked at.
unfoldable pub recv : List ℕ → MultiSocket → Outcome (ℤ × Code × List ℕ × MultiSocket)
recv buf m = elim (lookup m.curr_sockfd m.tcp_sockets) [
  | none ↦ ok (minus_one, Code.unbuffered_socket, buf, m)
  | some s ↦ elim (Framing.packet_ready s) [
    | false ↦ ok (pos 0, Code.packet_not_ready, buf, m)
    | true ↦ Framing.write_packet s buf >>= received m
  ]
]
