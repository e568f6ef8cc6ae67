-- ===== src/Server/Main.antt =====
-- `main` of server.cpp: the start, one round of its loop, and the loop. What a round gets from the
-- world is an argument; that includes what uninitialised memory holds.
use tema2_pc_client_server_t.Base.{
  ℕ, Bool, true, false, Option, List, [], ◌∷◌, ◌++◌, map, take, Outcome, ok, fault, out_of_fuel,
  ◌>>=◌, if◌then◌else◌,
}
use tema2_pc_client_server_t.Base.Int.{ℤ, pos, eqb, is_neg}
use tema2_pc_client_server_t.Base.Map.{Map, int_key, contains, same_text}
use tema2_pc_client_server_t.Framing.{Memory, Socket, Received, failed, chunk}
use tema2_pc_client_server_t.Multi.{
  MultiSocket, Address, Ready, multi_on, enable_udp, enable_tcp_connections, add_fd, accept,
  close_all, select, get_next_fd, is_udp, is_tcp_connection, has_closed,
}
use tema2_pc_client_server_t.App.News.{SockAddr, get_sendable_news}
use tema2_pc_client_server_t.Server.State.{World, SendAnswer, closes, Event}
use tema2_pc_client_server_t.Server.Delivery.{send_news_to_subscribers}
use tema2_pc_client_server_t.Server.Handler.{buflen_max, handle_tcp_app_recv, on_closed}

pub record Input : Type 0 where
  pub memory : Memory
  pub answers : List (Option Ready)
  pub line : List ℕ
  pub datagram : Received
  pub sender : SockAddr
  pub accepted : ℤ
  pub accept_done : Bool

-- The start on a port: the descriptors of the two sockets, and whether the calls on each succeed.
unfoldable pub start : ℤ → ℤ → (Address → Bool) → ℤ → (Address → Bool) → Outcome World
start portno udp udp_bound tcp tcp_bound = do
  m1 ← enable_udp udp udp_bound (multi_on portno)
  m2 ← enable_tcp_connections tcp tcp_bound m1
  ok (record {
    multi = add_fd (pos 0) m2;
    broker = record { topic_map = []; clients = []; ids_map = [] };
    log = [];
  })

-- "Get an available file descriptor or wait for one".
unfoldable pub await_fd : Input → MultiSocket → Outcome (ℤ × MultiSocket)
await_fd input m =
    let (fd, m') = get_next_fd m in
    if is_neg fd
    then (do ready ← select input.memory input.answers m'; ok (get_next_fd ready))
    else ok (fd, m')

-- The `strncmp(buffer, "exit", 4) == 0` on the line in the buffer.
abbrev pub is_exit : List ℕ → Bool
is_exit line = same_text (take 4 line) (b'e' ∷ b'x' ∷ b'i' ∷ b't' ∷ [])

-- A datagram, of which `recvfrom` keeps what fits the buffer. `buflen` is a `size_t`, so that
-- `DIE(buflen < 0, ...)` never dies: on a failure the packet gets 5 bytes, since the sum of the
-- sizes wraps, and is written past its end.
unfoldable pub on_datagram : SendAnswer → Input → World → Outcome World
on_datagram answer input w = elim input.datagram [
  | failed ↦ fault
  | chunk d ↦ do
    packet ← get_sendable_news input.memory (take buflen_max d) input.sender
    send_news_to_subscribers answer packet w
]

unfoldable pub on_connection : Input → World → Outcome World
on_connection input w = do
  m ← accept input.memory input.accepted input.accept_done w.multi
  ok (record w { multi = m })

-- A round for the descriptor `fd`, and whether the loop goes on.
unfoldable pub round_for : SendAnswer → Input → ℤ → World → Outcome (Bool × World)
unfolding on_datagram on_connection
round_for answer input fd w =
    if eqb fd (pos 0)
    then ok (if is_exit input.line then false else true, w)
    else if is_udp w.multi
    then (on_datagram answer input w >>= λ w'. ok (true, w'))
    else if is_tcp_connection w.multi
    then (on_connection input w >>= λ w'. ok (true, w'))
    else if has_closed w.multi
    then ok (true, on_closed fd w)
    else (handle_tcp_app_recv input.memory answer fd w >>= λ w'. ok (true, w'))

-- What `close(int)` did to buffered sockets on the way to a descriptor, in the loop of `select`.
unfoldable pub dropped : Map ℤ Socket → MultiSocket → List Event
dropped [] m = []
dropped ((fd, s) ∷ rest) m =
    let more = dropped rest m in if contains fd m.tcp_sockets then more else closes fd ∷ more

unfoldable pub round : SendAnswer → Input → World → Outcome (Bool × World)
unfolding await_fd round_for dropped
round answer input w = do
  (fd, m) ← await_fd input w.multi
  round_for answer input fd (record w { multi = m; log = w.log ++ dropped w.multi.tcp_sockets m })

-- `if (fd >= 0) ::close(fd)`
abbrev pub close_open : ℤ → List Event
close_open fd = if is_neg fd then [] else closes fd ∷ []

-- `multi.close()` and its effects; the order in which the buffered sockets are closed is not
-- promised.
unfoldable pub finish : World → World
finish w = record w {
  multi = close_all w.multi;
  log =
      (w.log ++ map (λ entry. closes entry.0) w.multi.tcp_sockets)
      ++ (close_open w.multi.sockfd_tcp ++ close_open w.multi.sockfd_udp);
}

-- The loop. It waits for as long as the world gives it nothing.
unfoldable pub serve : SendAnswer → List Input → World → Outcome World
unfolding finish
serve answer [] w = out_of_fuel
serve answer (input ∷ inputs) w = round answer input w >>= λ (running, w'). elim running [
  | true ↦ serve answer inputs w'
  | false ↦ ok (finish w')
]
