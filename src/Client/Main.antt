-- ===== src/Client/Main.antt =====
-- `main` of client.cpp: how it joins the server, and its two loops. What is printed of a packet of
-- news is an event; what is typed, and what the system answers, is an argument.
use tema2_pc_client_server_t.Base.{
  ℕ, ◌-◌, ◌%◌, Bool, ◌||◌, Option, none, some, List, [], ◌∷◌, ◌++◌, length, take, Outcome, ok, die,
  fault, out_of_fuel, ◌>>=◌, ◌==◌, if◌then◌else◌,
}
use tema2_pc_client_server_t.Base.Int.{ℤ, pos, eqb, is_neg, minus_one}
use tema2_pc_client_server_t.Base.Map.{same_text}
use tema2_pc_client_server_t.Base.Words.{memcpy}
use tema2_pc_client_server_t.Base.CString.{nuls, c_str}
use tema2_pc_client_server_t.Framing.{Memory}
use tema2_pc_client_server_t.Multi
use tema2_pc_client_server_t.Multi.{
  MultiSocket, Address, Ready, new_multi, connect, add_fd, select, get_next_fd, has_closed,
  close_all,
}
use tema2_pc_client_server_t.App.{
  type_auth, type_sub, type_sub_sf, type_unsub, generate_tcp_auth_packet, generate_tcp_sub_packet,
  get_tcp_packet_type,
}
use tema2_pc_client_server_t.App.Display.{Doubles, News, parse_subscriber_news}
use tema2_pc_client_server_t.Server.Handler.{to_size}
use tema2_pc_client_server_t.Client.{max_command_size, Parsed, parse_subscription_cmd}

pub data Event : Type 0 where
  sends : ℤ → List ℕ → Event
  subscribed unsubscribed invalid : Event
  shows : News → Event

-- The variables of `main` that its loop uses, and what it has done.
pub record Client : Type 0 where
  pub multi : MultiSocket
  pub sockfd_tcp : ℤ
  pub buffer : List ℕ
  pub type : ℕ
  pub topic : List ℕ
  pub news : News
  pub log : List Event

-- What a round may get: the bytes that `fgets` reads, of which there are none at the end of the
-- input, what `select` answers, and what the system's `send` returns.
pub record Turn : Type 0 where
  pub memory : Memory
  pub typed : List ℕ
  pub answers : List (Option Ready)
  pub sent : ℤ

abbrev pub log_event : Event → Client → Client
log_event e c = record c { log = c.log ++ e ∷ [] }

-- `multi.send` and its effect; the value is an `int`.
unfoldable pub client_send : ℤ → List ℕ → Client → Outcome (ℤ × Client)
client_send sent buf c = do
  frame ← Multi.send c.sockfd_tcp buf c.multi
  elim frame [
    | none ↦ ok (minus_one, c)
    | some bytes ↦ ok (sent, log_event (sends c.sockfd_tcp bytes) c)
  ]

-- The buffer behind `memset` and `fgets`, with its last character overwritten by a NUL. If nothing is
-- read, the byte before the buffer is overwritten.
unfoldable pub type_line : List ℕ → List ℕ → Outcome (List ℕ)
type_line typed buffer = do
  cleared ← memcpy buffer 0 (nuls max_command_size)
  read ← memcpy cleared 0 (if length typed == 0 then [] else typed ++ 0 ∷ [])
  text ← c_str read
  if length text == 0 then fault else memcpy read (length text - 1) (0 ∷ [])

-- What is shown for a command that has been sent.
abbrev pub shown : ℕ → List Event
shown type =
    if type == type_sub || type == type_sub_sf
    then subscribed ∷ []
    else if type == type_unsub
    then unsubscribed ∷ []
    else []

-- The next descriptor, if the loop goes on.
abbrev pub Goes : Type 0
Goes = Option ℤ × Client

unfoldable pub next_descriptor : Client → Goes
next_descriptor c = let (fd, m) = get_next_fd c.multi in (some fd, record c { multi = m })

-- A command that has been read: it is sent, or it is invalid, and then the same descriptor follows.
unfoldable pub obey : Turn → ℤ → Parsed → Client → Outcome Goes
unfolding client_send next_descriptor
obey turn sockfd p c =
    let c1 = record c { type = p.type; topic = p.topic } in
    if p.status == 0
    then (do
      (packet, size) ← generate_tcp_sub_packet p.type p.topic c.buffer
      (n, c2) ← client_send turn.sent (take size packet) (record c1 { buffer = packet })
      if is_neg n then die else ok (next_descriptor (record c2 { log = c2.log ++ shown p.type })))
    else ok (some sockfd, log_event invalid c1)

-- The branch for standard input.
unfoldable pub on_typed : Turn → ℤ → Client → Outcome Goes
unfolding type_line obey
on_typed turn sockfd c = do
  buffer ← type_line turn.typed c.buffer
  text ← c_str buffer
  let c1 = record c { buffer = buffer }
  let parsed = parse_subscription_cmd turn.memory c.type c.topic buffer max_command_size
  if length text == 0
      then ok (some sockfd, c1)
      else if same_text (take 4 text) (b'e' ∷ b'x' ∷ b'i' ∷ b't' ∷ [])
      then ok (none, c1)
      else (parsed >>= λ p. obey turn sockfd p c1)

-- The branch for a packet of news: `n` is the value of `multi.recv`.
unfoldable pub on_news : Doubles → Client → Outcome Goes
unfolding next_descriptor
on_news d c = do
  (n, out, buffer, m) ← Multi.recv c.buffer c.multi
  news ← parse_subscriber_news d buffer (to_size n) c.news
  ok (
      next_descriptor
        (log_event (shows news) (record c { buffer = buffer; multi = m; news = news })))

-- One round of the inner loop.
unfoldable pub handle_fd : Doubles → Turn → ℤ → Client → Outcome Goes
unfolding on_typed on_news
handle_fd d turn sockfd c =
    if eqb sockfd (pos 0)
    then on_typed turn sockfd c
    else if has_closed c.multi
    then ok (none, c)
    else on_news d c

-- A round of the outer loop begins.
unfoldable pub await : Turn → Client → Outcome (ℤ × Client)
await turn c = do
  m ← select turn.memory turn.answers c.multi
  let (fd, m') = get_next_fd m
  ok (fd, record c { multi = m' })

-- The two loops, from the descriptor `sockfd` on, and `multi.close()` behind them. They wait for as
-- long as the world gives them nothing.
unfoldable pub work : Doubles → List Turn → ℤ → Client → Outcome Client
unfolding handle_fd await
work d [] sockfd c = out_of_fuel
work d (turn ∷ turns) sockfd c =
    let later = (await turn c >>= λ (fd, c'). work d turns fd c') in
    let now =
      (handle_fd d turn sockfd c >>= λ (next, c'). elim next [
        | none ↦ ok (record c' { multi = close_all c'.multi })
        | some fd ↦ work d turns fd c'
      ]) in
    if is_neg sockfd then later else now

-- The start of the authentication: the client connects to an address, and sends the packet of the
-- id in the array `id`. The arrays are what the stack holds.
unfoldable pub greet : Turn → Memory → ℤ → (Address → Bool) → Address → List ℕ → Outcome Client
unfolding client_send
greet turn stack fd done addr id = do
  m ← connect turn.memory fd done addr new_multi
  (packet, size) ← generate_tcp_auth_packet id (stack.fresh 2048)
  let c : Client = record {
    multi = m;
    sockfd_tcp = fd;
    buffer = packet;
    type = stack.word % 256;
    topic = stack.fresh 50;
    news = record { addr = []; port = []; topic = stack.fresh 51; data_type = []; value = [] };
    log = [];
  }
  (n, c1) ← client_send turn.sent (take size packet) c
  if is_neg n then die else ok c1

-- What the client makes of the answer to it: none, if it is not admitted. `DIE(0, ...)` does nothing.
unfoldable pub admission : Client → Outcome (Option Client)
admission c = do
  (ret, out, buffer, m) ← Multi.recv c.buffer c.multi
  let c' = record c { buffer = buffer; multi = add_fd (pos 0) m }
  if is_neg ret
      then die
      else ok (if get_tcp_packet_type buffer (to_size ret) == type_auth then some c' else none)

-- Up to the loops.
unfoldable pub join :
    Turn → Memory → ℤ → (Address → Bool) → Address → List ℕ → Outcome (Option Client)
unfolding greet await admission
join turn stack fd done addr id = do
  c ← greet turn stack fd done addr id
  (next, c') ← await turn c
  admission c'
