-- ===== src/Client/Joining.antt =====
-- How a client authenticates.
use tema2_pc_client_server_t.Base.{
  ℕ, suc, ◌+◌, ◌%◌, ◌^◌, append_assoc, ◌>>=◌, ◌≤◌, ◌<◌, ◌≡◌, refl, Bool, true, false, Bool-cases,
  none, some, List, [], ◌∷◌, ◌++◌, arith, length, take, drop, length-append, length-take, get_or,
  inl, inr, ok, die, leb, ltb, ◌==◌, if◌then◌else◌,
}
use tema2_pc_client_server_t.Base.Int.{ℤ, pos, is_neg}
use tema2_pc_client_server_t.Base.Map.{int_key, lookup, lookup-insert_self}
use tema2_pc_client_server_t.Base.Words.{swap16, memcpy, memcpy_fits, write_at_front}
use tema2_pc_client_server_t.Base.CString.{IsText}
use tema2_pc_client_server_t.Base.Argv.{runs, htons}
use tema2_pc_client_server_t.Framing
use tema2_pc_client_server_t.Framing.{Memory}
use tema2_pc_client_server_t.Framing.Valid.{view}
use tema2_pc_client_server_t.Multi.{Address, connect, enter, new_multi, add_fd}
use tema2_pc_client_server_t.Multi.Invariant.{IsSound}
use tema2_pc_client_server_t.Multi.Next.{recv-packet}
use tema2_pc_client_server_t.App.{type_auth, get_tcp_packet_type}
use tema2_pc_client_server_t.App.Display.{Doubles, to_string}
use tema2_pc_client_server_t.App.Numbers.{atoi-to_string}
use tema2_pc_client_server_t.Server.State.{Broker}
use tema2_pc_client_server_t.Server.Commands.{authenticate, process_tcp_client_packet}
use tema2_pc_client_server_t.Server.Deliveries.{frame}
use tema2_pc_client_server_t.Server.Wire.{auth_round_trip}
use tema2_pc_client_server_t.Client.Main.{
  Client, Turn, sends, log_event, greet, await, admission, join,
}
use tema2_pc_client_server_t.Client.Entry.{Connection, go_on, client_main}
use tema2_pc_client_server_t.Client.Typed.{client_send_lem}

-- A client that has connected, whose array holds an id of at most 10 bytes, sends one frame, and
-- goes on if the system's `send` does not fail: a server that reads the 12 bytes in it from this
-- buffer takes them as TYPE_AUTH with that id.
pub greet-authenticates :
    (turn : Turn) (stack : Memory) (fd : ℤ) (done : Address → Bool) (addr : Address)
    (id junk : List ℕ) (mem : Memory) (sfd : ℤ) (b : Broker)
    → IsText id
    → length id < 11
    → is_neg fd ≡ false
    → done addr ≡ true
    → is_neg turn.sent ≡ false
    → (c : Client) × (packet : List ℕ) × (greet turn stack fd done addr (id ++ 0 ∷ junk) ≡ ok c)
      × (c.multi.serv_addr ≡ addr)
      × (c.log ≡ sends fd (frame (take 12 packet)) ∷ [])
      × (process_tcp_client_packet mem sfd packet 12 b ≡ ok (authenticate sfd id b))
unfolding greet connect
greet-authenticates turn stack fd done addr id junk mem sfd b t l opened joined fine =
    let (packet, made, read, _) =
      auth_round_trip mem sfd id junk (stack.fresh 2048) b t l
        (omega (arith, stack.length-fresh 2048)) in
    let c : Client = record {
      multi = enter turn.memory fd (record new_multi { serv_addr = addr });
      sockfd_tcp = fd;
      buffer = packet;
      type = stack.word % 256;
      topic = stack.fresh 50;
      news = record { addr = []; port = []; topic = stack.fresh 51; data_type = []; value = [] };
      log = [];
    } in
    (
      log_event (sends fd (frame (take 12 packet))) c,
      packet,
      rw
          (
            opened,
            joined,
            made,
            client_send_lem turn.sent (take 12 packet) c _ (omega (arith, length-take 12 packet))
                (lookup-insert_self fd _ new_multi.tcp_sockets),
            fine,
          )
          refl,
      refl,
      refl,
      read,
    )

front_byte : (n x : ℕ) (bytes rest : List ℕ) → take (suc n) bytes ≡ x ∷ rest → get_or bytes 0 0 ≡ x
front_byte n x [] rest e = cc
front_byte n x (b ∷ bytes) rest e = cc

-- A client whose current socket has an answer that is not empty and fits the buffer as its oldest
-- packet: if the answer begins with TYPE_AUTH, the client goes on, with standard input as another
-- descriptor to wait for; otherwise it ends, and does not die.
pub admission-answer :
    (c : Client) (type : ℕ) (rest : List ℕ) (ps : List (List ℕ)) (s : Framing.Socket)
    → IsSound c.multi
    → lookup c.multi.curr_sockfd c.multi.tcp_sockets ≡ some s
    → (view s).packets ≡ (type ∷ rest) ∷ ps
    → length (type ∷ rest) ≤ length c.buffer
    → (c' : Client) × (admission c ≡ ok (if type == type_auth then some c' else none))
      × (c'.multi.read_fds (pos 0) ≡ true)
      × (c'.log ≡ c.log)
      × (c'.sockfd_tcp ≡ c.sockfd_tcp)
unfolding admission add_fd get_tcp_packet_type
admission-answer c type rest ps s v e q fits =
    elim (recv-packet c.multi c.buffer (type ∷ rest) ps s v e q) [
      | inl (l, ran) ↦ absurd (omega (arith, l))
      | inr (bytes, m, t, ran, front, _, _, _, _) ↦
          let some_bytes : ltb (length (type ∷ rest)) 1 ≡ false = ground arith in
          (
            record c { buffer = bytes; multi = add_fd (pos 0) m },
            rw (ran, some_bytes, front_byte (length rest) type bytes rest front) refl,
            refl,
            refl,
            refl,
          )
    ]

-- A client whose calls that connect it succeed or fail.
greet-done :
    (turn : Turn) (stack : Memory) (fd : ℤ) (done : Address → Bool) (addr : Address) (id : List ℕ)
    → is_neg fd ≡ false
    → greet turn stack fd done addr id
      ≡ (if done addr then greet turn stack fd (λ a. true) addr id else die)
unfolding greet connect
greet-done turn stack fd done addr id opened = elim (Bool-cases (done addr)) [
  | inl e ↦ rw (opened, e) refl
  | inr e ↦ rw (opened, e) refl
]

-- The array of an id that fits.
id_array_lem :
    (stack : Memory) (id : List ℕ)
    → length id < 11
    → memcpy (stack.fresh 11) 0 (id ++ 0 ∷ [])
      ≡ ok (id ++ 0 ∷ drop (length id + 1) (stack.fresh 11))
id_array_lem stack id h =
    let l : length (id ++ 0 ∷ []) ≡ length id + 1 = length-append id (0 ∷ []) in
    rw
      (
        memcpy_fits (stack.fresh 11) 0 (id ++ 0 ∷ []) (omega (arith, l, stack.length-fresh 11)),
        write_at_front (stack.fresh 11) (id ++ 0 ∷ []),
        l,
        append_assoc id (0 ∷ []) (drop (length id + 1) (stack.fresh 11)),
      )
      refl

-- A client that is started with an id of less than 11 bytes, an address that `inet_aton` reads and a
-- decimal port of less than 2^31 asks `connect` for that address, with the port modulo 65536 in
-- network order. If this fails it dies. Otherwise, if the system's `send` does not fail, its first
-- frame is one whose 12 bytes a server that reads them from this buffer takes as TYPE_AUTH with the
-- id that was typed; and then it waits for the answer, and works if that admits it.
pub client_main-id :
    (d : Doubles) (file id address : List ℕ) (n ip : ℕ) (rest : List (List ℕ)) (k : Connection)
    (stack : Memory) (turns : List Turn) (mem : Memory) (sfd : ℤ) (b : Broker)
    → k.aton address ≡ some ip
    → n < 2 ^ 31
    → IsText id
    → length id < 11
    → is_neg k.fd ≡ false
    → is_neg k.turn.sent ≡ false
    → let at : Address = record { s_addr = ip; sin_port = swap16 (n % 2 ^ 16) } in
      (c : Client) × (packet : List ℕ) × (client_main d
          (file ∷ id ∷ address ∷ to_string n ∷ rest)
          k
          stack
          turns
        ≡ (if k.done at
            then ((await k.turn c >>= λ (next, c'). admission c') >>= λ joined.
                go_on d turns joined >>= λ left. ok (runs left))
            else die))
      × (c.log ≡ sends k.fd (frame (take 12 packet)) ∷ [])
      × (process_tcp_client_packet mem sfd packet 12 b ≡ ok (authenticate sfd id b))
unfolding client_main htons join
client_main-id d file id address n ip rest k stack turns mem sfd b read h t short opened fine =
    let at : Address = record { s_addr = ip; sin_port = swap16 (n % 2 ^ 16) } in
    let junk = drop (length id + 1) (stack.fresh 11) in
    let (c, packet, ran, _, log, reads) =
      greet-authenticates k.turn stack k.fd (λ a. true) at id junk mem sfd b t short opened refl
        fine in
    let fits : leb 11 (length id) ≡ false = ground arith in
    (
      c,
      packet,
      rw
          (
            fits,
            id_array_lem stack id short,
            read,
            atoi-to_string n h,
            greet-done k.turn stack k.fd k.done at (id ++ 0 ∷ junk) opened,
            ran,
          )
          (elim (Bool-cases (k.done at)) [ inl e ↦ rw e refl | inr e ↦ rw e refl ]),
      log,
      reads,
    )
