-- ===== src/Server/Simulation.antt =====
-- A round of the loop of `main`, as a step of the broker of Server/Abstract.
use tema2_pc_client_server_t.Base.{
  ℕ, ◌≤◌, ◌≡◌, refl, sym, ◌∙◌, ap, true, false, none, some, List, [], ◌∷◌, length, take, ok,
}
use tema2_pc_client_server_t.Base.Int.{ℤ, pos, eqb}
use tema2_pc_client_server_t.Base.Map.{text_key, int_key, lookup}
use tema2_pc_client_server_t.Framing.{Socket, chunk}
use tema2_pc_client_server_t.Framing.Valid.{view as socket_view}
use tema2_pc_client_server_t.Multi.{
  MultiSocket, sock_tcp, sock_udp, sock_close, sock_connect, accept,
}
use tema2_pc_client_server_t.Multi.Invariant.{IsSound}
use tema2_pc_client_server_t.App.News.{get_sendable_news, get_news_topic}
use tema2_pc_client_server_t.Server.State.{World, SendAnswer}
use tema2_pc_client_server_t.Server.Handler.{
  buflen_max, on_closed, forget_socket, handle_tcp_app_recv,
}
use tema2_pc_client_server_t.Server.Main.{
  Input, is_exit, await_fd, on_datagram, on_connection, round_for, round,
}
use tema2_pc_client_server_t.Server.Safety.{IsSafe}
use tema2_pc_client_server_t.Server.Rounds.{IsInput, await_fd-IsSound}
use tema2_pc_client_server_t.Server.Abstract.{
  leaves, view, serve_one, promise, Happening, asked_for, published, foretell, foretell_all,
}
use tema2_pc_client_server_t.Server.Invariants.{AreSorted, sorted}
use tema2_pc_client_server_t.Server.Deliveries.{NeverFails}
use tema2_pc_client_server_t.Server.Deliveries.All.{send_news_to_subscribers-Published}
use tema2_pc_client_server_t.Server.History.{Published-foretell, Reaches, reachable}
use tema2_pc_client_server_t.Server.Requests.{Ask, packet_for, request_on}
use tema2_pc_client_server_t.Server.Receiving.{
  served-promise, IsReceivable, handle_tcp_app_recv-request,
}
use tema2_pc_client_server_t.Server.Awaiting.{
  await_fd-IsCurrent, chosen, round_lem, round_for-on_datagram, round_for-on_connection,
  round_for-handle_tcp_app_recv,
}

-- The descriptor that a round gets, not that of the console, with its kind.
abbrev pub Awaits : Input → World → ℕ → ℤ → MultiSocket → Type 0
Awaits input w kind fd m =
    (await_fd input w.multi ≡ ok (fd, m)) × (eqb fd (pos 0) ≡ false) × (m.current_fd_type ≡ kind)

-- What a round brings, and what that is to the abstract broker. Nothing: a line other than "exit",
-- or a connection that is accepted. One happening: a login or a command that is the oldest packet of
-- a socket; a datagram of which the server makes a packet of news of at most 4092 bytes, while
-- whoever is connected has a buffered socket; the end of a connection.
pub data Brings (input : Input) (w : World) : List Happening → Type 0 where
  typed :
      (m : MultiSocket)
      → await_fd input w.multi ≡ ok (pos 0, m)
      → is_exit input.line ≡ false
      → Brings input w []
  connection :
      (fd : ℤ) (m m' : MultiSocket)
      → Awaits input w sock_connect fd m
      → accept input.memory input.accepted input.accept_done m ≡ ok m'
      → Brings input w []
  request :
      (fd : ℤ) (m : MultiSocket) (ask : Ask) (ps : List (List ℕ)) (s : Socket)
      → Awaits input w sock_tcp fd m
      → lookup fd m.tcp_sockets ≡ some s
      → (socket_view s).packets ≡ packet_for ask ∷ ps
      → IsReceivable w.broker ask
      → Brings input w (asked_for (request_on fd ask) ∷ [])
  datagram :
      (fd : ℤ) (m : MultiSocket) (d packet topic : List ℕ)
      → Awaits input w sock_udp fd m
      → input.datagram ≡ chunk d
      → get_sendable_news input.memory (take buflen_max d) input.sender ≡ ok packet
      → length packet ≤ 4092
      → get_news_topic packet ≡ ok topic
      → Reaches m (view w.broker)
      → Brings input w (published packet topic ∷ [])
  close :
      (fd : ℤ) (m : MultiSocket)
      → Awaits input w sock_close fd m
      → Brings input w (asked_for (leaves fd) ∷ [])

module _ (answer : SendAnswer) (input : Input) (w : World) (fd : ℤ) (m : MultiSocket) where
  -- The round goes through, the loop goes on, and the maps change as foretold.
  abbrev Goes : List Happening → Type 0
  Goes hs =
      (w' : World) × (round_for answer input fd (chosen w m) ≡ ok (true, w'))
      × (view w'.broker ≡ (foretell_all hs (view w.broker)).1)

  request-Goes :
      (ask : Ask) (ps : List (List ℕ)) (s : Socket)
      → Awaits input w sock_tcp fd m
      → lookup fd m.tcp_sockets ≡ some s
      → (socket_view s).packets ≡ packet_for ask ∷ ps
      → IsReceivable w.broker ask
      → NeverFails answer
      → IsSound m
      → Goes (asked_for (request_on fd ask) ∷ [])
  unfolding round_for foretell foretell_all
  request-Goes ask ps s (ran, there, kind) found packets r never sound =
      let current : m.curr_sockfd ≡ fd = await_fd-IsCurrent input w.multi (fd, m) ran in
      let (w', reply, handled, served, _) =
        handle_tcp_app_recv-request input.memory answer (chosen w m) ask ps s never sound
          (rw current found) packets r in
      let handled' : handle_tcp_app_recv input.memory answer fd (chosen w m) ≡ ok w' =
        ap (λ x. handle_tcp_app_recv input.memory answer x (chosen w m)) (sym current) ∙ handled in
      (
        w',
        round_for-handle_tcp_app_recv answer input fd (chosen w m) w' there kind handled',
        sym (ap (λ p. p.1) served)
            ∙ ap (λ x. (promise (request_on x ask) (view w.broker)).1) current,
      )

  datagram-Goes :
      (d packet topic : List ℕ)
      → Awaits input w sock_udp fd m
      → input.datagram ≡ chunk d
      → get_sendable_news input.memory (take buflen_max d) input.sender ≡ ok packet
      → length packet ≤ 4092
      → get_news_topic packet ≡ ok topic
      → Reaches m (view w.broker)
      → NeverFails answer
      → AreSorted w.broker
      → Goes (published packet topic ∷ [])
  unfolding round_for on_datagram foretell_all
  datagram-Goes d packet topic (ran, there, kind) got made short named reaches never in_order =
      let (w', sent, done) =
        send_news_to_subscribers-Published answer packet topic (chosen w m) never short
          (reachable (chosen w m) reaches) named in
      (
        w',
        round_for-on_datagram answer input fd (chosen w m) w' there kind (rw (got, made) sent),
        Published-foretell packet topic (chosen w m) w' in_order done,
      )

  close-Goes : Awaits input w sock_close fd m → Goes (asked_for (leaves fd) ∷ [])
  unfolding round_for foretell foretell_all on_closed serve_one
  close-Goes (ran, there, kind) = (
    on_closed fd (chosen w m),
    rw (there, kind) refl,
    sym (
        ap (λ p. p.1)
          (served-promise (leaves fd) w.broker none (forget_socket fd w.broker) tt refl)),
  )

-- A round in a safe state does what it brings.
pub round-Brings :
    (answer : SendAnswer) (input : Input) (w : World) (hs : List Happening)
    → Brings input w hs
    → IsInput input
    → NeverFails answer
    → IsSafe sorted w
    → (w' : World) × (round answer input w ≡ ok (true, w'))
      × (view w'.broker ≡ (foretell_all hs (view w.broker)).1)
unfolding round_for on_connection foretell_all
round-Brings answer input w _ (typed m ran other) bytes never safe =
    (chosen w m, round_lem answer input w (pos 0) m ran ∙ rw other refl, refl)
round-Brings answer input w _ (connection fd m m' (ran, there, kind) accepted) bytes never safe =
    let w1 = chosen w m in
    let w' = record w1 { multi = m' } in
    (
      w',
      round_lem answer input w fd m ran
          ∙ round_for-on_connection answer input fd w1 w' there kind (rw accepted refl),
      refl,
    )
round-Brings answer input w _ (request fd m ask ps s a found packets r) bytes never (sound, _) =
    let sound' = await_fd-IsSound input w.multi bytes sound (fd, m) a.0 in
    let (w', went, seen) =
      request-Goes answer input w fd m ask ps s a found packets r never sound' in
    (w', round_lem answer input w fd m a.0 ∙ went, seen)
round-Brings answer input w _ (datagram fd m d packet topic a got made short named reaches) bytes
      never (sound, in_order) =
    let (w', went, seen) =
      datagram-Goes answer input w fd m d packet topic a got made short named reaches never
        in_order in
    (w', round_lem answer input w fd m a.0 ∙ went, seen)
round-Brings answer input w _ (close fd m a) bytes never safe =
    let (w', went, seen) = close-Goes answer input w fd m a in
    (w', round_lem answer input w fd m a.0 ∙ went, seen)
