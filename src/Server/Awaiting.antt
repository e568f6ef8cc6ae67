-- ===== src/Server/Awaiting.antt =====
-- The descriptor that a round of the loop of `main` gets, and the branch that it takes for it.
use tema2_pc_client_server_t.Base.{
  ◌≡◌, refl, true, false, ◌++◌, ok, Holds, Holds-ok, Holds-if, Holds->>=,
}
use tema2_pc_client_server_t.Base.Int.{ℤ, pos, eqb, is_neg}
use tema2_pc_client_server_t.Base.Map.{text_key, int_key}
use tema2_pc_client_server_t.Multi.{
  MultiSocket, sock_tcp, sock_udp, sock_connect, is_udp, is_tcp_connection, has_closed, get_next_fd,
  select,
}
use tema2_pc_client_server_t.Multi.Next.{nothing, plain, buffered, get_next_fd-Next}
use tema2_pc_client_server_t.Server.State.{World, SendAnswer}
use tema2_pc_client_server_t.Server.Handler.{handle_tcp_app_recv}
use tema2_pc_client_server_t.Server.Main.{
  Input, await_fd, on_datagram, on_connection, round_for, round, dropped,
}

-- The descriptor that is waited for is the current one.
abbrev IsCurrent : ℤ × MultiSocket → Type 0
IsCurrent (fd, m) = m.curr_sockfd ≡ fd

get_next_fd-IsCurrent : (m : MultiSocket) → IsCurrent (get_next_fd m)
get_next_fd-IsCurrent m = elim (get_next_fd-Next m) [
  | nothing first e idle ↦ rw e refl
  | plain h rest e kind r ↦ rw r refl
  | buffered lost h rest first e idle full r ↦ rw r refl
]

pub await_fd-IsCurrent : (input : Input) (m : MultiSocket) → Holds IsCurrent (await_fd input m)
unfolding await_fd
await_fd-IsCurrent input m =
    let m' = (get_next_fd m).1 in
    Holds-if IsCurrent (is_neg (get_next_fd m).0) _ _
      (Holds->>= IsCurrent (select input.memory input.answers m') _
        (λ ready. Holds-ok IsCurrent (get_next_fd ready) (get_next_fd-IsCurrent ready)))
      (Holds-ok IsCurrent (get_next_fd m) (get_next_fd-IsCurrent m))

-- The state in which a descriptor has been chosen.
abbrev pub chosen : World → MultiSocket → World
chosen w m = record w { multi = m; log = w.log ++ dropped w.multi.tcp_sockets m }

pub round_lem :
    (answer : SendAnswer) (input : Input) (w : World) (fd : ℤ) (m : MultiSocket)
    → await_fd input w.multi ≡ ok (fd, m)
    → round answer input w ≡ round_for answer input fd (chosen w m)
unfolding round
round_lem answer input w fd m ran = rw ran refl

module _ (answer : SendAnswer) (input : Input) (fd : ℤ) (w w' : World)
    (there : eqb fd (pos 0) ≡ false) where
  pub round_for-on_datagram :
      w.multi.current_fd_type ≡ sock_udp
      → on_datagram answer input w ≡ ok w'
      → round_for answer input fd w ≡ ok (true, w')
  unfolding round_for
  round_for-on_datagram kind ran =
      let udp : is_udp w.multi ≡ true = rw kind refl in rw (there, udp, ran) refl

  pub round_for-on_connection :
      w.multi.current_fd_type ≡ sock_connect
      → on_connection input w ≡ ok w'
      → round_for answer input fd w ≡ ok (true, w')
  unfolding round_for
  round_for-on_connection kind ran =
      let udp : is_udp w.multi ≡ false = rw kind refl in
      let tcp : is_tcp_connection w.multi ≡ true = rw kind refl in rw (there, udp, tcp, ran) refl

  pub round_for-handle_tcp_app_recv :
      w.multi.current_fd_type ≡ sock_tcp
      → handle_tcp_app_recv input.memory answer fd w ≡ ok w'
      → round_for answer input fd w ≡ ok (true, w')
  unfolding round_for
  round_for-handle_tcp_app_recv kind ran =
      let udp : is_udp w.multi ≡ false = rw kind refl in
      let tcp : is_tcp_connection w.multi ≡ false = rw kind refl in
      let closed : has_closed w.multi ≡ false = rw kind refl in
      rw (there, udp, tcp, closed, ran) refl
