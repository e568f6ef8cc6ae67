-- ===== src/Server/Redelivery.antt =====
-- A client that loses its connection and comes back is sent its old news again.
use tema2_pc_client_server_t.Base.{
  ℕ, ◌<◌, ◌≡◌, sym, ◌∙◌, ap, refl, ◌∙◌, ap, some, List, [], ◌∷◌, ◌++◌, arith, All, length, ok,
}
use tema2_pc_client_server_t.Base.Int.{ℤ}
use tema2_pc_client_server_t.Base.Map.{text_key, int_key, lookup, at}
use tema2_pc_client_server_t.Base.CString.{IsText}
use tema2_pc_client_server_t.Framing
use tema2_pc_client_server_t.Framing.{Memory}
use tema2_pc_client_server_t.Server.State.{Broker, World, SendAnswer, sends, prints, new_client}
use tema2_pc_client_server_t.Server.Commands.{client, authenticate}
use tema2_pc_client_server_t.Server.Handler.{handle_packet}
use tema2_pc_client_server_t.Server.Auth.{IsConnected, authenticate_admits}
use tema2_pc_client_server_t.Server.Deliveries.{frame, NeverFails}
use tema2_pc_client_server_t.Server.Reconnect.{IsShort, frames}
use tema2_pc_client_server_t.Server.Requests.{login, packet_for, after_login, admitted_lem}
use tema2_pc_client_server_t.Base.Map.{at-lookup, lookup-insert_self}
use tema2_pc_client_server_t.Server.State.{
  disconnected, Subscriber, default_subscriber, client_disconnected,
}
use tema2_pc_client_server_t.Server.Handler.{forget_socket, on_closed}
use tema2_pc_client_server_t.Server.Refines.{queue-client}

forget_socket_entry :
    (fd : ℤ) (id : List ℕ) (b : Broker) (s : Subscriber)
    → lookup fd b.ids_map ≡ some id
    → lookup id b.clients ≡ some s
    → lookup id (forget_socket fd b).clients ≡ some (record s { state = disconnected })
unfolding forget_socket at
forget_socket_entry fd id b s owner entry = ground (
  arith,
  owner,
  entry,
  lookup-insert_self id (record (client id b) { state = disconnected }) b.clients,
)

-- What an admitted login that has lost its socket leaves: nobody is connected by its id, and all that
-- waited for it waits still.
login_lost :
    (fd : ℤ) (id : List ℕ) (b : Broker)
    → ¬ IsConnected id b
    → let b' = forget_socket fd (authenticate fd id b).1 in
      (¬ IsConnected id b')
      × ((client id b').subs_queue ≡ (client id b).subs_queue)
      × (at [] fd (authenticate fd id b).1.ids_map ≡ id)
login_lost fd id b free =
    let b1 = (authenticate fd id b).1 in
    let (_, (entry, owner, _, _, _)) = authenticate_admits fd id b free in
    let gone = forget_socket_entry fd id b1 _ owner entry in
    (
      λ (s, e, c). ground arith,
      ap (λ c. c.subs_queue) (at-lookup default_subscriber _ id (forget_socket fd b1).clients gone)
          ∙ sym (queue-client id b),
      at-lookup [] id fd b1.ids_map owner,
    )

-- A client that is not connected, and for which news wait, authenticates by one socket, is sent all
-- of them, loses that connection, and authenticates by another one: then it is sent all of them
-- once more, in the same order, since `unload_news_queue` empties a copy of the queue. Both logins
-- go through. It is assumed that the system's `send` does not fail, that both sockets are buffered,
-- and that no packet is longer than 4092 bytes.
pub reconnect-resends :
    (mem : Memory) (answer : SendAnswer) (fd fd' : ℤ) (id tail tail' : List ℕ) (w : World)
    (s s' : Framing.Socket)
    → NeverFails answer
    → IsText id
    → length id < 11
    → lookup fd w.multi.tcp_sockets ≡ some s
    → lookup fd' w.multi.tcp_sockets ≡ some s'
    → ¬ IsConnected id w.broker
    → All IsShort (client id w.broker).subs_queue
    → (w1 : World) × (w2 : World) × (handle_packet mem answer fd
          (packet_for (login id) ++ tail)
          12
          w
        ≡ ok w1)
      × (handle_packet mem answer fd' (packet_for (login id) ++ tail') 12 (on_closed fd w1) ≡ ok w2)
      × (w1.log
          ≡ w.log
            ++ prints (new_client id fd)
              ∷ sends fd (frame (packet_for (login id)))
              ∷ frames fd (client id w.broker).subs_queue)
      × (w2.log
          ≡ (w1.log ++ prints (client_disconnected id) ∷ [])
            ++ prints (new_client id fd')
              ∷ sends fd' (frame (packet_for (login id)))
              ∷ frames fd' (client id w.broker).subs_queue)
unfolding on_closed
reconnect-resends mem answer fd fd' id tail tail' w s s' never t l found found' free short =
    let w1 = after_login mem answer fd id tail w s never t l found in
    let (free', queue, owner) = login_lost fd id w.broker free in
    let w1' = on_closed fd w1 in
    (
      w1,
      after_login mem answer fd' id tail' w1' s' never t l found',
      admitted_lem mem answer fd id tail w s never t l found free short,
      admitted_lem mem answer fd' id tail' w1' s' never t l found' free' (rw queue short),
      refl,
      rw (queue, owner) refl,
    )
