-- ===== src/Server/Handler.antt =====
-- `handle_tcp_app_recv` of server.cpp, with the prints that it makes, and the branch of `main` for a
-- connection that has closed.
use tema2_pc_client_server_t.Base.{
  ℕ, ◌+◌, ◌-◌, ◌^◌, Bool, true, false, List, [], take, drop, replicate, Outcome, ok, ◌>>=◌, ◌==◌,
  if◌then◌else◌,
}
use tema2_pc_client_server_t.Base.Int.{ℤ, pos, negsuc}
use tema2_pc_client_server_t.Base.Map.{text_key, int_key, at, insert, erase}
use tema2_pc_client_server_t.Base.CString.{c_str}
use tema2_pc_client_server_t.Framing.{Memory, Code}
use tema2_pc_client_server_t.Multi
use tema2_pc_client_server_t.App.{type_auth, type_auth_duplicate, change_tcp_type_packet}
use tema2_pc_client_server_t.Server.State.{
  disconnected, Broker, World, SendAnswer, new_client, already_connected, client_disconnected,
  prints, note, multi_send, multi_close,
}
use tema2_pc_client_server_t.Server.Commands.{client, process_tcp_client_packet}
use tema2_pc_client_server_t.Server.Delivery.{unload_news_queue}

-- BUFLEN
abbrev pub buflen_max : ℕ
buflen_max = 2048

-- An `int` as a `size_t`.
abbrev pub to_size : ℤ → ℕ
to_size (pos n) = n
to_size (negsuc n) = 2 ^ 64 - (n + 1)

-- `print_auth_confirmation` and `print_auth_decline`
unfoldable pub print_auth_confirmation : ℤ → List ℕ → World → Outcome World
print_auth_confirmation fd buf w = do
  id ← c_str (drop 1 buf)
  ok (note (prints (new_client id fd)) w)

unfoldable pub print_auth_decline : List ℕ → World → Outcome World
print_auth_decline buf w = do id ← c_str (drop 1 buf); ok (note (prints (already_connected id)) w)

-- What follows a packet of `size` bytes in `buf` for which `type` was returned.
unfoldable pub confirm : SendAnswer → ℤ → List ℕ → ℕ → World → Outcome World
unfolding print_auth_confirmation
confirm answer fd buf size w = do
  w1 ← print_auth_confirmation fd buf w
  (cnt, w2) ← multi_send answer fd (take size buf) w1
  unload_news_queue answer (client (at [] fd w2.broker.ids_map) w2.broker) w2

unfoldable pub decline : SendAnswer → ℤ → List ℕ → World → Outcome World
unfolding print_auth_decline
decline answer fd buf w = do
  w1 ← print_auth_decline buf w
  (reply, size) ← change_tcp_type_packet type_auth_duplicate buf
  (cnt, w2) ← multi_send answer fd (take size reply) w1
  ok (multi_close fd w2)

unfoldable pub react : SendAnswer → ℤ → List ℕ → ℕ → ℕ → World → Outcome World
unfolding confirm decline
react answer fd buf size type w =
    if type == type_auth
    then confirm answer fd buf size w
    else if type == type_auth_duplicate
    then decline answer fd buf w
    else ok w

unfoldable pub handle_packet : Memory → SendAnswer → ℤ → List ℕ → ℕ → World → Outcome World
unfolding react
handle_packet mem answer fd buf size w = do
  (type, b) ← process_tcp_client_packet mem fd buf size w.broker
  react answer fd buf size type (record w { broker = b })

abbrev pub is_not_ready : Code → Bool
is_not_ready Code.packet_not_ready = true
is_not_ready _ = false

-- `DIE(out == BUFFER_TOO_SMALL, ...)` never dies: no function returns that code.
unfoldable pub handle_tcp_app_recv : Memory → SendAnswer → ℤ → World → Outcome World
unfolding handle_packet
handle_tcp_app_recv mem answer fd w = do
  (ret, out, buf, m) ← Multi.recv (replicate buflen_max 0) w.multi
  let w' = record w { multi = m }
  if is_not_ready out then ok w' else handle_packet mem answer fd buf (to_size ret) w'

-- The maps after the branch of `main` behind `has_closed`.
unfoldable pub forget_socket : ℤ → Broker → Broker
forget_socket fd b =
    let id = at [] fd b.ids_map in
    record b {
      clients = insert id (record (client id b) { state = disconnected }) b.clients;
      ids_map = erase fd b.ids_map;
    }

unfoldable pub on_closed : ℤ → World → World
unfolding forget_socket
on_closed fd w =
    note (prints (client_disconnected (at [] fd w.broker.ids_map)))
      (record w { broker = forget_socket fd w.broker })
