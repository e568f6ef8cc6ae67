-- ===== src/Server/Tests/Redelivery.antt =====
-- News that wait for `A` are sent by the descriptor 4, and again by 5.
use tema2_pc_client_server_t.Base.{◌≡◌, refl, some, [], ◌∷◌, ◌++◌, arith, ok}
use tema2_pc_client_server_t.Base.Int.{pos, minus_one}
use tema2_pc_client_server_t.Base.Map.{text_key, int_key, lookup, insert, at}
use tema2_pc_client_server_t.Framing
use tema2_pc_client_server_t.Framing.{Socket, new_socket}
use tema2_pc_client_server_t.Framing.Tests.{zeroed, empty_socket}
use tema2_pc_client_server_t.Multi.{new_multi, enter}
use tema2_pc_client_server_t.Multi.Tests.{one}
use tema2_pc_client_server_t.Server.State.{
  disconnected, World, sends, prints, new_client, client_disconnected,
}
use tema2_pc_client_server_t.Server.Commands.{client}
use tema2_pc_client_server_t.Server.Handler.{handle_packet, on_closed}
use tema2_pc_client_server_t.Server.Auth.{IsConnected}
use tema2_pc_client_server_t.Server.Deliveries.{frame}
use tema2_pc_client_server_t.Server.Reconnect.{frames}
use tema2_pc_client_server_t.Server.Requests.{login, packet_for}
use tema2_pc_client_server_t.Server.Redelivery.{reconnect-resends}
use tema2_pc_client_server_t.Server.Tests.{takes_all, id_a, stored_news, never}

abbrev away : World
away = record {
  multi = enter zeroed (pos 5) one;
  broker = record {
    topic_map = [];
    clients =
        (id_a, record { sockfd = minus_one; state = disconnected; subs_queue = stored_news ∷ [] })
        ∷ [];
    ids_map = [];
  };
  log = [];
}

a-free : ¬ IsConnected id_a away.broker
unfolding lookup
a-free (s, e, c) = ground arith

a-queue : (client id_a away.broker).subs_queue ≡ stored_news ∷ []
unfolding at lookup
a-queue = refl

first_lookup : lookup (pos 4) away.multi.tcp_sockets ≡ some empty_socket
unfolding lookup insert new_multi Framing.new_socket
first_lookup = refl

second_lookup : lookup (pos 5) away.multi.tcp_sockets ≡ some (new_socket zeroed (pos 5))
unfolding lookup insert new_multi
second_lookup = refl

reconnect-resends_example :
    (w1 : World) × (w2 : World) × (handle_packet zeroed takes_all
        (pos 4)
        (packet_for (login id_a) ++ [])
        12
        away
      ≡ ok w1)
    × (handle_packet zeroed takes_all
          (pos 5)
          (packet_for (login id_a) ++ [])
          12
          (on_closed (pos 4) w1)
        ≡ ok w2)
    × (w1.log
        ≡ []
          ++ prints (new_client id_a (pos 4))
            ∷ sends (pos 4) (frame (packet_for (login id_a)))
            ∷ frames (pos 4) (client id_a away.broker).subs_queue)
    × (w2.log
        ≡ (w1.log ++ prints (client_disconnected id_a) ∷ [])
          ++ prints (new_client id_a (pos 5))
            ∷ sends (pos 5) (frame (packet_for (login id_a)))
            ∷ frames (pos 5) (client id_a away.broker).subs_queue)
reconnect-resends_example =
    reconnect-resends zeroed takes_all (pos 4) (pos 5) id_a [] [] away empty_socket
      (new_socket zeroed (pos 5)) never (omega arith, tt) (omega arith) first_lookup second_lookup
      a-free (rw a-queue (omega arith, tt))
