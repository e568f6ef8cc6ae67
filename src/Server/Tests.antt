-- ===== src/Server/Tests.antt =====
-- Runs of the server's functions.
pub mod Runs
mod Sequences
mod Receiving
mod Redelivery
mod Entry
mod Session
use tema2_pc_client_server_t.Base.{
  ℕ, ◌+◌, ◌≡◌, ◌≢◌, refl, none, some, List, [], ◌∷◌, ◌++◌, arith, length, replicate, inl, inr, ok,
  die, fault,
}
use tema2_pc_client_server_t.Base.Int.{pos, minus_one, eqb_iff}
use tema2_pc_client_server_t.Base.Map.{text_key, int_key, lookup, insert, erase, at}
use tema2_pc_client_server_t.Base.Words.{memcpy, write_at}
use tema2_pc_client_server_t.Base.CString.{c_str}
use tema2_pc_client_server_t.Framing
use tema2_pc_client_server_t.Framing.Tests.{zeroed, empty_socket}
use tema2_pc_client_server_t.Multi.{new_multi}
use tema2_pc_client_server_t.Multi.Tests.{one}
use tema2_pc_client_server_t.App.{
  generate_tcp_auth_packet, generate_tcp_sub_packet, type_auth, type_sub_sf, type_auth_duplicate,
}
use tema2_pc_client_server_t.App.News.{get_news_topic}
use tema2_pc_client_server_t.Server.State.{
  connected, disconnected, Subscriber, default_subscriber, Broker, World, SendAnswer, sends, prints,
  new_client,
}
use tema2_pc_client_server_t.Server.Commands.{
  client, authenticate, command, unsubscribe, dispatch, process_tcp_client_packet,
}
use tema2_pc_client_server_t.Server.Delivery.{send_packet_to_sub, send_news_to_subscribers}
use tema2_pc_client_server_t.Server.Handler.{confirm, decline, forget_socket}
use tema2_pc_client_server_t.Server.Declining.{declined, decline-closes}
use tema2_pc_client_server_t.Server.Wire.{process_full, auth_round_trip, command_round_trip}
use tema2_pc_client_server_t.Server.Auth.{
  IsConnected, Admitted, queue_of, authenticate_duplicate, authenticate_admits,
}
use tema2_pc_client_server_t.Server.Linked.{IsLinked, forget_socket-IsLinked}
use tema2_pc_client_server_t.Server.Subscribing.{Commands, command-Commands}
use tema2_pc_client_server_t.Server.Deliveries.{frame, IsReachable, NeverFails}
use tema2_pc_client_server_t.Server.Deliveries.All.{Published, send_news_to_subscribers-Published}
use tema2_pc_client_server_t.Server.Reconnect.{frames, confirm-unloads}

abbrev pub id_a : List ℕ
id_a = 65 ∷ []

abbrev pub id_b : List ℕ
id_b = 66 ∷ []

abbrev pub topic_t : List ℕ
topic_t = 116 ∷ []

abbrev pub stored_news : List ℕ
stored_news = 127 ∷ 0 ∷ 0 ∷ 1 ∷ 31 ∷ 144 ∷ 116 ∷ 0 ∷ 0 ∷ 1 ∷ []

abbrev pub client_a : Subscriber
client_a = record { sockfd = pos 4; state = connected; subs_queue = stored_news ∷ [] }

-- `A` is connected by the descriptor 4, with news in its queue, and `B` is not; both have subscribed.
abbrev pub broker : Broker
broker = record {
  topic_map = (topic_t, (id_a, 0) ∷ (id_b, 1) ∷ []) ∷ [];
  clients =
      (id_a, client_a)
      ∷ (id_b, record { sockfd = minus_one; state = disconnected; subs_queue = [] })
      ∷ [];
  ids_map = (pos 4, id_a) ∷ [];
}

abbrev pub world : World
world = record { multi = one; broker = broker; log = [] }

abbrev pub takes_all : SendAnswer
takes_all log fd bytes = pos (length bytes)

a-IsConnected : IsConnected id_a broker
unfolding lookup
a-IsConnected = (_, refl, refl)

pub b-free : ¬ IsConnected id_b broker
unfolding lookup
b-free (s, e, c) = ground arith

process_full_example : process_tcp_client_packet zeroed (pos 4) (replicate 65 1) 65 broker ≡ fault
process_full_example = process_full zeroed (pos 4) (replicate 65 1) 65 broker refl (omega arith)

command-Commands_example :
    Commands type_sub_sf topic_t broker
      (lookup (pos 4) broker.ids_map)
      (command type_sub_sf (pos 4) (ok topic_t) broker)
command-Commands_example = command-Commands type_sub_sf (pos 4) topic_t broker (inr (inl refl))

pub never : NeverFails takes_all
never log fd bytes = refl

pub one_lookup : lookup (pos 4) one.tcp_sockets ≡ some empty_socket
unfolding lookup insert new_multi Framing.new_socket
one_lookup = refl

pub reachable : (id : List ℕ) → IsReachable world id
unfolding at lookup default_subscriber
reachable id on =
    let by_4 : (client id broker).sockfd ≡ pos 4 = ground arith in
    (empty_socket, rw by_4 one_lookup)

pub news_topic : get_news_topic stored_news ≡ ok topic_t
unfolding get_news_topic c_str
news_topic = refl

abbrev auth_a : List ℕ
auth_a = 1 ∷ 65 ∷ 0 ∷ []

-- `A` authenticates again by its own socket.
decline-closes_example :
    (decline takes_all (pos 4) auth_a world ≡ ok (declined (pos 4) id_a world))
    × ((packet : List ℕ)
        → send_packet_to_sub takes_all (pos 4) packet (declined (pos 4) id_a world) ≡ die)
unfolding c_str
decline-closes_example =
    decline-closes takes_all (pos 4) auth_a id_a world empty_socket refl (omega arith) one_lookup
