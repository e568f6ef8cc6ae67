-- ===== src/Server/Tests/Receiving.antt =====
-- A command that has arrived on the socket of a client.
use tema2_pc_client_server_t.Base.{ℕ, ◌≡◌, refl, false, some, [], ◌∷◌, ◌++◌, arith, inl, inr, ok}
use tema2_pc_client_server_t.Base.Int.{pos}
use tema2_pc_client_server_t.Base.Map.{int_key, lookup, insert}
use tema2_pc_client_server_t.Framing.{Socket}
use tema2_pc_client_server_t.Framing.Tests.{zeroed, empty_socket}
use tema2_pc_client_server_t.Framing.Valid.{IsValid}
use tema2_pc_client_server_t.Multi.{MultiSocket, new_multi}
use tema2_pc_client_server_t.Multi.Invariant.{IsSound, replace-IsSound}
use tema2_pc_client_server_t.Multi.Tests.{one, one-IsSound}
use tema2_pc_client_server_t.App.{type_sub_sf}
use tema2_pc_client_server_t.Server.State.{World}
use tema2_pc_client_server_t.Server.Handler.{handle_tcp_app_recv}
use tema2_pc_client_server_t.Server.Abstract.{view, promise}
use tema2_pc_client_server_t.Server.Requests.{Ask, commands, request_on}
use tema2_pc_client_server_t.Server.Receiving.{told_of, handle_tcp_app_recv-request}
use tema2_pc_client_server_t.Server.Tests.{takes_all, topic_t, broker, world, never, one_lookup}

abbrev pub ask : Ask
ask = commands type_sub_sf topic_t

-- TYPE_SUB_SF and the topic.
abbrev pub arrived : Socket
arrived = record {
  sockfd = pos 4;
  current_buffer = 3 ∷ 116 ∷ [];
  expected_size = 0;
  buffer_size = 2;
  size_read = false;
  read_size_index = 0;
  packet_queue = record { size = 2; memory = 3 ∷ 116 ∷ [] } ∷ [];
}

arrived-IsValid : IsValid arrived
arrived-IsValid = record { progress = omega arith; whole = (refl, tt) }

abbrev pub has_command : MultiSocket
has_command = record one {
  curr_sockfd = pos 4;
  tcp_sockets = insert (pos 4) arrived one.tcp_sockets;
}

pub has_command-IsSound : IsSound has_command
has_command-IsSound =
    replace-IsSound (record one { curr_sockfd = pos 4 }) one-IsSound (pos 4) empty_socket arrived
      one_lookup arrived-IsValid

pub command_there : lookup (pos 4) has_command.tcp_sockets ≡ some arrived
unfolding lookup insert new_multi
command_there = refl

abbrev asked_world : World
asked_world = record world { multi = has_command }

handle_tcp_app_recv-request_example :
    (w' : World) × (reply : ℕ) × (handle_tcp_app_recv zeroed takes_all (pos 4) asked_world ≡ ok w')
    × (promise (request_on (pos 4) ask) (view broker) ≡ (some reply, view w'.broker))
    × (w'.log ≡ [] ++ told_of (pos 4) ask broker reply)
handle_tcp_app_recv-request_example =
    handle_tcp_app_recv-request zeroed takes_all asked_world ask [] arrived never
      has_command-IsSound command_there refl (inr (inl refl), (omega arith, tt), omega arith)
