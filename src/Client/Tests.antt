-- ===== src/Client/Tests.antt =====
-- Runs of `parse_subscription_cmd`.
pub mod Typed
mod Joining
mod Rounds
mod Shows
use tema2_pc_client_server_t.Base.{
  ℕ, ◌+◌, ◌≡◌, refl, List, [], ◌∷◌, ◌++◌, arith, length, replicate, ok, fault,
}
use tema2_pc_client_server_t.Base.Int.{pos}
use tema2_pc_client_server_t.Framing.Tests.{zeroed}
use tema2_pc_client_server_t.App.{type_sub_sf, generate_tcp_sub_packet}
use tema2_pc_client_server_t.Server.State.{Broker}
use tema2_pc_client_server_t.Server.Commands.{command, process_tcp_client_packet}
use tema2_pc_client_server_t.Client.{Parsed, subscribe_name, parse_subscription_cmd}
use tema2_pc_client_server_t.Client.Parse.{IsLine, subscribes, line_round_trip, parse-blank}

abbrev pub weather : List ℕ
weather = b'w' ∷ b'e' ∷ b'a' ∷ []

-- subscribe wea 1
abbrev pub line : List ℕ
line = subscribe_name ++ 32 ∷ (weather ++ 32 ∷ b'1' ∷ [])

abbrev array : List ℕ
array = replicate 50 9

abbrev pub nobody : Broker
nobody = record { topic_map = []; clients = []; ids_map = [] }

pub line-IsLine : IsLine line type_sub_sf weather
line-IsLine = subscribes (b'1' ∷ []) (omega arith, ground arith) refl refl

parse-blank_example : parse_subscription_cmd zeroed 0 array ((32 ∷ []) ++ 0 ∷ []) 256 ≡ fault
parse-blank_example = parse-blank zeroed 0 array (32 ∷ []) [] (ground arith) (omega arith)
