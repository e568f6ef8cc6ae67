-- ===== src/Client/Tests/Typed.antt =====
-- Runs of the client's loop on lines that are typed.
use tema2_pc_client_server_t.Base.{ℕ, ◌≡◌, refl, some, List, [], ◌∷◌, arith, replicate, ok, fault}
use tema2_pc_client_server_t.Base.Int.{pos}
use tema2_pc_client_server_t.Base.Map.{int_key, lookup, insert}
use tema2_pc_client_server_t.Framing
use tema2_pc_client_server_t.Framing.Tests.{zeroed, empty_socket}
use tema2_pc_client_server_t.Multi.{new_multi}
use tema2_pc_client_server_t.Multi.Tests.{one}
use tema2_pc_client_server_t.App.Tests.{no_doubles, no_news}
use tema2_pc_client_server_t.Client.Main.{Client, Turn, handle_fd}
use tema2_pc_client_server_t.Client.Typed.{handle_fd-empty, handle_fd-end}

abbrev pub user : Client
user = record {
  multi = one;
  sockfd_tcp = pos 4;
  buffer = replicate 300 7;
  type = 0;
  topic = replicate 50 9;
  news = no_news;
  log = [];
}

abbrev pub types : List ℕ → Turn
types bytes = record { memory = zeroed; typed = bytes; answers = []; sent = pos 9 }

pub connection : lookup (pos 4) one.tcp_sockets ≡ some empty_socket
unfolding lookup insert new_multi Framing.new_socket
connection = refl

handle_fd-empty_example :
    (c' : Client) × (handle_fd no_doubles (types (10 ∷ [])) (pos 0) user ≡ ok (some (pos 0), c'))
    × (c'.multi ≡ user.multi)
    × (c'.log ≡ user.log)
handle_fd-empty_example = handle_fd-empty no_doubles (types (10 ∷ [])) user refl (omega arith)

handle_fd-end_example : handle_fd no_doubles (types []) (pos 0) user ≡ fault
handle_fd-end_example = handle_fd-end no_doubles (types []) user refl (omega arith)
