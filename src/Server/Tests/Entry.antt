-- ===== src/Server/Tests/Entry.antt =====
-- Runs of the server's `main` from its command line on.
use tema2_pc_client_server_t.Base.{
  ◌%◌, ◌^◌, ◌≡◌, [], ◌∷◌, arith, ok, not, ◌||◌, die, ◌>>=◌, ◌==◌, if◌then◌else◌,
}
use tema2_pc_client_server_t.Base.Int.{pos, is_neg}
use tema2_pc_client_server_t.Base.Argv.{runs}
use tema2_pc_client_server_t.App.Display.{to_string}
use tema2_pc_client_server_t.Server.Main.{serve}
use tema2_pc_client_server_t.Server.Entry.{
  Sockets, any_host, listening, server_main, server_main-port,
}
use tema2_pc_client_server_t.Server.Tests.{takes_all}

-- Only the port 8080 can be bound to.
abbrev sockets : Sockets
sockets = record {
  udp = pos 3;
  udp_bound = λ a. a.sin_port == 36895;
  tcp = pos 4;
  tcp_bound = λ a. a.sin_port == 36895;
}

server_main-port_example : server_main takes_all ((b's' ∷ []) ∷ to_string 8080 ∷ []) sockets [] ≡ (
    if 8080 == 0
      || (is_neg (pos 3)
          || (not (sockets.udp_bound (any_host (8080 % 2 ^ 16)))
              || not (sockets.tcp_bound (any_host (8080 % 2 ^ 16)))))
    then die
    else (serve takes_all [] (listening (pos 3) (pos 4) (any_host (8080 % 2 ^ 16))) >>= λ left.
        ok (runs left)))
server_main-port_example = server_main-port takes_all (b's' ∷ []) 8080 [] sockets [] (omega arith)
