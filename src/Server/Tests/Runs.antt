-- ===== src/Server/Tests/Runs.antt =====
-- Runs of the loop of `main`.
use tema2_pc_client_server_t.Base.{◌≡◌, ◌++◌, refl, true, false, some, [], ◌∷◌, ok}
use tema2_pc_client_server_t.Base.Int.{ℤ, pos, negsuc, eqb}
use tema2_pc_client_server_t.Base.Words.{swap16}
use tema2_pc_client_server_t.Base.Argv.{htons}
use tema2_pc_client_server_t.Base.Map.{lookup, insert}
use tema2_pc_client_server_t.Framing.{failed}
use tema2_pc_client_server_t.Framing.Tests.{zeroed}
use tema2_pc_client_server_t.Multi.{
  MultiSocket, Ready, fd_set, enter, sock_connect, fd_unbuffered, new_multi, multi_on, enable_udp,
  enable_tcp_connections, add_fd, accept, get_next_fd, select, scan, scan_from, scan_fd, skim,
}
use tema2_pc_client_server_t.App.Tests.{sender}
use tema2_pc_client_server_t.Server.State.{World}
use tema2_pc_client_server_t.Server.Main.{
  Input, start, await_fd, on_connection, round_for, round, dropped, serve, finish,
}
use tema2_pc_client_server_t.Multi.Invariant.{IsSound}
use tema2_pc_client_server_t.Server.Linked.{IsLinked}
use tema2_pc_client_server_t.Server.Invariants.{AreSorted}
use tema2_pc_client_server_t.Server.Rounds.{Runs, here, goes_on, Runs-IsSafe}
use tema2_pc_client_server_t.Server.Exit.{Ended, Reads, serve-Ended, serve-Reads}
use tema2_pc_client_server_t.Server.Tests.{takes_all}

-- The server listens on 3 for datagrams and on 4 for connections.
abbrev started : World
started = record {
  multi = record {
    serv_addr = record { s_addr = 0; sin_port = 36895 };
    sockfd_udp = pos 3;
    sockfd_tcp = pos 4;
    curr_sockfd = negsuc 1;
    read_fds = fd_set (pos 0) (fd_set (pos 4) (fd_set (pos 3) (λ x. false)));
    fdmax = pos 4;
    current_fd_type = 0;
    sock_queue = [];
    tcp_sockets = [];
  };
  broker = record { topic_map = []; clients = []; ids_map = [] };
  log = [];
}

-- What arrives on one descriptor only.
abbrev arrives_on : ℤ → Ready
arrives_on fd = record { selected = λ x. eqb fd x; arrives = λ x. failed }

-- Something arrives on `fd`; what is typed is "exit".
abbrev pub input_on : ℤ → Input
input_on fd = record {
  memory = zeroed;
  answers = some (arrives_on fd) ∷ [];
  line = b'e' ∷ b'x' ∷ b'i' ∷ b't' ∷ 10 ∷ [];
  datagram = failed;
  sender = sender;
  accepted = pos 5;
  accept_done = true;
}

-- Behind a connection, on the descriptor 5.
abbrev joined : World
joined = record started {
  multi =
      enter zeroed (pos 5)
        (record started.multi { curr_sockfd = pos 4; current_fd_type = sock_connect });
}

started_ok : start (pos 8080) (pos 3) (λ a. true) (pos 4) (λ a. true) ≡ ok started
unfolding start multi_on new_multi htons swap16 enable_udp enable_tcp_connections add_fd
started_ok = refl

joins : Runs takes_all started joined
unfolding round round_for await_fd get_next_fd select scan scan_from scan_fd on_connection accept
    dropped skim lookup insert
joins = goes_on (input_on (pos 4)) here ((λ fd. tt), tt) refl

Runs-IsSafe_example : IsSound joined.multi × (IsLinked joined.broker × AreSorted joined.broker)
Runs-IsSafe_example =
    Runs-IsSafe takes_all (pos 8080) (pos 3) (λ a. true) (pos 4) (λ a. true) started joined
      started_ok joins

-- The server when "exit" has been typed, before it closes its sockets.
abbrev stopping : MultiSocket
stopping = record started.multi { curr_sockfd = pos 0; current_fd_type = fd_unbuffered }

stops : await_fd (input_on (pos 0)) started.multi ≡ ok (pos 0, stopping)
unfolding await_fd get_next_fd select scan scan_from scan_fd skim lookup
stops = refl

abbrev at_exit : World
at_exit = record started { multi = stopping; log = [] ++ dropped [] stopping }

serve-Reads_example :
    Reads takes_all
      (input_on (pos 0)).line
      []
      at_exit
      (serve takes_all (input_on (pos 0) ∷ []) started)
serve-Reads_example = serve-Reads takes_all (input_on (pos 0)) [] started stopping stops

abbrev stopped : World
stopped = finish at_exit

served : serve takes_all (input_on (pos 0) ∷ []) started ≡ ok stopped
unfolding serve round round_for await_fd get_next_fd select scan scan_from scan_fd skim lookup
served = refl

serve-Ended_example : Ended takes_all started stopped
serve-Ended_example =
    serve-Ended takes_all (input_on (pos 0) ∷ []) started stopped (((λ fd. tt), tt), tt) served
