-- ===== src/Server/Tests/Session.antt =====
-- A session: a command, then "exit".
use tema2_pc_client_server_t.Base.{
  ◌≡◌, refl, sym, ◌∙◌, subst, true, [], ◌∷◌, arith, inl, inr, Bool, Outcome, ok,
}
use tema2_pc_client_server_t.Base.Int.{pos}
use tema2_pc_client_server_t.Base.Map.{text_key, int_key, lookup, insert, contains, at}
use tema2_pc_client_server_t.Base.Words.{memcpy, write_at}
use tema2_pc_client_server_t.Base.CString.{c_str}
use tema2_pc_client_server_t.Framing
use tema2_pc_client_server_t.Server.Commands.{subscribe, process_tcp_client_packet}
use tema2_pc_client_server_t.Server.Handler.{handle_tcp_app_recv}
use tema2_pc_client_server_t.Multi.{
  MultiSocket, sock_tcp, new_multi, get_next_fd, skim, has_packet, recv, select, scan, scan_from,
  scan_fd, fd_unbuffered,
}
use tema2_pc_client_server_t.Server.State.{World}
use tema2_pc_client_server_t.Server.Main.{Input, await_fd, round, round_for, dropped, serve}
use tema2_pc_client_server_t.Server.Abstract.{asked_for, view, foretell_all}
use tema2_pc_client_server_t.Server.Requests.{request_on}
use tema2_pc_client_server_t.Server.Simulation.{request}
use tema2_pc_client_server_t.Server.Session.{Session, exits, goes_on, serve-foretell_all}
use tema2_pc_client_server_t.Server.Tests.{takes_all, id_a, id_b, topic_t, world, broker, never}
use tema2_pc_client_server_t.Server.Tests.Receiving.{
  ask, arrived, has_command, has_command-IsSound, command_there,
}
use tema2_pc_client_server_t.Server.Tests.Sequences.{broker-AreSorted}
use tema2_pc_client_server_t.Server.Tests.Runs.{input_on}

abbrev queued : MultiSocket
queued = record has_command { sock_queue = record { fd = pos 4; kind = sock_tcp } ∷ [] }

abbrev waited : MultiSocket
waited = record queued { current_fd_type = sock_tcp }

abbrev full : World
full = record world { multi = queued }

awaited : await_fd (input_on (pos 0)) queued ≡ ok (pos 4, waited)
unfolding await_fd get_next_fd skim has_packet lookup insert new_multi Framing.packet_ready
awaited = refl

-- Behind the command: `A` is subscribed with sf.
abbrev subscribed : World
subscribed = record world {
  multi = record waited { tcp_sockets = insert (pos 4) (record arrived { packet_queue = [] }) [] };
  broker = record broker { topic_map = (topic_t, (id_a, 1) ∷ (id_b, 1) ∷ []) ∷ [] };
}

round_ok : round takes_all (input_on (pos 0)) full ≡ ok (true, subscribed)
unfolding round round_for await_fd get_next_fd skim has_packet lookup insert new_multi
    Framing.packet_ready handle_tcp_app_recv recv Framing.write_packet memcpy
    process_tcp_client_packet write_at c_str subscribe contains at dropped
round_ok = refl

abbrev stopping : MultiSocket
stopping = record subscribed.multi {
  curr_sockfd = pos 0;
  current_fd_type = fd_unbuffered;
  sock_queue = [];
}

stops : await_fd (input_on (pos 0)) subscribed.multi ≡ ok (pos 0, stopping)
unfolding await_fd get_next_fd select scan scan_from scan_fd skim has_packet lookup insert new_multi
    Framing.packet_ready
stops = refl

abbrev typed_exit : Input
typed_exit = input_on (pos 0)

goes_there : (w' : World) → round takes_all typed_exit full ≡ ok (true, w') → subscribed ≡ w'
goes_there w' e =
    let same : ◌≡◌ {A = Outcome (Bool × World)} (ok (true, subscribed)) (ok (true, w')) =
      sym round_ok ∙ e in
    cc

session :
    Session takes_all (typed_exit ∷ typed_exit ∷ []) full (asked_for (request_on (pos 4) ask) ∷ [])
session =
    goes_on typed_exit (typed_exit ∷ []) full (asked_for (request_on (pos 4) ask) ∷ []) []
      ((λ fd. tt), tt)
      (request (pos 4) waited ask [] arrived (awaited, refl, refl) command_there refl
        (inr (inl refl), (omega arith, tt), omega arith))
      (λ w' e.
        subst (λ w. Session takes_all (typed_exit ∷ []) w []) (goes_there w' e)
          (exits typed_exit [] subscribed stopping stops refl))

serve-foretell_all_example :
    (w' : World) × (serve takes_all (typed_exit ∷ typed_exit ∷ []) full ≡ ok w')
    × (view w'.broker ≡ (foretell_all (asked_for (request_on (pos 4) ask) ∷ []) (view broker)).1)
serve-foretell_all_example =
    serve-foretell_all takes_all (typed_exit ∷ typed_exit ∷ []) full
      (asked_for (request_on (pos 4) ask) ∷ []) session never
      (has_command-IsSound, broker-AreSorted)
