-- ===== src/Server/Receiving.antt =====
-- The requests of clients as the server receives them: `handle_tcp_app_recv` on the packets of
-- BufferedTcpSocket.
use tema2_pc_client_server_t.Base.{
  ℕ, ◌+◌, ◌-◌, ◌≤◌, ◌<◌, ◌≡◌, refl, sym, ◌∙◌, ap, Option, some, List, [], ◌∷◌, ◌++◌, append-nil,
  arith, inl, inr, All, length, length-append, length-replicate, replicate, drop, take-append-drop,
  ok,
}
use tema2_pc_client_server_t.Base.Int.{ℤ}
use tema2_pc_client_server_t.Base.Map.{text_key, int_key, lookup}
use tema2_pc_client_server_t.Base.CString.{IsText, nuls, length-nuls}
use tema2_pc_client_server_t.Framing
use tema2_pc_client_server_t.Framing.{Memory}
use tema2_pc_client_server_t.Framing.Valid.{view}
use tema2_pc_client_server_t.Multi.{MultiSocket}
use tema2_pc_client_server_t.Multi.Invariant.{IsSound}
use tema2_pc_client_server_t.Multi.Next.{recv-packet}
use tema2_pc_client_server_t.Server.State.{Broker, World, SendAnswer, Event}
use tema2_pc_client_server_t.Server.Commands.{client, authenticate}
use tema2_pc_client_server_t.Server.Handler.{handle_packet, handle_tcp_app_recv}
use tema2_pc_client_server_t.Server.Wire.{IsCommand}
use tema2_pc_client_server_t.Server.Abstract.{Request, logs_in, asks, serve_one, promise}
use tema2_pc_client_server_t.Server.Abstract.{view as broker_view}
use tema2_pc_client_server_t.Server.Refines.{IsKnown, serve_one-promise}
use tema2_pc_client_server_t.Server.Deliveries.{NeverFails}
use tema2_pc_client_server_t.Server.Reconnect.{IsShort}
use tema2_pc_client_server_t.Server.Requests.{
  Ask, login, commands, packet_for, request_on, told, command_lem, login_lem,
}

-- The packet is taken out of its socket, and handled.
receive_lem :
    (mem : Memory) (answer : SendAnswer) (w : World) (p : List ℕ) (ps : List (List ℕ))
    (s : Framing.Socket)
    → IsSound w.multi
    → lookup w.multi.curr_sockfd w.multi.tcp_sockets ≡ some s
    → (view s).packets ≡ p ∷ ps
    → length p ≤ 2048
    → (tail : List ℕ) × (m : MultiSocket) × (t : Framing.Socket) × (handle_tcp_app_recv mem answer
          w.multi.curr_sockfd w
        ≡ handle_packet mem answer w.multi.curr_sockfd
            (p ++ tail)
            (length p)
            (record w { multi = m }))
      × (lookup w.multi.curr_sockfd m.tcp_sockets ≡ some t)
      × ((view t).packets ≡ ps)
unfolding handle_tcp_app_recv
receive_lem mem answer w p ps s sound found q l =
    elim (recv-packet w.multi (replicate 2048 0) p ps s sound found q) [
      | inl (short, ran) ↦ absurd (omega (arith, short, length-replicate {A = ℕ} 2048 0))
      | inr (bytes, m, t, ran, front, _, there, _, left) ↦
          let whole : bytes ≡ p ++ drop (length p) bytes =
            sym (take-append-drop (length p) bytes) ∙ ap (λ x. x ++ drop (length p) bytes) front in
          (
            drop (length p) bytes,
            m,
            t,
            rw ran (
                ap
                  (λ x.
                    handle_packet mem answer w.multi.curr_sockfd x (length p)
                      (record w { multi = m }))
                  whole),
            there,
            ap (λ v. v.packets) left,
          )
    ]

-- What the server can be asked for: a login by an id of at most 10 bytes for which no packet of more
-- than 4092 bytes waits, or a command on a topic of at most 50 bytes.
abbrev pub IsReceivable : Broker → Ask → Type 0
IsReceivable b (login id) = IsText id × (length id < 11) × All IsShort (client id b).subs_queue
IsReceivable b (commands type topic) = IsCommand type × IsText topic × (length topic ≤ 50)

-- What the server sends, closes and prints for it, if its reply is this.
abbrev pub told_of : ℤ → Ask → Broker → ℕ → List Event
told_of fd (login id) b reply = told fd id b reply
told_of fd (commands type topic) b reply = []

-- A request that has been served has been answered, and has changed the view, as promised.
pub served-promise :
    (r : Request) (b : Broker) (reply : Option ℕ) (b' : Broker)
    → IsKnown r
    → serve_one r b ≡ ok (reply, b')
    → promise r (broker_view b) ≡ (reply, broker_view b')
served-promise r b reply b' known ran =
    let p = promise r (broker_view b) in
    let (b'', promised, seen) = serve_one-promise r b known in
    let same_reply : p.0 ≡ reply = cc in
    let same : b'' ≡ b' = cc in λ i. (same_reply i, (sym seen ∙ ap broker_view same) i)

-- The packet of a login or a command that is the oldest one of the current socket is served as that
-- request on the abstract broker: the reply, and what the maps then hold, seen as functions, are
-- those that it promises. To a login of an id that is not connected the server sends the packet
-- back and then all that waits for that id, and says so on the console; to one of an id that is
-- connected it sends a packet of one byte, TYPE_AUTH_DUPLICATE, says so, and closes the socket; and
-- for a command it sends nothing, also if the reply is TYPE_NOT_AUTH. It is assumed that the
-- system's `send` does not fail.
pub handle_tcp_app_recv-request :
    (mem : Memory) (answer : SendAnswer) (w : World) (ask : Ask) (ps : List (List ℕ))
    (s : Framing.Socket)
    → NeverFails answer
    → IsSound w.multi
    → lookup w.multi.curr_sockfd w.multi.tcp_sockets ≡ some s
    → (view s).packets ≡ packet_for ask ∷ ps
    → IsReceivable w.broker ask
    → (w' : World) × (reply : ℕ) × (handle_tcp_app_recv mem answer w.multi.curr_sockfd w ≡ ok w')
      × (promise (request_on w.multi.curr_sockfd ask) (broker_view w.broker)
          ≡ (some reply, broker_view w'.broker))
      × (w'.log ≡ w.log ++ told_of w.multi.curr_sockfd ask w.broker reply)
unfolding serve_one
handle_tcp_app_recv-request mem answer w (login id) ps s never sound found q (t, l, short) =
    let fd = w.multi.curr_sockfd in
    let twelve : length (packet_for (login id)) ≡ 12 =
      omega (arith, length-append id (nuls (11 - length id)), length-nuls (11 - length id)) in
    let (tail, m, s', ran, there, _) =
      receive_lem mem answer w (packet_for (login id)) ps s sound found q (omega arith) in
    let (w', ran', same, log) =
      login_lem mem answer fd id tail (record w { multi = m }) s' never t l there short in
    (
      w',
      (authenticate fd id w.broker).0,
      ran
          ∙ ap
              (λ n.
                handle_packet mem answer fd (packet_for (login id) ++ tail) n
                  (record w { multi = m }))
              twelve
          ∙ ran',
      served-promise (logs_in fd id) w.broker _ w'.broker tt (rw same refl),
      log,
    )
handle_tcp_app_recv-request mem answer w (commands type topic) ps s never sound found q (c, t, l) =
    let fd = w.multi.curr_sockfd in
    let size : length (type ∷ topic) ≡ 1 + length topic = omega arith in
    let (tail, m, s', ran, there, _) =
      receive_lem mem answer w (type ∷ topic) ps s sound found q (omega arith) in
    let (reply, b, same, ran') =
      command_lem mem answer fd type topic tail (record w { multi = m }) c t l in
    (
      record w { multi = m; broker = b },
      reply,
      ran
          ∙ ap
              (λ n. handle_packet mem answer fd (type ∷ (topic ++ tail)) n (record w { multi = m }))
              size
          ∙ ran',
      served-promise (asks type fd topic) w.broker (some reply) b c (rw same refl),
      sym (append-nil w.log),
    )
