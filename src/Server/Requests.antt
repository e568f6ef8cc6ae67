-- ===== src/Server/Requests.antt =====
-- The requests of clients, and what `handle_packet` does with the packets that carry them.
use tema2_pc_client_server_t.Base.{
  ℕ, ◌+◌, ◌-◌, ◌≤◌, ◌<◌, ◌≡◌, refl, ◌∙◌, ap, none, some, Option, List, [], ◌∷◌, ◌++◌, append_assoc,
  arith, inl, inr, All, length, length-append, length-take, take, take-append, ok, ◌==◌,
  if◌then◌else◌,
}
use tema2_pc_client_server_t.Base.Int.{ℤ}
use tema2_pc_client_server_t.Base.Map.{text_key, int_key, lookup}
use tema2_pc_client_server_t.Base.CString.{IsText, nuls, length-nuls, nuls_pos, c_str, c_str_text}
use tema2_pc_client_server_t.Framing
use tema2_pc_client_server_t.Framing.{Memory}
use tema2_pc_client_server_t.App.{type_auth, type_auth_duplicate, type_not_auth}
use tema2_pc_client_server_t.Server.State.{
  Broker, World, SendAnswer, Event, sends, closes, prints, new_client, already_connected,
}
use tema2_pc_client_server_t.Server.Commands.{
  client, authenticate, command, process_tcp_client_packet,
}
use tema2_pc_client_server_t.Server.Handler.{react, handle_packet}
use tema2_pc_client_server_t.Server.Wire.{IsCommand, read_auth, read_command}
use tema2_pc_client_server_t.Server.Auth.{IsConnected, authenticate_admits, authenticate_duplicate}
use tema2_pc_client_server_t.Server.Linked.{IsConnected-cases}
use tema2_pc_client_server_t.Server.Subscribing.{Commands, command-Commands}
use tema2_pc_client_server_t.Server.Abstract.{Request, logs_in, asks}
use tema2_pc_client_server_t.Server.Deliveries.{frame, NeverFails}
use tema2_pc_client_server_t.Server.Reconnect.{IsShort, frames, confirm-unloads}
use tema2_pc_client_server_t.Server.Declining.{declined, decline-closes}
use tema2_pc_client_server_t.Server.Returning.{admitted_client}

-- What a client asks for in a packet, the packet, and the request that it is on a socket.
pub data Ask : Type 0 where
  login : List ℕ → Ask
  commands : ℕ → List ℕ → Ask

abbrev pub packet_for : Ask → List ℕ
packet_for (login id) = type_auth ∷ (id ++ nuls (11 - length id))
packet_for (commands type topic) = type ∷ topic

abbrev pub request_on : ℤ → Ask → Request
request_on fd (login id) = logs_in fd id
request_on fd (commands type topic) = asks type fd topic

pub command_lem :
    (mem : Memory) (answer : SendAnswer) (fd : ℤ) (type : ℕ) (topic tail : List ℕ) (w : World)
    → IsCommand type
    → IsText topic
    → length topic ≤ 50
    → (reply : ℕ) × (b : Broker) × (command type fd (ok topic) w.broker ≡ ok (reply, b))
      × (handle_packet mem answer fd (type ∷ (topic ++ tail)) (1 + length topic) w
          ≡ ok (record w { broker = b }))
unfolding handle_packet react
command_lem mem answer fd type topic tail w c t l =
    go (lookup fd w.broker.ids_map) (command-Commands type fd topic w.broker c)
  where
    go :
        (o : Option (List ℕ))
        → Commands type topic w.broker o (command type fd (ok topic) w.broker)
        → (reply : ℕ) × (b : Broker) × (command type fd (ok topic) w.broker ≡ ok (reply, b))
          × (handle_packet mem answer fd (type ∷ (topic ++ tail)) (1 + length topic) w
              ≡ ok (record w { broker = b }))
    go none ran = (
      type_not_auth,
      w.broker,
      ran,
      rw (read_command mem fd type topic tail w.broker c t l, ran) refl,
    )
    go (some id) (b, ran, _, _, _, _) =
        (type, b, ran, rw (read_command mem fd type topic tail w.broker c t l, ran) (quiet b c))
      where
        quiet :
            (b : Broker)
            → IsCommand type
            → react answer fd
                (type ∷ (topic ++ tail))
                (1 + length topic)
                type
                (record w { broker = b })
              ≡ ok (record w { broker = b })
        quiet b (inl e) = rw e refl
        quiet b (inr (inl e)) = rw e refl
        quiet b (inr (inr e)) = rw e refl

-- What the server sends, closes and prints for a login, by what is known of its id.
abbrev pub told : ℤ → List ℕ → Broker → ℕ → List Event
told fd id b reply =
    if reply == type_auth
    then prints (new_client id fd)
      ∷ sends fd (frame (packet_for (login id)))
      ∷ frames fd (client id b).subs_queue
    else prints (already_connected id)
      ∷ sends fd (frame (type_auth_duplicate ∷ []))
      ∷ closes fd
      ∷ []

text_lem :
    (id tail : List ℕ)
    → IsText id
    → length id < 11
    → c_str ((id ++ nuls (11 - length id)) ++ tail) ≡ ok id
text_lem id tail t l =
    rw (append_assoc id (nuls (11 - length id)) tail, nuls_pos (11 - length id) (omega arith))
      (c_str_text id _ t)

module _ (mem : Memory) (answer : SendAnswer) (fd : ℤ) (id tail : List ℕ) (w : World)
    (s : Framing.Socket) (never : NeverFails answer) (t : IsText id) (l : length id < 11)
    (found : lookup fd w.multi.tcp_sockets ≡ some s) where
  abbrev pub buffer : List ℕ
  buffer = type_auth ∷ ((id ++ nuls (11 - length id)) ++ tail)

  -- A login that has been handled.
  abbrev pub LoggedIn : Type 0
  LoggedIn =
      (w' : World) × (handle_packet mem answer fd buffer 12 w ≡ ok w')
      × (authenticate fd id w.broker ≡ ((authenticate fd id w.broker).0, w'.broker))
      × (w'.log ≡ w.log ++ told fd id w.broker (authenticate fd id w.broker).0)

  read_lem : process_tcp_client_packet mem fd buffer 12 w.broker ≡ ok (authenticate fd id w.broker)
  read_lem = read_auth mem fd id tail (11 - length id) w.broker t (omega arith) (omega arith)

  duplicate-LoggedIn : IsConnected id w.broker → LoggedIn
  unfolding handle_packet react
  duplicate-LoggedIn c =
      let same = authenticate_duplicate fd id w.broker c in
      let (ran, _) =
        decline-closes answer fd buffer id w s (text_lem id tail t l) (omega arith) found in
      (declined fd id w, rw (read_lem, same) ran, rw same refl, rw same refl)

  front : take 12 buffer ≡ packet_for (login id)
  front = ap (◌∷◌ type_auth) (
      take-append 11 (id ++ nuls (11 - length id)) tail
        (omega (arith, length-append id (nuls (11 - length id)), length-nuls (11 - length id))))

  -- The state behind a login that has been admitted.
  abbrev pub after_login : World
  after_login = record w {
    broker = (authenticate fd id w.broker).1;
    log =
        w.log
        ++ prints (new_client id fd)
          ∷ sends fd (frame (packet_for (login id)))
          ∷ frames fd (client id w.broker).subs_queue;
  }

  pub admitted_lem :
      ¬ IsConnected id w.broker
      → All IsShort (client id w.broker).subs_queue
      → handle_packet mem answer fd buffer 12 w ≡ ok after_login
  unfolding handle_packet react
  admitted_lem free short =
      let (type, _) = authenticate_admits fd id w.broker free in
      let b = (authenticate fd id w.broker).1 in
      let mine = admitted_client fd id w.broker free in
      let unloaded =
        confirm-unloads answer fd buffer id 12 (record w { broker = b }) s never
          (text_lem id tail t l) (omega (arith, length-take 12 buffer)) found
          (ap (λ c. c.sockfd) mine) (rw (ap (λ c. c.subs_queue) mine) short) in
      rw (read_lem, type)
        (unloaded
          ∙ rw (ap (λ c. c.subs_queue) mine) (
              ap
                (λ p. ok (record w {
                  broker = b;
                  log =
                      w.log
                      ++ prints (new_client id fd)
                        ∷ sends fd (frame p)
                        ∷ frames fd (client id w.broker).subs_queue;
                }))
                front))

  admitted-LoggedIn :
      ¬ IsConnected id w.broker → All IsShort (client id w.broker).subs_queue → LoggedIn
  admitted-LoggedIn free short =
      let (type, _) = authenticate_admits fd id w.broker free in
      (after_login, admitted_lem free short, refl, rw type refl)

  pub login_lem : All IsShort (client id w.broker).subs_queue → LoggedIn
  login_lem short = elim (IsConnected-cases id w.broker) [
    | inl c ↦ duplicate-LoggedIn c
    | inr free ↦ admitted-LoggedIn free short
  ]
