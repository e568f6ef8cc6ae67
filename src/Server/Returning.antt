-- ===== src/Server/Returning.antt =====
-- A client that is away while news come, and then comes back.
use tema2_pc_client_server_t.Base.{
  ℕ, ◌≤◌, ◌<◌, ◌≡◌, refl, sym, ◌∙◌, ap, none, some, Option-cases, List, [], ◌∷◌, ◌++◌, arith, inl,
  inr, All, Bool-cases, not, ◌&&◌, ◌==◌, Option, All-append, length, length-take, take, ok,
}
use tema2_pc_client_server_t.Base.Int.{ℤ}
use tema2_pc_client_server_t.Base.Map.{text_key, int_key, lookup, at, at-lookup}
use tema2_pc_client_server_t.Base.Sorted.{text_order, IsSorted}
use tema2_pc_client_server_t.Base.CString.{IsText}
use tema2_pc_client_server_t.Framing
use tema2_pc_client_server_t.Framing.{Memory}
use tema2_pc_client_server_t.App.{generate_tcp_auth_packet}
use tema2_pc_client_server_t.Server.State.{
  connected, Subscriber, default_subscriber, Broker, World, SendAnswer, sends, prints, new_client,
}
use tema2_pc_client_server_t.Server.Commands.{client, authenticate}
use tema2_pc_client_server_t.Server.Handler.{react, handle_packet}
use tema2_pc_client_server_t.Server.Wire.{auth_round_trip}
use tema2_pc_client_server_t.Server.Auth.{IsConnected, authenticate_admits}
use tema2_pc_client_server_t.Server.Refines.{queue-client}
use tema2_pc_client_server_t.Server.Subscribing.{sf_of}
use tema2_pc_client_server_t.Server.Deliveries.{frame, is_on, one_waiting, IsReachable, NeverFails}
use tema2_pc_client_server_t.Server.Deliveries.Away.{
  Packets, ArePublishable, publish_all, all_news, all_kept, kept_of, publish_all-PublishedAll,
}
use tema2_pc_client_server_t.Server.Reconnect.{IsShort, frames, confirm-unloads}

kept_of-IsShort :
    (packet : List ℕ) (s : Subscriber) (o : Option ℕ)
    → IsShort packet
    → All IsShort (kept_of packet s o)
unfolding one_waiting
kept_of-IsShort packet s none h = tt
kept_of-IsShort packet s (some sf) h = elim (Bool-cases (not (is_on s.state) && not (sf == 0))) [
  | inl e ↦ rw e (h, tt)
  | inr e ↦ rw e tt
]

all_kept-IsShort :
    (ps : Packets) (j : List ℕ) (b : Broker) → ArePublishable ps → All IsShort (all_kept ps j b)
unfolding all_kept
all_kept-IsShort [] j b p = tt
all_kept-IsShort ((packet, topic) ∷ ps) j b ((short, _), p) =
    All-append IsShort _ _ (kept_of-IsShort packet (client j b) (sf_of topic j b) short)
      (all_kept-IsShort ps j b p)

IsConnected-state : (id : List ℕ) (b : Broker) → IsConnected id b → (client id b).state ≡ connected
IsConnected-state id b (s, found, on) =
    ap (λ c. c.state) (at-lookup default_subscriber s id b.clients found) ∙ on

state-IsConnected : (id : List ℕ) (b : Broker) → (client id b).state ≡ connected → IsConnected id b
unfolding at default_subscriber
state-IsConnected id b on = elim (Option-cases (lookup id b.clients)) [
  | inl e ↦ ground arith
  | inr (s, e) ↦
      (s, e, sym (ap (λ c. c.state) (at-lookup default_subscriber s id b.clients e)) ∙ on)
]

-- Whoever has just been admitted has this socket and the queue that was kept for it.
pub admitted_client :
    (fd : ℤ) (id : List ℕ) (b : Broker)
    → ¬ IsConnected id b
    → let b' = (authenticate fd id b).1 in
      client (at [] fd b'.ids_map) b'
      ≡ record { sockfd = fd; state = connected; subs_queue = (client id b).subs_queue }
admitted_client fd id b free =
    let b' = (authenticate fd id b).1 in
    let (_, (entry, own, _, _, _)) = authenticate_admits fd id b free in
    ap (λ j. client j b') (at-lookup [] id fd b'.ids_map own)
    ∙ at-lookup default_subscriber _ id b'.clients entry
    ∙ rw (queue-client id b) refl

-- A client with an id of at most 10 bytes that is not connected while packets of news come, one
-- after another, and then authenticates by a socket: the packets are all published, and when the
-- client's packet is handled, the socket gets the confirmation and then all that waited before,
-- followed by those packets, in order and once each, on whose topics the client is subscribed with
-- sf set. It is assumed that the system's `send` does not fail, that this socket and that of every
-- connected client is buffered, that the subscriptions are sorted, and that no packet is longer
-- than 4092 bytes.
pub returning-gets :
    (answer : SendAnswer) (mem : Memory) (ps : Packets) (w : World) (fd : ℤ) (id junk buf : List ℕ)
    (s : Framing.Socket)
    → NeverFails answer
    → ArePublishable ps
    → ((j : List ℕ) → IsReachable w j)
    → ((t : List ℕ) → IsSorted (at [] t w.broker.topic_map))
    → ¬ IsConnected id w.broker
    → All IsShort (client id w.broker).subs_queue
    → lookup fd w.multi.tcp_sockets ≡ some s
    → IsText id
    → length id < 11
    → 12 ≤ length buf
    → (packet : List ℕ) × (generate_tcp_auth_packet (id ++ 0 ∷ junk) buf ≡ ok (packet, 12))
      × (w1 : World) × (publish_all answer ps w ≡ ok w1)
      × (w2 : World) × (handle_packet mem answer fd packet 12 w1 ≡ ok w2)
      × (w2.log
          ≡ (w.log ++ all_news ps w.broker)
            ++ prints (new_client id fd)
              ∷ sends fd (frame (take 12 packet))
              ∷ frames fd ((client id w.broker).subs_queue ++ all_kept ps id w.broker))
unfolding handle_packet react
returning-gets answer mem ps w fd id junk buf s never p r sorted free short found t l k =
    let (w1, ran, d) = publish_all-PublishedAll answer ps w never p r sorted in
    let (packet, made, read, text) = auth_round_trip mem fd id junk buf w1.broker t l k in
    let free1 : ¬ IsConnected id w1.broker = λ c. free (
      state-IsConnected id w.broker
        (sym (ap (λ x. x.state) (d.stored id)) ∙ IsConnected-state id w1.broker c)) in
    let b = (authenticate fd id w1.broker).1 in
    let (type, _) = authenticate_admits fd id w1.broker free1 in
    let mine = admitted_client fd id w1.broker free1 in
    let queue : (client (at [] fd b.ids_map) b).subs_queue
        ≡ (client id w.broker).subs_queue ++ all_kept ps id w.broker =
      ap (λ c. c.subs_queue) mine ∙ ap (λ c. c.subs_queue) (d.stored id) in
    let unloaded =
      confirm-unloads answer fd packet id 12 (record w1 { broker = b }) s never text
        (omega (arith, length-take 12 packet)) (rw (d.multi) found) (ap (λ c. c.sockfd) mine)
        (rw queue (All-append IsShort _ _ short (all_kept-IsShort ps id w.broker p))) in
    (
      packet,
      made,
      w1,
      ran,
      record w1 {
        broker = b;
        log =
            w1.log
            ++ prints (new_client id fd)
              ∷ sends fd (frame (take 12 packet))
              ∷ frames fd (client (at [] fd b.ids_map) b).subs_queue;
      },
      rw (read, type) unloaded,
      rw (d.sent, queue) refl,
    )
