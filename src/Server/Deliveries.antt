-- ===== src/Server/Deliveries.antt =====
-- What `send_news_to_subscribers` delivers, and what it stores.
pub mod All
pub mod Away
use tema2_pc_client_server_t.Base.{
  ℕ, ◌≤◌, ◌≡◌, ◌≢◌, refl, sym, ◌∙◌, ap, subst, Bool, true, false, Bool-cases, not, ◌&&◌, Option,
  none, some, Option-cases, List, [], ◌∷◌, ◌++◌, append-nil, append_assoc, arith, length, ◌⊎◌, inl,
  inr, Outcome, ok, die, ◌>>=◌, ◌==◌, if◌then◌else◌,
}
use tema2_pc_client_server_t.Base.Int.{ℤ, minus_one, is_neg}
use tema2_pc_client_server_t.Base.Words.{word_bytes, swap32}
use tema2_pc_client_server_t.Base.Map.{
  text_key, int_key, same_text, same_text_iff, lookup, insert, at, touch, at-insert, at-touch,
}
use tema2_pc_client_server_t.Framing
use tema2_pc_client_server_t.Framing.RoundTrip.{send_lem}
use tema2_pc_client_server_t.Multi
use tema2_pc_client_server_t.App.News.{get_news_topic}
use tema2_pc_client_server_t.Server.State.{
  State, connected, disconnected, Subscriber, default_subscriber, Broker, Subscriptions, World,
  SendAnswer, Event, sends, note, multi_send,
}
use tema2_pc_client_server_t.Server.Commands.{client}
use tema2_pc_client_server_t.Server.Delivery.{
  send_packet_to_sub, store, touch_client, touch_topic, deliver_by, deliver_one, deliver_all,
  send_news_to_subscribers,
}

-- The frame of a packet on the stream.
abbrev pub frame : List ℕ → List ℕ
frame packet = word_bytes 4 (swap32 (length packet)) ++ packet

abbrev pub is_on : State → Bool
is_on connected = true
is_on disconnected = false

-- What a subscriber is sent, and what it has stored.
unfoldable pub one_event : List ℕ → Subscriber → List Event
one_event packet s = if is_on s.state then sends s.sockfd (frame packet) ∷ [] else []

unfoldable pub one_waiting : List ℕ → ℕ → Subscriber → List (List ℕ)
one_waiting packet sf s = if not (is_on s.state) && not (sf == 0) then packet ∷ [] else []

-- The frames that go out, one for each subscriber that is connected.
unfoldable pub news : List ℕ → Broker → Subscriptions → List Event
news packet b [] = []
news packet b ((id, sf) ∷ rest) = one_event packet (client id b) ++ news packet b rest

-- What is stored for `j`: the packet, for each subscription with sf set, if it is not connected.
unfoldable pub waiting : List ℕ → Broker → List ℕ → Subscriptions → List (List ℕ)
waiting packet b j [] = []
waiting packet b j ((id, sf) ∷ rest) =
    (if same_text id j then one_waiting packet sf (client id b) else []) ++ waiting packet b j rest

-- The state after the packet has gone to those in `subs`.
pub record Delivered (packet : List ℕ) (subs : Subscriptions) (w w' : World) : Type 0 where
  pub sent : w'.log ≡ w.log ++ news packet w.broker subs
  pub stored :
      (j : List ℕ)
      → client j w'.broker ≡ record (client j w.broker) {
        subs_queue = (client j w.broker).subs_queue ++ waiting packet w.broker j subs;
      }
  pub multi : w'.multi ≡ w.multi
  pub topics : w'.broker.topic_map ≡ w.broker.topic_map
  pub ids : w'.broker.ids_map ≡ w.broker.ids_map

-- Whoever is connected has a buffered socket.
abbrev pub IsReachable : World → List ℕ → Type 0
IsReachable w id =
    (client id w.broker).state ≡ connected
    → (s : Framing.Socket) × (lookup (client id w.broker).sockfd w.multi.tcp_sockets ≡ some s)

-- The system's `send` does not fail.
abbrev pub NeverFails : SendAnswer → Type 0
NeverFails answer =
    (log : List Event) (fd : ℤ) (bytes : List ℕ) → is_neg (answer log fd bytes) ≡ false

pub send_packet_to_sub_lem :
    (answer : SendAnswer) (fd : ℤ) (packet : List ℕ) (w : World) (s : Framing.Socket)
    → NeverFails answer
    → length packet ≤ 4092
    → lookup fd w.multi.tcp_sockets ≡ some s
    → send_packet_to_sub answer fd packet w ≡ ok (note (sends fd (frame packet)) w)
unfolding send_packet_to_sub multi_send Multi.send
send_packet_to_sub_lem answer fd packet w s never h e =
    ground (arith, send_lem packet h, never w.log fd (frame packet), e)

client-touch_client : (id j : List ℕ) (b : Broker) → client j (touch_client id b) ≡ client j b
unfolding touch_client
client-touch_client id j b = at-touch default_subscriber j id b.clients

client-store :
    (packet id j : List ℕ) (b : Broker)
    → client j (store packet id b) ≡ (
        if same_text id j
        then record (client id b) { subs_queue = (client id b).subs_queue ++ packet ∷ [] }
        else client j b)
unfolding store
client-store packet id j b =
    at-insert default_subscriber
      (record (client id b) { subs_queue = (client id b).subs_queue ++ packet ∷ [] }) j id b.clients

deliver_one_on :
    (answer : SendAnswer) (packet id : List ℕ) (sf : ℕ) (w : World)
    → NeverFails answer
    → length packet ≤ 4092
    → IsReachable w id
    → (client id w.broker).state ≡ connected
    → deliver_one answer packet id sf w
      ≡ ok (
          note
            (sends (client id w.broker).sockfd (frame packet))
            (record w { broker = touch_client id w.broker }))
unfolding deliver_one deliver_by
deliver_one_on answer packet id sf w never l r on =
    let (s, found) = r on in
    let w' : World = record w { broker = touch_client id w.broker } in
    let same : client id w'.broker ≡ client id w.broker = client-touch_client id id w.broker in
    ap (deliver_by answer packet id sf w') (ap (λ c. c.state) same ∙ on)
    ∙ ap (λ c. send_packet_to_sub answer c.sockfd packet w') same
    ∙ send_packet_to_sub_lem answer (client id w.broker).sockfd packet w' s never l found

deliver_one_off :
    (answer : SendAnswer) (packet id : List ℕ) (sf : ℕ) (w : World)
    → (client id w.broker).state ≡ disconnected
    → deliver_one answer packet id sf w
      ≡ ok (record w {
        broker =
            if sf == 0
            then touch_client id w.broker
            else store packet id (touch_client id w.broker);
      })
unfolding deliver_one deliver_by
deliver_one_off answer packet id sf w off =
    let w' : World = record w { broker = touch_client id w.broker } in
    ap (deliver_by answer packet id sf w')
      (ap (λ c. c.state) (client-touch_client id id w.broker) ∙ off)
    ∙ elim (Bool-cases (sf == 0)) [
      | inl e ↦ rw (e, deliver_by) refl
      | inr e ↦ rw (e, deliver_by) refl
    ]

pub deliver_one-Delivered :
    (answer : SendAnswer) (packet id : List ℕ) (sf : ℕ) (w : World)
    → NeverFails answer
    → length packet ≤ 4092
    → IsReachable w id
    → (w' : World) × (deliver_one answer packet id sf w ≡ ok w')
      × Delivered packet ((id, sf) ∷ []) w w'
unfolding news waiting one_event one_waiting touch_client store
deliver_one-Delivered answer packet id sf w never l r = go (client id w.broker).state refl
  where
    go :
        (x : State)
        → (client id w.broker).state ≡ x
        → (w' : World) × (deliver_one answer packet id sf w ≡ ok w')
          × Delivered packet ((id, sf) ∷ []) w w'
    go connected on = (
      _,
      deliver_one_on answer packet id sf w never l r on,
      record {
        sent = ground (arith, on);
        stored = λ j. ground (
          arith,
          on,
          client-touch_client id j w.broker,
          append-nil (client j w.broker).subs_queue,
        );
        multi = refl;
        topics = refl;
        ids = refl;
      },
    )
    go disconnected off = (
      _,
      deliver_one_off answer packet id sf w off,
      record {
        sent = ground (arith, off, append-nil w.log);
        stored = λ j. ground (
          arith,
          off,
          same_text_iff id j,
          client-touch_client id j w.broker,
          client-touch_client id id w.broker,
          client-store packet id j (touch_client id w.broker),
          append-nil (client j w.broker).subs_queue,
        );
        multi = refl;
        topics = ground arith;
        ids = ground arith;
      },
    )
