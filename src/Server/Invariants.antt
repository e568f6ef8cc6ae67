-- ===== src/Server/Invariants.antt =====
-- What every run of the server keeps of its maps: that sockets and ids are linked, and that each map
-- holds its keys in order.
use tema2_pc_client_server_t.Base.{
  ℕ, ◌≡◌, refl, sym, ◌∙◌, ap, some, List, [], ◌∷◌, ◌++◌, arith, inl, inr, Bool-cases, ok,
}
use tema2_pc_client_server_t.Base.Int.{ℤ}
use tema2_pc_client_server_t.Base.Map.{
  text_key, int_key, same_text, same_text_iff, lookup, insert, at, contains, lookup-insert,
  lookup-touch, at-insert, at-touch,
}
use tema2_pc_client_server_t.Base.Sorted.{
  text_order, int_order, IsSorted, insert-IsSorted, erase-IsSorted, touch-IsSorted, if-IsSorted,
}
use tema2_pc_client_server_t.Framing.{Memory}
use tema2_pc_client_server_t.Server.State.{
  State, connected, disconnected, Subscriber, new_subscriber, default_subscriber, Broker,
  Subscriptions,
}
use tema2_pc_client_server_t.Server.Commands.{
  ensure_client, client, connect_client, admit, authenticate, subscribe, unsubscribe,
  process_tcp_client_packet,
}
use tema2_pc_client_server_t.Server.Delivery.{store, touch_client, touch_topic}
use tema2_pc_client_server_t.Server.Handler.{forget_socket}
use tema2_pc_client_server_t.Server.Linked.{
  IsLinked, authenticate-IsLinked, subscribe-IsLinked, unsubscribe-IsLinked, forget_socket-IsLinked,
}
use tema2_pc_client_server_t.Server.Kept.{Kept}
use tema2_pc_client_server_t.Server.Processing.{process-Links}

-- A client that is stored under the state and the socket that it has, or entered, unconnected.
keep-IsLinked :
    (b b' : Broker)
    → b'.ids_map ≡ b.ids_map
    → ((j : List ℕ) (s : Subscriber)
        → lookup j b.clients ≡ some s
        → (t : Subscriber) × (lookup j b'.clients ≡ some t)
          × (t.state ≡ s.state)
          × (t.sockfd ≡ s.sockfd))
    → IsLinked b
    → IsLinked b'
keep-IsLinked b b' ids kept l fd id ne e =
    let (s, found, on, at_fd) = l fd id ne (ap (lookup fd) (sym ids) ∙ e) in
    let (t, found', state, sockfd) = kept id s found in (t, found', state ∙ on, sockfd ∙ at_fd)

pub touch_client-IsLinked : (id : List ℕ) (b : Broker) → IsLinked b → IsLinked (touch_client id b)
unfolding touch_client at
touch_client-IsLinked id b = keep-IsLinked b (touch_client id b) refl (λ j s found. (
  s,
  ground (arith, lookup-touch default_subscriber j id b.clients, same_text_iff id j, found),
  refl,
  refl,
))

pub store-IsLinked : (packet id : List ℕ) (b : Broker) → IsLinked b → IsLinked (store packet id b)
unfolding store at
store-IsLinked packet id b = keep-IsLinked b (store packet id b) refl (λ j s found.
    elim (Bool-cases (same_text id j)) [
      | inl same ↦ (
        record (client id b) { subs_queue = (client id b).subs_queue ++ packet ∷ [] },
        ground (
          arith,
          lookup-insert j id
              (record (client id b) { subs_queue = (client id b).subs_queue ++ packet ∷ [] })
              b.clients,
          same,
        ),
        ground (arith, same_text_iff id j, found, same),
        ground (arith, same_text_iff id j, found, same),
      )
      | inr other ↦ (
        s,
        ground (
          arith,
          lookup-insert j id
              (record (client id b) { subs_queue = (client id b).subs_queue ++ packet ∷ [] })
              b.clients,
          other,
          found,
        ),
        refl,
        refl,
      )
    ])

pub nobody-IsLinked : IsLinked (record { topic_map = []; clients = []; ids_map = [] })
nobody-IsLinked fd id ne e = unfold lookup in cc

pub touch_topic-IsLinked :
    (topic : List ℕ) (b : Broker) → IsLinked b → IsLinked (touch_topic topic b)
unfolding touch_topic
touch_topic-IsLinked topic b l = l

abbrev pub linked : Kept
linked = record {
  Holds_in = IsLinked;
  at_start = nobody-IsLinked;
  by_authenticate = authenticate-IsLinked;
  by_subscribe = subscribe-IsLinked;
  by_unsubscribe = unsubscribe-IsLinked;
  by_touch_client = touch_client-IsLinked;
  by_touch_topic = touch_topic-IsLinked;
  by_store = store-IsLinked;
  by_forget_socket = forget_socket-IsLinked;
}

-- Whatever a client sends, the maps stay linked: when a packet has been processed, each socket that
-- has an id, other than the empty one, is still the one socket of a client that is connected.
pub process_tcp_client_packet-IsLinked :
    (mem : Memory) (fd : ℤ) (buf : List ℕ) (size type : ℕ) (b b' : Broker)
    → IsLinked b
    → process_tcp_client_packet mem fd buf size b ≡ ok (type, b')
    → IsLinked b'
process_tcp_client_packet-IsLinked mem fd buf size type b b' l =
    process-Links linked mem fd buf size b l (type, b')

-- The three maps, and the subscriptions to each topic.
abbrev pub AreSorted : Broker → Type 0
AreSorted b =
    IsSorted b.clients
    × IsSorted b.ids_map
    × IsSorted b.topic_map
    × ((topic : List ℕ) → IsSorted (at [] topic b.topic_map))

ensure_client-AreSorted : (id : List ℕ) (b : Broker) → AreSorted b → AreSorted (ensure_client id b)
unfolding ensure_client
ensure_client-AreSorted id b (c, i, t, ts) = (
  if-IsSorted (contains id b.clients) _ _ c (insert-IsSorted id new_subscriber b.clients c),
  i,
  t,
  ts,
)

connect_client-AreSorted :
    (fd : ℤ) (id : List ℕ) (b : Broker) → AreSorted b → AreSorted (connect_client fd id b)
unfolding connect_client
connect_client-AreSorted fd id b (c, i, t, ts) =
    (insert-IsSorted id _ b.clients c, insert-IsSorted fd id b.ids_map i, t, ts)

pub authenticate-AreSorted :
    (fd : ℤ) (id : List ℕ) (b : Broker) → AreSorted b → AreSorted (authenticate fd id b).1
unfolding authenticate admit
authenticate-AreSorted fd id b s = go (client id (ensure_client id b)).state
  where
    go : (x : State) → AreSorted (admit fd id (ensure_client id b) x).1
    go connected = ensure_client-AreSorted id b s
    go disconnected =
        connect_client-AreSorted fd id (ensure_client id b) (ensure_client-AreSorted id b s)

-- New subscriptions to one topic.
pub resubscribed :
    (topic : List ℕ) (subs : Subscriptions) (b : Broker)
    → IsSorted subs
    → AreSorted b
    → AreSorted (record b { topic_map = insert topic subs b.topic_map })
resubscribed topic subs b s (c, i, t, ts) = (
  c,
  i,
  insert-IsSorted topic subs b.topic_map t,
  λ u.
      rw (at-insert [] subs u topic b.topic_map)
        (if-IsSorted (same_text topic u) subs (at [] u b.topic_map) s (ts u)),
)

pub nobody-AreSorted : AreSorted (record { topic_map = []; clients = []; ids_map = [] })
unfolding at lookup
nobody-AreSorted = (tt, tt, tt, λ topic. tt)

pub subscribe-AreSorted :
    (sf : ℕ) (topic id : List ℕ) (b : Broker) → AreSorted b → AreSorted (subscribe sf topic id b)
unfolding subscribe
subscribe-AreSorted sf topic id b s = resubscribed topic _ b (insert-IsSorted id sf _ (s.3 topic)) s

pub unsubscribe-AreSorted :
    (topic id : List ℕ) (b : Broker) → AreSorted b → AreSorted (unsubscribe topic id b)
unfolding unsubscribe
unsubscribe-AreSorted topic id b s = resubscribed topic _ b (erase-IsSorted id _ (s.3 topic)) s

pub touch_client-AreSorted :
    (id : List ℕ) (b : Broker) → AreSorted b → AreSorted (touch_client id b)
unfolding touch_client
touch_client-AreSorted id b (c, i, t, ts) =
    (touch-IsSorted default_subscriber id b.clients c, i, t, ts)

pub touch_topic-AreSorted :
    (topic : List ℕ) (b : Broker) → AreSorted b → AreSorted (touch_topic topic b)
unfolding touch_topic
touch_topic-AreSorted topic b (c, i, t, ts) =
    (c, i, touch-IsSorted [] topic b.topic_map t, λ u. rw (at-touch [] u topic b.topic_map) (ts u))

pub store-AreSorted :
    (packet id : List ℕ) (b : Broker) → AreSorted b → AreSorted (store packet id b)
unfolding store
store-AreSorted packet id b (c, i, t, ts) = (insert-IsSorted id _ b.clients c, i, t, ts)

pub forget_socket-AreSorted : (fd : ℤ) (b : Broker) → AreSorted b → AreSorted (forget_socket fd b)
unfolding forget_socket
forget_socket-AreSorted fd b (c, i, t, ts) =
    (insert-IsSorted _ _ b.clients c, erase-IsSorted fd b.ids_map i, t, ts)

abbrev pub sorted : Kept
sorted = record {
  Holds_in = AreSorted;
  at_start = nobody-AreSorted;
  by_authenticate = authenticate-AreSorted;
  by_subscribe = subscribe-AreSorted;
  by_unsubscribe = unsubscribe-AreSorted;
  by_touch_client = touch_client-AreSorted;
  by_touch_topic = touch_topic-AreSorted;
  by_store = store-AreSorted;
  by_forget_socket = forget_socket-AreSorted;
}

-- Both.
abbrev pub linked_and_sorted : Kept
linked_and_sorted = record {
  Holds_in = λ b. IsLinked b × AreSorted b;
  at_start = (linked.at_start, sorted.at_start);
  by_authenticate =
      λ fd id b (l, s). (linked.by_authenticate fd id b l, sorted.by_authenticate fd id b s);
  by_subscribe = λ sf topic id b (l, s).
      (linked.by_subscribe sf topic id b l, sorted.by_subscribe sf topic id b s);
  by_unsubscribe =
      λ topic id b (l, s). (linked.by_unsubscribe topic id b l, sorted.by_unsubscribe topic id b s);
  by_touch_client = λ id b (l, s). (linked.by_touch_client id b l, sorted.by_touch_client id b s);
  by_touch_topic =
      λ topic b (l, s). (linked.by_touch_topic topic b l, sorted.by_touch_topic topic b s);
  by_store = λ packet id b (l, s). (linked.by_store packet id b l, sorted.by_store packet id b s);
  by_forget_socket =
      λ fd b (l, s). (linked.by_forget_socket fd b l, sorted.by_forget_socket fd b s);
}
