-- ===== src/Server/History.antt =====
-- Requests and news in any order: the server keeps what Server/Abstract promises.
use tema2_pc_client_server_t.Base.{
  ℕ, ◌≤◌, ◌≡◌, refl, sym, ◌∙◌, ap, subst, Bool-cases, Option, none, some, Option-cases, List, [],
  ◌∷◌, arith, inl, inr, All, length, Holds, Holds-ok, Holds-then, ok, ◌==◌,
}
use tema2_pc_client_server_t.Base.Int.{ℤ}
use tema2_pc_client_server_t.Base.Map.{text_key, int_key, same_text, lookup, at}
use tema2_pc_client_server_t.Framing
use tema2_pc_client_server_t.Multi.{MultiSocket}
use tema2_pc_client_server_t.Multi.Invariant.{IsSound}
use tema2_pc_client_server_t.App.News.{get_news_topic}
use tema2_pc_client_server_t.Server.State.{
  State, connected, disconnected, Subscriber, default_subscriber, Broker, World, SendAnswer,
}
use tema2_pc_client_server_t.Server.Commands.{client, command}
use tema2_pc_client_server_t.Server.Processing.{Links, command-Links}
use tema2_pc_client_server_t.Server.Subscribing.{sf_of}
use tema2_pc_client_server_t.Server.Abstract.{
  Abstract, socket_of, view, Request, logs_in, asks, leaves, serve_one, left_by, logged, obeyed,
  promise, Happening, asked_for, published, happen, happen_all, stored_for, foretell, foretell_all,
}
use tema2_pc_client_server_t.Server.Refines.{agree, IsKnown, serve_one-promise, queue-client}
use tema2_pc_client_server_t.Server.Invariants.{AreSorted, sorted}
use tema2_pc_client_server_t.Server.Safety.{IsSafe, send_news-IsSafe}
use tema2_pc_client_server_t.Server.Deliveries.{one_waiting, waiting, IsReachable, NeverFails}
use tema2_pc_client_server_t.Server.Deliveries.All.{Published, send_news_to_subscribers-Published}
use tema2_pc_client_server_t.Server.Deliveries.Away.{kept_of, waiting-kept_of}

socket-client :
    (id : List ℕ) (b : Broker) → socket_of (some (client id b)) ≡ socket_of (lookup id b.clients)
unfolding socket_of at default_subscriber
socket-client id b = elim (Option-cases (lookup id b.clients)) [
  | inl e ↦ ground arith
  | inr (s, e) ↦ ground arith
]

kept_of-stored_for :
    (packet : List ℕ) (s : Subscriber) (o : Option ℕ)
    → kept_of packet s o ≡ stored_for packet (socket_of (some s)) o
unfolding socket_of one_waiting
kept_of-stored_for packet s o = go s.state refl o
  where
    go :
        (x : State)
        → s.state ≡ x
        → (o : Option ℕ) → kept_of packet s o ≡ stored_for packet (socket_of (some s)) o
    go connected e none = rw (e, socket_of) refl
    go connected e (some sf) = rw (e, socket_of) refl
    go disconnected e none = rw (e, socket_of) refl
    go disconnected e (some sf) = elim (Bool-cases (sf == 0)) [
      | inl z ↦ rw (e, socket_of, z) refl
      | inr z ↦ rw (e, socket_of, z) refl
    ]

-- News change the view as foretold.
pub Published-foretell :
    (packet topic : List ℕ) (w w' : World)
    → AreSorted w.broker
    → Published packet topic w w'
    → view w'.broker ≡ (foretell (published packet topic) (view w.broker)).1
unfolding foretell view sf_of socket_of
Published-foretell packet topic w w' in_order (sent, stored, multi, topics, ids) =
    agree (view w'.broker) (foretell (published packet topic) (view w.broker)).1
      (λ j.
        sym (socket-client j w'.broker)
        ∙ ap (λ c. socket_of (some c)) (stored j)
        ∙ socket-client j w.broker)
      (λ j.
        let subs = at [] topic w.broker.topic_map in
        let more : waiting packet w.broker j subs
            ≡ stored_for packet (socket_of (lookup j w.broker.clients)) (lookup j subs) =
          waiting-kept_of packet w.broker j subs (in_order.3 topic)
          ∙ kept_of-stored_for packet (client j w.broker) (lookup j subs)
          ∙ ap (λ o. stored_for packet o (lookup j subs)) (socket-client j w.broker) in
        sym (queue-client j w'.broker)
        ∙ ap (λ c. c.subs_queue) (stored j)
        ∙ rw (more, queue-client j w.broker) refl)
      (λ t j. ap (lookup j) (topics t)) (λ x. ap (lookup x) ids)

-- What can happen: requests that the protocol knows, of which a login comes by a buffered socket, and
-- packets of news that can be published.
abbrev pub CanHappen : MultiSocket → Happening → Type 0
CanHappen m (asked_for (logs_in fd id)) = (s : Framing.Socket) × (lookup fd m.tcp_sockets ≡ some s)
CanHappen m (asked_for r) = IsKnown r
CanHappen m (published packet topic) = (length packet ≤ 4092) × (get_news_topic packet ≡ ok topic)

-- Whoever is connected has a buffered socket, in terms of the view.
abbrev pub Reaches : MultiSocket → Abstract → Type 0
Reaches m a =
    (id : List ℕ) (fd : ℤ)
    → a.socket id ≡ some fd
    → (s : Framing.Socket) × (lookup fd m.tcp_sockets ≡ some s)

-- What a happening needs, and keeps.
abbrev Goes : World → Type 0
Goes w = IsSafe sorted w × Reaches w.multi (view w.broker)

known : (m : MultiSocket) (r : Request) → CanHappen m (asked_for r) → IsKnown r
known m (logs_in fd id) h = tt
known m (asks type fd topic) h = h
known m (leaves fd) h = h

Reaches-promise :
    (m : MultiSocket) (r : Request) (a : Abstract)
    → CanHappen m (asked_for r)
    → Reaches m a
    → Reaches m (promise r a).1
unfolding promise
Reaches-promise m (logs_in fd id) a h r = go (a.socket id)
  where
    go : (o : Option ℤ) → Reaches m (logged fd id a o).1
    go (some other) = r
    go none = λ j x e. elim (Bool-cases (same_text id j)) [
      | inl t ↦
          let got : some fd ≡ some x = rw t at e in
          let same : fd ≡ x = cc in
          subst (λ y. (s : Framing.Socket) × (lookup y m.tcp_sockets ≡ some s)) same h
      | inr t ↦ r j x (rw t at e)
    ]
Reaches-promise m (asks type fd topic) a h r = go (a.owner fd)
  where
    go : (o : Option (List ℕ)) → Reaches m (obeyed type topic a o).1
    go none = r
    go (some id) = r
Reaches-promise m (leaves fd) a h r = λ j x e.
    elim (Bool-cases (same_text (left_by (a.owner fd)) j)) [
      | inl t ↦ let clash : none ≡ some x = rw t at e in cc
      | inr t ↦ r j x (rw t at e)
    ]

serve_one-AreSorted :
    (r : Request) (b : Broker) → AreSorted b → Holds (λ x. AreSorted x.1) (serve_one r b)
unfolding serve_one
serve_one-AreSorted (logs_in fd id) b s =
    Holds-ok (λ x. AreSorted x.1) _ (sorted.by_authenticate fd id b s)
serve_one-AreSorted (asks type fd topic) b s =
    Holds-then (Links sorted) (λ x. AreSorted x.1) (command type fd (ok topic) b) _
      (command-Links sorted type fd (ok topic) b s)
      (λ (reply, b') s'. Holds-ok (λ x. AreSorted x.1) (some reply, b') s')
serve_one-AreSorted (leaves fd) b s =
    Holds-ok (λ x. AreSorted x.1) _ (sorted.by_forget_socket fd b s)

-- A happening is served as foretold, and leaves what the next one needs.
abbrev Served : SendAnswer → Happening → World → Type 0
Served answer h w =
    (w' : World) × (happen answer h w ≡ ok ((foretell h (view w.broker)).0, w'))
    × (view w'.broker ≡ (foretell h (view w.broker)).1)
    × (w'.multi ≡ w.multi)
    × Goes w'

asked_for-Served :
    (answer : SendAnswer) (r : Request) (w : World)
    → CanHappen w.multi (asked_for r)
    → Goes w
    → Served answer (asked_for r) w
unfolding happen foretell
asked_for-Served answer r w h ((sound, s), reaches) =
    let (b, ran, seen) = serve_one-promise r w.broker (known w.multi r h) in
    let s' = serve_one-AreSorted r w.broker s _ ran in
    (
      record w { broker = b },
      rw ran refl,
      seen,
      refl,
      (
        (sound, s'),
        subst (Reaches w.multi) (sym seen) (Reaches-promise w.multi r (view w.broker) h reaches),
      ),
    )

pub reachable : (w : World) → Reaches w.multi (view w.broker) → (id : List ℕ) → IsReachable w id
unfolding view socket_of
reachable w r id on =
    r id (client id w.broker).sockfd (sym (socket-client id w.broker) ∙ rw (on, socket_of) refl)

published-Served :
    (answer : SendAnswer) (packet topic : List ℕ) (w : World)
    → NeverFails answer
    → CanHappen w.multi (published packet topic)
    → Goes w
    → Served answer (published packet topic) w
unfolding happen foretell
published-Served answer packet topic w never (short, named) ((sound, s), reaches) =
    let (w', ran, done) =
      send_news_to_subscribers-Published answer packet topic w never short (reachable w reaches)
        named in
    let seen = Published-foretell packet topic w w' s done in
    (
      w',
      rw ran refl,
      seen,
      done.2,
      (
        send_news-IsSafe sorted answer packet w (sound, s) w' ran,
        λ j x e. rw (done.2) (reaches j x (sym (ap (λ a. a.socket j) seen) ∙ e)),
      ),
    )

-- Logins, subscriptions, unsubscriptions, closes and packets of news, in any number and any order:
-- the server serves them all, and its replies and what its maps then hold, seen as functions, are
-- those that the abstract broker foretells: who is connected by which socket, who is subscribed to
-- what, who owns which socket, and what waits for whom, which is each packet that came on a topic
-- to which the client was subscribed with sf set, while it was away. It is assumed that the
-- system's `send` does not fail, that logins come by buffered sockets and nobody is connected by
-- another at the start, that the state satisfies the invariants of every run, and that packets have
-- at most 4092 bytes.
pub happen_all-foretell_all :
    (answer : SendAnswer) (hs : List Happening) (w : World)
    → NeverFails answer
    → All (CanHappen w.multi) hs
    → IsSound w.multi × AreSorted w.broker
    → ((id : List ℕ) (fd : ℤ)
        → (view w.broker).socket id ≡ some fd
        → (s : Framing.Socket) × (lookup fd w.multi.tcp_sockets ≡ some s))
    → (w' : World) × (happen_all answer hs w ≡ ok ((foretell_all hs (view w.broker)).0, w'))
      × (view w'.broker ≡ (foretell_all hs (view w.broker)).1)
unfolding happen_all foretell_all
happen_all-foretell_all answer [] w never c safe r = (w, refl, refl)
happen_all-foretell_all answer (h ∷ hs) w never (c, cs) safe r =
    let (w1, ran, seen, multi, (safe1, r1)) = served h c in
    let (w2, ran', seen') = happen_all-foretell_all answer hs w1 never (rw multi cs) safe1 r1 in
    (w2, rw (ran, ran', seen) refl, seen' ∙ rw seen refl)
  where
    served : (h : Happening) → CanHappen w.multi h → Served answer h w
    served (asked_for r') c' = asked_for-Served answer r' w c' (safe, r)
    served (published packet topic) c' = published-Served answer packet topic w never c' (safe, r)
