-- ===== src/Server/Auth.antt =====
-- Who is admitted, and as whom.
use tema2_pc_client_server_t.Base.{
  ℕ, ◌≡◌, ◌≢◌, refl, ◌∙◌, Option, none, some, Option-cases, List, [], arith, inl, inr,
}
use tema2_pc_client_server_t.Base.Int.{ℤ, eqb_iff}
use tema2_pc_client_server_t.Base.Map.{
  text_key, int_key, same_text_iff, lookup, contains, at, lookup-insert, lookup-insert_self,
}
use tema2_pc_client_server_t.App.{type_auth, type_auth_duplicate}
use tema2_pc_client_server_t.Server.State.{
  State, connected, disconnected, Subscriber, new_subscriber, Broker,
}
use tema2_pc_client_server_t.Server.Commands.{ensure_client, client, connect_client, authenticate}

-- The queue of news that is kept for an id.
abbrev pub queue_of : Option Subscriber → List (List ℕ)
queue_of none = []
queue_of (some s) = s.subs_queue

-- What TYPE_AUTH does for an id, by what is known of it.
abbrev pub IsConnected : List ℕ → Broker → Type 0
IsConnected id b = (s : Subscriber) × (lookup id b.clients ≡ some s) × (s.state ≡ connected)

abbrev pub Admitted : ℤ → List ℕ → Broker → Broker → Type 0
Admitted fd id b b' =
    (lookup id b'.clients
      ≡ some
          (record { sockfd = fd; state = connected; subs_queue = queue_of (lookup id b.clients) }))
    × (lookup fd b'.ids_map ≡ some id)
    × ((j : List ℕ) → j ≢ id → lookup j b'.clients ≡ lookup j b.clients)
    × ((x : ℤ) → x ≢ fd → lookup x b'.ids_map ≡ lookup x b.ids_map)
    × (b'.topic_map ≡ b.topic_map)

-- TYPE_AUTH with an id that is connected, on whatever socket, is answered by TYPE_AUTH_DUPLICATE and
-- changes nothing.
pub authenticate_duplicate :
    (fd : ℤ) (id : List ℕ) (b : Broker)
    → IsConnected id b
    → authenticate fd id b ≡ (type_auth_duplicate, b)
unfolding authenticate contains at
authenticate_duplicate fd id b (s, e, c) = ground arith

-- The entry that `ensure_client` leaves for an id that is not connected.
abbrev Ensured : List ℕ → Broker → Subscriber → Type 0
Ensured id b s =
    (lookup id (ensure_client id b).clients ≡ some s)
    × (s.state ≡ disconnected)
    × (s.subs_queue ≡ queue_of (lookup id b.clients))

ensure_client-Ensured :
    (id : List ℕ) (b : Broker) → ¬ IsConnected id b → (s : Subscriber) × Ensured id b s
unfolding ensure_client contains new_subscriber
ensure_client-Ensured id b free = elim (Option-cases (lookup id b.clients)) [
  | inl e ↦ (
    new_subscriber,
    (ground (arith, lookup-insert_self id new_subscriber b.clients), refl, ground arith),
  )
  | inr (s, e) ↦ (s, (ground arith, idle s e s.state refl, ground arith))
]
  where
    idle :
        (s : Subscriber)
        → lookup id b.clients ≡ some s
        → (x : State) → s.state ≡ x
        → s.state ≡ disconnected
    idle s e connected c = absurd (free (s, e, c))
    idle s e disconnected c = c

ensure_client_others :
    (id j : List ℕ) (b : Broker)
    → j ≢ id
    → lookup j (ensure_client id b).clients ≡ lookup j b.clients
unfolding ensure_client
ensure_client_others id j b ne =
    ground (arith, lookup-insert j id new_subscriber b.clients, same_text_iff id j)

authenticate_connects :
    (fd : ℤ) (id : List ℕ) (b : Broker)
    → ¬ IsConnected id b
    → authenticate fd id b ≡ (type_auth, connect_client fd id (ensure_client id b))
unfolding authenticate at
authenticate_connects fd id b free =
    let (s, (found, idle, _)) = ensure_client-Ensured id b free in ground (arith, found, idle)

connect_client-Admitted :
    (fd : ℤ) (id : List ℕ) (b : Broker)
    → ¬ IsConnected id b
    → Admitted fd id b (connect_client fd id (ensure_client id b))
unfolding connect_client at
connect_client-Admitted fd id b free =
    let (s, (found, idle, queue)) = ensure_client-Ensured id b free in
    (
      lookup-insert_self id _ (ensure_client id b).clients ∙ ground (arith, found, queue),
      lookup-insert_self fd id (ensure_client id b).ids_map,
      λ j ne. ground (
        arith,
        ensure_client_others id j b ne,
        lookup-insert j id
            (record (client id (ensure_client id b)) { state = connected; sockfd = fd })
            (ensure_client id b).clients,
        same_text_iff id j,
      ),
      λ x ne.
          unfold ensure_client in (ground (arith, lookup-insert x fd id b.ids_map, eqb_iff fd x)),
      unfold ensure_client in refl,
    )

-- TYPE_AUTH with any other id, new or known, is answered by TYPE_AUTH: that id is connected, by this
-- socket, and keeps the news that wait for it; the socket has this id; nothing else changes.
pub authenticate_admits :
    (fd : ℤ) (id : List ℕ) (b : Broker)
    → ¬ IsConnected id b
    → ((authenticate fd id b).0 ≡ type_auth) × Admitted fd id b (authenticate fd id b).1
authenticate_admits fd id b free =
    rw (authenticate_connects fd id b free) (refl, connect_client-Admitted fd id b free)
