-- ===== src/Server/Linked.antt =====
-- Sockets and ids belong together: a socket that has an id, other than the empty one, is the one
-- socket of a connected client. (`main` looks for the id of a socket that has none, and finds the
-- empty one, so that clients of that id do not enjoy this.)
use tema2_pc_client_server_t.Base.{
  ℕ, ◌≡◌, ◌≢◌, refl, sym, ◌∙◌, subst, Bool-cases, some, Option-cases, List, [], arith, ◌⊎◌, inl,
  inr,
}
use tema2_pc_client_server_t.Base.Int.{ℤ, eqb, eqb_iff}
use tema2_pc_client_server_t.Base.Map.{
  text_key, int_key, same_text_iff, lookup, at, lookup-insert, lookup-erase,
}
use tema2_pc_client_server_t.Server.State.{State, connected, disconnected, Subscriber, Broker}
use tema2_pc_client_server_t.Server.Commands.{authenticate, subscribe, unsubscribe, client}
use tema2_pc_client_server_t.Server.Handler.{forget_socket}
use tema2_pc_client_server_t.Server.Auth.{
  IsConnected, queue_of, authenticate_duplicate, authenticate_admits,
}

abbrev pub IsLinked : Broker → Type 0
IsLinked b =
    (fd : ℤ) (id : List ℕ)
    → id ≢ []
    → lookup fd b.ids_map ≡ some id
    → (s : Subscriber) × (lookup id b.clients ≡ some s) × (s.state ≡ connected) × (s.sockfd ≡ fd)

-- No two sockets have the same id, unless it is the empty one.
pub IsLinked-injective :
    (b : Broker) (x y : ℤ) (id : List ℕ)
    → IsLinked b
    → id ≢ []
    → lookup x b.ids_map ≡ some id
    → lookup y b.ids_map ≡ some id
    → x ≡ y
IsLinked-injective b x y id l ne ex ey =
    let (s, es, _, fx) = l x id ne ex in let (t, et, _, fy) = l y id ne ey in ground arith

state-cases : (s : Subscriber) → (s.state ≡ connected) ⊎ (s.state ≡ disconnected)
state-cases s = go s.state refl
  where
    go : (x : State) → s.state ≡ x → (s.state ≡ connected) ⊎ (s.state ≡ disconnected)
    go connected e = inl e
    go disconnected e = inr e

pub IsConnected-cases : (id : List ℕ) (b : Broker) → IsConnected id b ⊎ ¬ IsConnected id b
IsConnected-cases id b = elim (Option-cases (lookup id b.clients)) [
  | inl e ↦ inr (λ (s, f, c). ground arith)
  | inr (s, e) ↦ elim (state-cases s) [
    | inl c ↦ inl (s, e, c)
    | inr d ↦ inr (λ (t, f, c). ground arith)
  ]
]

fd-cases : (x y : ℤ) → (x ≡ y) ⊎ (x ≢ y)
fd-cases x y = elim (Bool-cases (eqb x y)) [
  | inl e ↦ inl ((eqb_iff x y).0 e)
  | inr e ↦ inr (λ p. ground (arith, (eqb_iff x y).1 p))
]

-- TYPE_AUTH on any socket, for any id, keeps the links.
pub authenticate-IsLinked :
    (fd : ℤ) (id : List ℕ) (b : Broker) → IsLinked b → IsLinked (authenticate fd id b).1
authenticate-IsLinked fd id b l x j ne e = elim (IsConnected-cases id b) [
  | inl c ↦
      rw (authenticate_duplicate fd id b c) (l x j ne (rw (authenticate_duplicate fd id b c) at e))
  | inr free ↦
      let (_, (entry, owner, others, sockets, _)) = authenticate_admits fd id b free in
      elim (fd-cases x fd) [
        | inl same ↦
            let is_id : j ≡ id = ground arith in
            (
              record {
                sockfd = fd;
                state = connected;
                subs_queue = queue_of (lookup id b.clients);
              },
              rw is_id entry,
              refl,
              sym same,
            )
        | inr apart ↦
            let (s, found, on, at_x) = l x j ne (sym (sockets x apart) ∙ e) in
            (
              s,
              others j (λ q. free (s, subst (λ k. lookup k b.clients ≡ some s) q found, on))
                  ∙ found,
              on,
              at_x,
            )
      ]
]

-- SUBSCRIBE and UNSUBSCRIBE do not touch them.
pub subscribe-IsLinked :
    (sf : ℕ) (topic id : List ℕ) (b : Broker) → IsLinked b → IsLinked (subscribe sf topic id b)
unfolding subscribe
subscribe-IsLinked sf topic id b l = l

pub unsubscribe-IsLinked :
    (topic id : List ℕ) (b : Broker) → IsLinked b → IsLinked (unsubscribe topic id b)
unfolding unsubscribe
unsubscribe-IsLinked topic id b l = l

-- If sockets and ids are linked, then the end of a connection, whether its socket has an id or not,
-- keeps them linked.
pub forget_socket-IsLinked : (fd : ℤ) (b : Broker) → IsLinked b → IsLinked (forget_socket fd b)
unfolding forget_socket at
forget_socket-IsLinked fd b l x j ne e =
    let (s, found, on, at_x) = l x j ne still in
    (
      s,
      ground (
        arith,
        lookup-insert j (at [] fd b.ids_map)
            (record (client (at [] fd b.ids_map) b) { state = disconnected }) b.clients,
        same_text_iff (at [] fd b.ids_map) j,
        other,
        found,
      ),
      on,
      at_x,
    )
  where
    still : lookup x b.ids_map ≡ some j
    still = ground (arith, lookup-erase x fd b.ids_map)

    apart : x ≢ fd
    apart q = ground (arith, lookup-erase x fd b.ids_map, eqb_iff fd x)

    other : at [] fd b.ids_map ≢ j
    other q = elim (Option-cases (lookup fd b.ids_map)) [
      | inl none_there ↦ ne (sym q ∙ ground arith)
      | inr (i, has) ↦ apart (IsLinked-injective b x fd j l ne still (ground arith))
    ]
