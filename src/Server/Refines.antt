-- ===== src/Server/Refines.antt =====
-- The server's maps keep what Server/Abstract promises.
use tema2_pc_client_server_t.Base.{
  ℕ, ◌≡◌, refl, sym, ◌∙◌, ap, true, false, Option, none, some, Option-cases, List, [], arith, inl,
  inr, Bool-cases, ◌≢◌, ◌⊎◌, ok,
}
use tema2_pc_client_server_t.Base.Int.{ℤ, eqb, eqb_iff}
use tema2_pc_client_server_t.Base.Map.{
  text_key, int_key, same_text, same_text_iff, lookup, at, lookup-insert, lookup-erase,
}
use tema2_pc_client_server_t.Server.State.{
  State, connected, disconnected, Subscriber, default_subscriber, Broker,
}
use tema2_pc_client_server_t.Server.Commands.{client, authenticate, command}
use tema2_pc_client_server_t.Server.Handler.{forget_socket}
use tema2_pc_client_server_t.Server.Wire.{IsCommand}
use tema2_pc_client_server_t.Server.Auth.{
  IsConnected, queue_of, authenticate_duplicate, authenticate_admits,
}
use tema2_pc_client_server_t.Server.Subscribing.{sf_of, Commands, command-Commands}
use tema2_pc_client_server_t.Server.Abstract.{
  Abstract, socket_of, view, Request, logs_in, asks, leaves, serve_one, left_by, logged, obeyed,
  promise,
}

-- Two brokers that agree at every point are one.
pub agree :
    (a a' : Abstract)
    → ((id : List ℕ) → a.socket id ≡ a'.socket id)
    → ((id : List ℕ) → a.queue id ≡ a'.queue id)
    → ((t id : List ℕ) → a.sf t id ≡ a'.sf t id)
    → ((fd : ℤ) → a.owner fd ≡ a'.owner fd)
    → a ≡ a'
agree a a' p q r s = λ i. record {
  socket = λ id. p id i;
  queue = λ id. q id i;
  sf = λ t id. r t id i;
  owner = λ fd. s fd i;
}

-- A request is served as promised: its reply, and the view of the broker that it leaves.
abbrev pub Serves : Request → Broker → Option ℕ × Abstract → Type 0
Serves r b (reply, a) = (b' : Broker) × (serve_one r b ≡ ok (reply, b')) × (view b' ≡ a)

apart : (x y : List ℕ) → same_text x y ≡ false → y ≢ x
apart x y h e = let same : same_text x y ≡ true = (same_text_iff x y).1 (sym e) in cc

apart_int : (x y : ℤ) → eqb x y ≡ false → y ≢ x
apart_int x y h e = let same : eqb x y ≡ true = (eqb_iff x y).1 (sym e) in cc

on_or_off :
    (s : Subscriber) (x : State) → s.state ≡ x → (socket_of (some s) ≡ none) ⊎ (s.state ≡ connected)
unfolding socket_of
on_or_off s connected e = inr e
on_or_off s disconnected e = inl (rw (e, socket_of) refl)

-- Who has a socket is connected, and who is connected has its socket.
socket-IsConnected :
    (id : List ℕ) (b : Broker) (x : ℤ) → socket_of (lookup id b.clients) ≡ some x → IsConnected id b
unfolding socket_of
socket-IsConnected id b x h = elim (Option-cases (lookup id b.clients)) [
  | inl e ↦ let clash : none ≡ some x = sym (ap socket_of e) ∙ h in cc
  | inr (s, e) ↦ elim (on_or_off s s.state refl) [
    | inl off ↦ let clash : none ≡ some x = sym off ∙ sym (ap socket_of e) ∙ h in cc
    | inr on ↦ (s, e, on)
  ]
]

IsConnected-socket :
    (id : List ℕ) (b : Broker) → socket_of (lookup id b.clients) ≡ none → ¬ IsConnected id b
unfolding socket_of
IsConnected-socket id b n (s, found, on) =
    let clash : none ≡ some s.sockfd = sym n ∙ ap socket_of found ∙ rw (on, socket_of) refl in cc

logs_in-Serves :
    (fd : ℤ) (id : List ℕ) (b : Broker)
    → Serves (logs_in fd id) b (logged fd id (view b) (socket_of (lookup id b.clients)))
unfolding serve_one view socket_of
logs_in-Serves fd id b = go (lookup id b.clients) refl (socket_of (lookup id b.clients)) refl
  where
    go :
        (o : Option Subscriber)
        → lookup id b.clients ≡ o
        → (x : Option ℤ) → socket_of (lookup id b.clients) ≡ x
        → Serves (logs_in fd id) b (logged fd id (view b) x)
    go o e none n =
        let (type, (entry, own, others, owners, topics)) =
          authenticate_admits fd id b (IsConnected-socket id b n) in
        let b' = (authenticate fd id b).1 in
        (
          b',
          rw type refl,
          agree (view b') (logged fd id (view b) none).1
              (λ j. elim (Bool-cases (same_text id j)) [
                | inl h ↦ let same = (same_text_iff id j).0 h in rw (h, sym same, entry) refl
                | inr h ↦ rw (h, others j (apart id j h)) refl
              ])
              (λ j. elim (Bool-cases (same_text id j)) [
                | inl h ↦ let same = (same_text_iff id j).0 h in rw (sym same, entry) refl
                | inr h ↦ ap queue_of (others j (apart id j h))
              ])
              (λ t j. unfold sf_of in ap (λ m. lookup j (at [] t m)) topics)
              (λ x. elim (Bool-cases (eqb fd x)) [
                | inl h ↦ let same = (eqb_iff fd x).0 h in rw (h, sym same) own
                | inr h ↦ rw (h, owners x (apart_int fd x h)) refl
              ]),
        )
    go o e (some x) n =
        (b, rw (authenticate_duplicate fd id b (socket-IsConnected id b x n)) refl, refl)

asks-Serves :
    (type : ℕ) (fd : ℤ) (topic : List ℕ) (b : Broker)
    → IsCommand type
    → Serves (asks type fd topic) b (obeyed type topic (view b) (lookup fd b.ids_map))
unfolding serve_one view
asks-Serves type fd topic b c = go (lookup fd b.ids_map) (command-Commands type fd topic b c)
  where
    go :
        (o : Option (List ℕ))
        → Commands type topic b o (command type fd (ok topic) b)
        → Serves (asks type fd topic) b (obeyed type topic (view b) o)
    go none ran = (b, rw ran refl, refl)
    go (some id) (b', ran, own, others, clients, ids) = (
      b',
      rw ran refl,
      agree (view b') (obeyed type topic (view b) (some id)).1
          (λ j. ap (λ m. socket_of (lookup j m)) clients)
          (λ j. ap (λ m. queue_of (lookup j m)) clients)
          (λ t j. elim (Bool-cases (same_text topic t)) [
            | inl h ↦ elim (Bool-cases (same_text id j)) [
              | inl k ↦
                  rw (h, k, sym ((same_text_iff topic t).0 h), sym ((same_text_iff id j).0 k)) own
              | inr k ↦ rw (h, k) (others t j (inr (apart id j k)))
            ]
            | inr h ↦ rw h (others t j (inl (apart topic t h)))
          ])
          (λ x. ap (lookup x) ids),
    )

left_by_lem : (fd : ℤ) (b : Broker) → at [] fd b.ids_map ≡ left_by (lookup fd b.ids_map)
unfolding at
left_by_lem fd b = elim (Option-cases (lookup fd b.ids_map)) [
  | inl e ↦ ground arith
  | inr (id, e) ↦ ground arith
]

pub queue-client :
    (id : List ℕ) (b : Broker) → (client id b).subs_queue ≡ queue_of (lookup id b.clients)
unfolding at default_subscriber
queue-client id b = elim (Option-cases (lookup id b.clients)) [
  | inl e ↦ ground arith
  | inr (s, e) ↦ ground arith
]

leaves-Serves : (fd : ℤ) (b : Broker) → Serves (leaves fd) b (promise (leaves fd) (view b))
unfolding serve_one view promise forget_socket sf_of socket_of
leaves-Serves fd b =
    let id = at [] fd b.ids_map in
    let s = record (client id b) { state = disconnected } in
    (
      forget_socket fd b,
      refl,
      agree (view (forget_socket fd b)) (promise (leaves fd) (view b)).1
          (λ j.
            rw (← left_by_lem fd b, lookup-insert j id s b.clients)
              (elim (Bool-cases (same_text id j)) [ inl h ↦ rw h refl | inr h ↦ rw h refl ]))
          (λ j. rw (lookup-insert j id s b.clients) (elim (Bool-cases (same_text id j)) [
            | inl h ↦ rw (h, sym ((same_text_iff id j).0 h)) (queue-client id b)
            | inr h ↦ rw h refl
          ]))
          (λ t j. refl) (λ x. lookup-erase x fd b.ids_map),
    )

-- The requests are logins, closes, and commands that the protocol knows.
abbrev pub IsKnown : Request → Type 0
IsKnown (asks type fd topic) = IsCommand type
IsKnown _ = Unit

-- Each request is served as promised.
pub serve_one-promise : (r : Request) (b : Broker) → IsKnown r → Serves r b (promise r (view b))
unfolding promise view
serve_one-promise (logs_in fd id) b k = logs_in-Serves fd id b
serve_one-promise (asks type fd topic) b k = asks-Serves type fd topic b k
serve_one-promise (leaves fd) b k = leaves-Serves fd b
