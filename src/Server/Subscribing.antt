-- ===== src/Server/Subscribing.antt =====
-- What SUBSCRIBE and UNSUBSCRIBE do to the subscriptions.
use tema2_pc_client_server_t.Base.{
  ℕ, ◌≡◌, ◌≢◌, refl, Option, none, some, List, [], arith, ◌⊎◌, inl, inr, Outcome, ok, ◌==◌, ◌&&◌,
  if◌then◌else◌,
}
use tema2_pc_client_server_t.Base.Int.{ℤ}
use tema2_pc_client_server_t.Base.Map.{
  text_key, int_key, same_text, same_text_iff, lookup, insert, erase, at, lookup-insert,
  lookup-erase, at-insert,
}
use tema2_pc_client_server_t.App.{type_sub, type_sub_sf, type_not_auth}
use tema2_pc_client_server_t.Server.State.{Broker}
use tema2_pc_client_server_t.Server.Commands.{subscribe, unsubscribe, command}
use tema2_pc_client_server_t.Server.Wire.{IsCommand}

-- The `sf` under which a client is subscribed to a topic, if it is.
unfoldable pub sf_of : List ℕ → List ℕ → Broker → Option ℕ
sf_of topic id b = lookup id (at [] topic b.topic_map)

-- What a command asks for.
abbrev pub asked : ℕ → Option ℕ
asked type = if type == type_sub then some 0 else if type == type_sub_sf then some 1 else none

-- The answer to a command, by the id that its socket has.
abbrev pub Commands : ℕ → List ℕ → Broker → Option (List ℕ) → Outcome (ℕ × Broker) → Type 0
Commands type topic b none r = r ≡ ok (type_not_auth, b)
Commands type topic b (some id) r =
    (b' : Broker) × (r ≡ ok (type, b'))
    × (sf_of topic id b' ≡ asked type)
    × ((t j : List ℕ) → (t ≢ topic) ⊎ (j ≢ id) → sf_of t j b' ≡ sf_of t j b)
    × (b'.clients ≡ b.clients)
    × (b'.ids_map ≡ b.ids_map)

subscribe-sf_of :
    (sf : ℕ) (topic id : List ℕ) (b : Broker) (t j : List ℕ)
    → sf_of t j (subscribe sf topic id b)
      ≡ (if same_text topic t && same_text id j then some sf else sf_of t j b)
unfolding sf_of subscribe
subscribe-sf_of sf topic id b t j = ground (
  arith,
  at-insert [] (insert id sf (at [] topic b.topic_map)) t topic b.topic_map,
  lookup-insert j id sf (at [] topic b.topic_map),
  same_text_iff topic t,
)

unsubscribe-sf_of :
    (topic id : List ℕ) (b : Broker) (t j : List ℕ)
    → sf_of t j (unsubscribe topic id b)
      ≡ (if same_text topic t && same_text id j then none else sf_of t j b)
unfolding sf_of unsubscribe
unsubscribe-sf_of topic id b t j = ground (
  arith,
  at-insert [] (erase id (at [] topic b.topic_map)) t topic b.topic_map,
  lookup-erase j id (at [] topic b.topic_map),
  same_text_iff topic t,
)

-- One subscription is `v` and the others are kept.
abbrev Changed : List ℕ → List ℕ → Option ℕ → Broker → Broker → Type 0
Changed topic id v b b' =
    (sf_of topic id b' ≡ v) × ((t j : List ℕ) → (t ≢ topic) ⊎ (j ≢ id) → sf_of t j b' ≡ sf_of t j b)

changed :
    (topic id : List ℕ) (v : Option ℕ) (b b' : Broker)
    → ((t j : List ℕ)
        → sf_of t j b' ≡ (if same_text topic t && same_text id j then v else sf_of t j b))
    → Changed topic id v b b'
changed topic id v b b' h = (
  ground (arith, h topic id, same_text_iff topic topic, same_text_iff id id),
  λ t j ne. ground (arith, h t j, same_text_iff topic t, same_text_iff id j),
)

subscribe-Changed :
    (sf : ℕ) (topic id : List ℕ) (b : Broker)
    → Changed topic id (some sf) b (subscribe sf topic id b)
subscribe-Changed sf topic id b = changed topic id (some sf) b _ (subscribe-sf_of sf topic id b)

unsubscribe-Changed :
    (topic id : List ℕ) (b : Broker) → Changed topic id none b (unsubscribe topic id b)
unsubscribe-Changed topic id b = changed topic id none b _ (unsubscribe-sf_of topic id b)

-- A command on a socket without an id is answered by TYPE_NOT_AUTH and changes nothing. On a socket
-- with an id, it is answered by its own type, and that id is subscribed to the topic under sf 0
-- (TYPE_SUB) or 1 (TYPE_SUB_SF), also if it was under the other, or is not subscribed to it any more
-- (TYPE_UNSUB); every other subscription is as before, and so are clients and sockets.
pub command-Commands :
    (type : ℕ) (fd : ℤ) (topic : List ℕ) (b : Broker)
    → IsCommand type
    → Commands type topic b (lookup fd b.ids_map) (command type fd (ok topic) b)
unfolding command subscribe unsubscribe
command-Commands type fd topic b c = go (lookup fd b.ids_map) refl
  where
    go :
        (o : Option (List ℕ))
        → lookup fd b.ids_map ≡ o
        → Commands type topic b o (command type fd (ok topic) b)
    go none e = ground arith
    go (some id) e =
        rw (e, command)
          (elim c [
            | inl e0 ↦ rw e0 (
                let (one, others) = subscribe-Changed 0 topic id b in
                (subscribe 0 topic id b, refl, one, others, refl, refl))
            | inr (inl e1) ↦ rw e1 (
                let (one, others) = subscribe-Changed 1 topic id b in
                (subscribe 1 topic id b, refl, one, others, refl, refl))
            | inr (inr e2) ↦ rw e2 (
                let (one, others) = unsubscribe-Changed topic id b in
                (unsubscribe topic id b, refl, one, others, refl, refl))
          ])
