-- ===== src/Server/Deliveries/All.antt =====
-- What `send_news_to_subscribers` does, for all subscribers of a topic.
use tema2_pc_client_server_t.Base.{
  ℕ, ◌≤◌, ◌≡◌, refl, sym, ◌∙◌, ap, List, [], ◌∷◌, ◌++◌, append-nil, append_assoc, length, ok,
}
use tema2_pc_client_server_t.Base.Map.{text_key, int_key, at, at-touch}
use tema2_pc_client_server_t.App.News.{get_news_topic}
use tema2_pc_client_server_t.Server.State.{Subscriber, Broker, Subscriptions, World, SendAnswer}
use tema2_pc_client_server_t.Server.Commands.{client}
use tema2_pc_client_server_t.Server.Delivery.{touch_topic, deliver_all, send_news_to_subscribers}
use tema2_pc_client_server_t.Server.Deliveries.{
  one_event, one_waiting, news, waiting, Delivered, IsReachable, NeverFails, deliver_one-Delivered,
}

-- The same clients are connected, by the same sockets.
abbrev pub IsAlike : Broker → Broker → Type 0
IsAlike b b' =
    (j : List ℕ)
    → ((client j b').state ≡ (client j b).state) × ((client j b').sockfd ≡ (client j b).sockfd)

pub news-IsAlike :
    (packet : List ℕ) (b b' : Broker) (subs : Subscriptions)
    → IsAlike b b'
    → news packet b' subs ≡ news packet b subs
unfolding news one_event
news-IsAlike packet b b' [] h = refl
news-IsAlike packet b b' ((id, sf) ∷ subs) h =
    rw ((h id).0, (h id).1, news-IsAlike packet b b' subs h) refl

waiting-IsAlike :
    (packet : List ℕ) (b b' : Broker) (j : List ℕ) (subs : Subscriptions)
    → IsAlike b b'
    → waiting packet b' j subs ≡ waiting packet b j subs
unfolding waiting one_waiting
waiting-IsAlike packet b b' j [] h = refl
waiting-IsAlike packet b b' j ((id, sf) ∷ subs) h =
    rw ((h id).0, waiting-IsAlike packet b b' j subs h) refl

Delivered-IsAlike :
    (packet : List ℕ) (subs : Subscriptions) (w w' : World)
    → Delivered packet subs w w'
    → IsAlike w.broker w'.broker
Delivered-IsAlike packet subs w w' d j =
    (ap (λ c. c.state) (d.stored j), ap (λ c. c.sockfd) (d.stored j))

append_joined {ℓ} :
    {A : Type ℓ} (l one : List A) {rest rest' l1 l2 : List A}
    → l1 ≡ l ++ (one ++ [])
    → l2 ≡ l1 ++ rest'
    → rest' ≡ rest
    → l2 ≡ l ++ (one ++ rest)
append_joined l one {rest} e1 e2 e3 = e2 ∙ rw (e1, e3, append-nil one) (append_assoc l one rest)

-- A subscriber with some more in its queue.
abbrev pub with_more : List (List ℕ) → Subscriber → Subscriber
with_more more s = record s { subs_queue = s.subs_queue ++ more }

more_joined :
    (s : Subscriber) (one : List (List ℕ)) {s1 : Subscriber} {rest rest' : List (List ℕ)}
    → s1 ≡ with_more (one ++ []) s
    → rest' ≡ rest
    → with_more rest' s1 ≡ with_more (one ++ rest) s
more_joined s one {rest = rest} e1 e2 =
    rw (e1, e2, append-nil one, append_assoc s.subs_queue one rest) refl

Delivered-cons :
    (packet id : List ℕ) (sf : ℕ) (rest : Subscriptions) (w w1 w2 : World)
    → Delivered packet ((id, sf) ∷ []) w w1
    → Delivered packet rest w1 w2
    → Delivered packet ((id, sf) ∷ rest) w w2
unfolding news waiting
Delivered-cons packet id sf rest w w1 w2 d1 d2 =
    let alike = Delivered-IsAlike packet ((id, sf) ∷ []) w w1 d1 in
    record {
      sent =
          append_joined w.log (one_event packet (client id w.broker)) d1.sent d2.sent
            (news-IsAlike packet w.broker w1.broker rest alike);
      stored = λ j.
          d2.stored j
          ∙ more_joined (client j w.broker) _ (d1.stored j)
              (waiting-IsAlike packet w.broker w1.broker j rest alike);
      multi = d2.multi ∙ d1.multi;
      topics = d2.topics ∙ d1.topics;
      ids = d2.ids ∙ d1.ids;
    }

-- The loop sends and stores for each subscriber in `subs`, and does not fail.
deliver_all-Delivered :
    (answer : SendAnswer) (packet : List ℕ) (subs : Subscriptions) (w : World)
    → NeverFails answer
    → length packet ≤ 4092
    → ((id : List ℕ) → IsReachable w id)
    → (w' : World) × (deliver_all answer packet subs w ≡ ok w') × Delivered packet subs w w'
unfolding deliver_all
deliver_all-Delivered answer packet [] w never l r = (
  w,
  refl,
  record {
    sent = unfold news in sym (append-nil w.log);
    stored = λ j. unfold waiting in (rw (append-nil (client j w.broker).subs_queue) refl);
    multi = refl;
    topics = refl;
    ids = refl;
  },
)
deliver_all-Delivered answer packet ((id, sf) ∷ rest) w never l r =
    let (w1, e1, d1) = deliver_one-Delivered answer packet id sf w never l (r id) in
    let (w2, e2, d2) =
      deliver_all-Delivered answer packet rest w1 never l (λ j. still j d1 (r j)) in
    (w2, rw e1 e2, Delivered-cons packet id sf rest w w1 w2 d1 d2)
  where
    still :
        {w1 : World} (j : List ℕ)
        → Delivered packet ((id, sf) ∷ []) w w1
        → IsReachable w j
        → IsReachable w1 j
    still j d1 r on =
        let (same_state, same_fd) = Delivered-IsAlike packet ((id, sf) ∷ []) w _ d1 j in
        rw (same_fd, d1.multi) (r (sym same_state ∙ on))

-- What `packet` does to those that are subscribed to `topic`.
abbrev pub Published : List ℕ → List ℕ → World → World → Type 0
Published packet topic w w' =
    let subs = at [] topic w.broker.topic_map in
    (w'.log ≡ w.log ++ news packet w.broker subs)
    × ((j : List ℕ)
        → client j w'.broker ≡ with_more (waiting packet w.broker j subs) (client j w.broker))
    × (w'.multi ≡ w.multi)
    × ((t : List ℕ) → at [] t w'.broker.topic_map ≡ at [] t w.broker.topic_map)
    × (w'.broker.ids_map ≡ w.broker.ids_map)

-- If the system's `send` does not fail and every connected client has a buffered socket, then a
-- packet of at most 4092 bytes with a topic goes out in one frame to each client that is connected
-- and subscribed to the topic, in the order of their ids; it is stored behind what waits for each one
-- that is subscribed with sf set and not connected; and clients, sockets, ids and subscriptions stay
-- as they are.
pub send_news_to_subscribers-Published :
    (answer : SendAnswer) (packet topic : List ℕ) (w : World)
    → NeverFails answer
    → length packet ≤ 4092
    → ((id : List ℕ) → IsReachable w id)
    → get_news_topic packet ≡ ok topic
    → (w' : World) × (send_news_to_subscribers answer packet w ≡ ok w')
      × Published packet topic w w'
unfolding send_news_to_subscribers touch_topic
send_news_to_subscribers-Published answer packet topic w never l r e =
    let w0 : World = record w { broker = touch_topic topic w.broker } in
    let same = at-touch [] topic topic w.broker.topic_map in
    let subs = at [] topic w.broker.topic_map in
    let alike : IsAlike w.broker w0.broker = λ j. (refl, refl) in
    let (w', ran, d) = deliver_all-Delivered answer packet subs w0 never l r in
    (
      w',
      rw (e, same) ran,
      (
        rw (sym (news-IsAlike packet w.broker w0.broker subs alike)) d.sent,
        λ j. rw (sym (waiting-IsAlike packet w.broker w0.broker j subs alike)) (d.stored j),
        d.multi,
        λ t. rw (d.topics) (at-touch [] t topic w.broker.topic_map),
        d.ids,
      ),
    )
