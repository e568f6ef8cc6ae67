-- ===== src/Server/Deliveries/Away.antt =====
-- News that come one after another: what is sent, and what is stored for a client that is away.
use tema2_pc_client_server_t.Base.{
  ℕ, ◌≤◌, ◌≡◌, refl, sym, ◌∙◌, ap, Bool-cases, Option, none, some, List, [], ◌∷◌, ◌++◌, append-nil,
  append_assoc, inl, inr, All, length, Outcome, ok, ◌>>=◌,
}
use tema2_pc_client_server_t.Base.Map.{text_key, int_key, same_text, same_text_iff, lookup, at}
use tema2_pc_client_server_t.Base.Sorted.{text_order, IsSorted, lookup_below}
use tema2_pc_client_server_t.App.News.{get_news_topic}
use tema2_pc_client_server_t.Server.State.{
  Subscriber, Broker, Subscriptions, World, SendAnswer, Event,
}
use tema2_pc_client_server_t.Server.Commands.{client}
use tema2_pc_client_server_t.Server.Delivery.{send_news_to_subscribers}
use tema2_pc_client_server_t.Server.Subscribing.{sf_of}
use tema2_pc_client_server_t.Server.Deliveries.{one_waiting, news, waiting, IsReachable, NeverFails}
use tema2_pc_client_server_t.Server.Deliveries.All.{
  IsAlike, with_more, news-IsAlike, send_news_to_subscribers-Published,
}

-- What is stored of a packet for a subscriber, by its `sf` if it is subscribed.
abbrev pub kept_of : List ℕ → Subscriber → Option ℕ → List (List ℕ)
kept_of packet s none = []
kept_of packet s (some sf) = one_waiting packet sf s

pub waiting-kept_of :
    (packet : List ℕ) (b : Broker) (j : List ℕ) (subs : Subscriptions)
    → IsSorted subs
    → waiting packet b j subs ≡ kept_of packet (client j b) (lookup j subs)
unfolding waiting lookup
waiting-kept_of packet b j [] s = refl
waiting-kept_of packet b j ((id, sf) ∷ subs) (below, s) = elim (Bool-cases (same_text id j)) [
  | inl e ↦
      let same : id ≡ j = (same_text_iff id j).0 e in
      let none_left =
        waiting-kept_of packet b j subs s
        ∙ ap (kept_of packet (client j b)) (lookup_below j subs (rw (sym same) below)) in
      rw (e, none_left, same) (append-nil (one_waiting packet sf (client j b)))
  | inr e ↦ rw e (waiting-kept_of packet b j subs s)
]

-- Packets of news with their topics.
abbrev pub Packets : Type 0
Packets = List (List ℕ × List ℕ)

abbrev pub ArePublishable : Packets → Type 0
ArePublishable =
    All (λ (packet, topic). (length packet ≤ 4092) × (get_news_topic packet ≡ ok topic))

-- The datagrams of `main`, one after another.
unfoldable pub publish_all : SendAnswer → Packets → World → Outcome World
publish_all answer [] w = ok w
publish_all answer ((packet, topic) ∷ rest) w =
    send_news_to_subscribers answer packet w >>= publish_all answer rest

-- All that goes out, and all that is stored for `j`.
unfoldable pub all_news : Packets → Broker → List Event
all_news [] b = []
all_news ((packet, topic) ∷ rest) b = news packet b (at [] topic b.topic_map) ++ all_news rest b

unfoldable pub all_kept : Packets → List ℕ → Broker → List (List ℕ)
all_kept [] j b = []
all_kept ((packet, topic) ∷ rest) j b =
    kept_of packet (client j b) (sf_of topic j b) ++ all_kept rest j b

-- The same clients are connected by the same sockets, and the subscriptions are the same.
abbrev SameAudience : Broker → Broker → Type 0
SameAudience b b' = IsAlike b b' × ((t : List ℕ) → at [] t b'.topic_map ≡ at [] t b.topic_map)

all_news-SameAudience :
    (ps : Packets) (b b' : Broker) → SameAudience b b' → all_news ps b' ≡ all_news ps b
unfolding all_news
all_news-SameAudience [] b b' s = refl
all_news-SameAudience ((packet, topic) ∷ ps) b b' (alike, topics) =
    rw
      (
        topics topic,
        news-IsAlike packet b b' (at [] topic b.topic_map) alike,
        all_news-SameAudience ps b b' (alike, topics),
      )
      refl

kept_of-state :
    (packet : List ℕ) (s t : Subscriber) (o : Option ℕ)
    → t.state ≡ s.state
    → kept_of packet t o ≡ kept_of packet s o
unfolding one_waiting
kept_of-state packet s t none e = refl
kept_of-state packet s t (some sf) e = rw e refl

all_kept-SameAudience :
    (ps : Packets) (j : List ℕ) (b b' : Broker)
    → SameAudience b b'
    → all_kept ps j b' ≡ all_kept ps j b
unfolding all_kept sf_of
all_kept-SameAudience [] j b b' s = refl
all_kept-SameAudience ((packet, topic) ∷ ps) j b b' (alike, topics) =
    rw
      (
        topics topic,
        kept_of-state packet (client j b) (client j b') (lookup j (at [] topic b.topic_map))
            (alike j).0,
        all_kept-SameAudience ps j b b' (alike, topics),
      )
      refl

still-IsReachable :
    (w w' : World) (j : List ℕ)
    → IsAlike w.broker w'.broker
    → w'.multi ≡ w.multi
    → IsReachable w j
    → IsReachable w' j
still-IsReachable w w' j alike multi r on = rw ((alike j).1, multi) (r (sym (alike j).0 ∙ on))

-- What packets of news that come one after another have done.
pub record PublishedAll (ps : Packets) (w w' : World) : Type 0 where
  pub sent : w'.log ≡ w.log ++ all_news ps w.broker
  pub stored :
      (j : List ℕ) → client j w'.broker ≡ with_more (all_kept ps j w.broker) (client j w.broker)
  pub multi : w'.multi ≡ w.multi
  pub topics : (t : List ℕ) → at [] t w'.broker.topic_map ≡ at [] t w.broker.topic_map
  pub ids : w'.broker.ids_map ≡ w.broker.ids_map

-- If the system's `send` does not fail, every connected client has a buffered socket, and the
-- subscriptions to each topic are sorted, then packets of news of at most 4092 bytes, one after
-- another, are all published: the frames go out in the order of the packets, and for each one in
-- the order of the subscribers' ids; behind what waits for a client that is not connected are
-- stored, in order and once each, the packets on the topics to which it is subscribed with sf set,
-- and for a connected one none; and clients, sockets, ids and subscriptions stay as they are.
pub publish_all-PublishedAll :
    (answer : SendAnswer) (ps : Packets) (w : World)
    → NeverFails answer
    → ArePublishable ps
    → ((id : List ℕ) → IsReachable w id)
    → ((t : List ℕ) → IsSorted (at [] t w.broker.topic_map))
    → (w' : World) × (publish_all answer ps w ≡ ok w') × PublishedAll ps w w'
unfolding publish_all all_news all_kept sf_of
publish_all-PublishedAll answer [] w never p r s = (
  w,
  refl,
  record {
    sent = sym (append-nil w.log);
    stored = λ j. rw (append-nil (client j w.broker).subs_queue) refl;
    multi = refl;
    topics = λ t. refl;
    ids = refl;
  },
)
publish_all-PublishedAll answer ((packet, topic) ∷ ps) w never ((short, named), p) r s =
    let (w1, ran, (sent, stored, multi, topics, ids)) =
      send_news_to_subscribers-Published answer packet topic w never short r named in
    let same : SameAudience w.broker w1.broker =
      (λ j. (ap (λ c. c.state) (stored j), ap (λ c. c.sockfd) (stored j)), topics) in
    let (w2, ran', d) =
      publish_all-PublishedAll answer ps w1 never p
        (λ j. still-IsReachable w w1 j same.0 multi (r j)) (λ t. rw (topics t) (s t)) in
    (
      w2,
      rw ran ran',
      record {
        sent =
            d.sent
            ∙ rw (sent, all_news-SameAudience ps w.broker w1.broker same)
                (append_assoc w.log (news packet w.broker (at [] topic w.broker.topic_map))
                  (all_news ps w.broker));
        stored = λ j.
            d.stored j
            ∙ rw
                (
                  stored j,
                  all_kept-SameAudience ps j w.broker w1.broker same,
                  waiting-kept_of packet w.broker j (at [] topic w.broker.topic_map) (s topic),
                  append_assoc (client j w.broker).subs_queue
                      (kept_of packet (client j w.broker) (sf_of topic j w.broker))
                      (all_kept ps j w.broker),
                )
                refl;
        multi = d.multi ∙ multi;
        topics = λ t. d.topics t ∙ topics t;
        ids = d.ids ∙ ids;
      },
    )
