-- ===== src/Server/Delivery.antt =====
-- `send_packet_to_sub`, `send_news_to_subscribers` and `unload_news_queue` of server.cpp.
use tema2_pc_client_server_t.Base.{
  ℕ, List, [], ◌∷◌, ◌++◌, Outcome, ok, die, ◌>>=◌, ◌==◌, if◌then◌else◌,
}
use tema2_pc_client_server_t.Base.Int.{ℤ, is_neg}
use tema2_pc_client_server_t.Base.Map.{text_key, insert, at, touch}
use tema2_pc_client_server_t.App.News.{get_news_topic}
use tema2_pc_client_server_t.Server.State.{
  State, connected, disconnected, Subscriber, default_subscriber, Broker, Subscriptions, World,
  SendAnswer, multi_send,
}
use tema2_pc_client_server_t.Server.Commands.{client}

unfoldable pub send_packet_to_sub : SendAnswer → ℤ → List ℕ → World → Outcome World
send_packet_to_sub answer fd packet w = do
  (cnt, w') ← multi_send answer fd packet w
  if is_neg cnt then die else ok w'

abbrev pub with_clients : World → Broker → World
with_clients w b = record w { broker = b }

-- `clients[id].subs_queue.push(packet)`
unfoldable pub store : List ℕ → List ℕ → Broker → Broker
store packet id b = record b {
  clients =
      insert id (record (client id b) { subs_queue = (client id b).subs_queue ++ packet ∷ [] })
        b.clients;
}

-- `clients[id]` enters a missing client.
unfoldable pub touch_client : List ℕ → Broker → Broker
touch_client id b = record b { clients = touch default_subscriber id b.clients }

unfoldable pub deliver_by : SendAnswer → List ℕ → List ℕ → ℕ → World → State → Outcome World
unfolding store
deliver_by answer packet id sf w disconnected =
    if sf == 0 then ok w else ok (record w { broker = store packet id w.broker })
deliver_by answer packet id sf w connected =
    send_packet_to_sub answer (client id w.broker).sockfd packet w

-- One round of the loop of `send_news_to_subscribers`.
unfoldable pub deliver_one : SendAnswer → List ℕ → List ℕ → ℕ → World → Outcome World
unfolding deliver_by touch_client
deliver_one answer packet id sf w =
    let w' = record w { broker = touch_client id w.broker } in
    deliver_by answer packet id sf w' (client id w'.broker).state

unfoldable pub deliver_all : SendAnswer → List ℕ → Subscriptions → World → Outcome World
deliver_all answer packet [] w = ok w
deliver_all answer packet ((id, sf) ∷ rest) w =
    deliver_one answer packet id sf w >>= deliver_all answer packet rest

-- `topic_map[topic]` enters a missing topic.
unfoldable pub touch_topic : List ℕ → Broker → Broker
touch_topic topic b = record b { topic_map = touch [] topic b.topic_map }

unfoldable pub send_news_to_subscribers : SendAnswer → List ℕ → World → Outcome World
unfolding touch_topic
send_news_to_subscribers answer packet w = do
  topic ← get_news_topic packet
  let w' = record w { broker = touch_topic topic w.broker }
  deliver_all answer packet (at [] topic w'.broker.topic_map) w'

-- The loop of `unload_news_queue`, on the queue of its subscriber.
unfoldable pub unload_all : SendAnswer → ℤ → List (List ℕ) → World → Outcome World
unload_all answer fd [] w = ok w
unload_all answer fd (packet ∷ rest) w =
    send_packet_to_sub answer fd packet w >>= unload_all answer fd rest

-- `unload_news_queue`. The subscriber is a copy: what is popped from its queue stays in the map's.
unfoldable pub unload_news_queue : SendAnswer → Subscriber → World → Outcome World
unfolding unload_all
unload_news_queue answer sub w = unload_all answer sub.sockfd sub.subs_queue w
