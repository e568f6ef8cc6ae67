-- ===== src/Server/Tests/Sequences.antt =====
-- Sequences of requests, and of news.
use tema2_pc_client_server_t.Base.{
  some, ℕ, ◌≡◌, refl, List, [], ◌∷◌, ◌++◌, arith, inl, inr, Bool-cases, replicate, take, ok,
}
use tema2_pc_client_server_t.Base.Int.{ℤ, pos}
use tema2_pc_client_server_t.Base.Map.{text_key, int_key, same_text, lookup, at}
use tema2_pc_client_server_t.Base.Sorted.{text_order, int_order, IsSorted}
use tema2_pc_client_server_t.Framing.Tests.{zeroed, empty_socket}
use tema2_pc_client_server_t.App.{generate_tcp_auth_packet, type_sub_sf}
use tema2_pc_client_server_t.Server.State.{World, sends, prints, new_client}
use tema2_pc_client_server_t.Server.Commands.{client}
use tema2_pc_client_server_t.Server.Handler.{handle_packet}
use tema2_pc_client_server_t.Server.Abstract.{
  logs_in, asks, leaves, Happening, asked_for, published, happen_all, foretell_all, view, socket_of,
}
use tema2_pc_client_server_t.Server.History.{happen_all-foretell_all}
use tema2_pc_client_server_t.Server.Invariants.{AreSorted}
use tema2_pc_client_server_t.Multi.Tests.{one, one-IsSound}
use tema2_pc_client_server_t.Framing.{Socket}
use tema2_pc_client_server_t.Server.Deliveries.{frame}
use tema2_pc_client_server_t.Server.Deliveries.Away.{
  Packets, publish_all, all_news, all_kept, PublishedAll, publish_all-PublishedAll,
}
use tema2_pc_client_server_t.Server.Reconnect.{frames}
use tema2_pc_client_server_t.Server.Returning.{returning-gets}
use tema2_pc_client_server_t.Server.Tests.{
  takes_all, id_b, topic_t, stored_news, broker, world, never, reachable, news_topic, one_lookup,
  b-free,
}

topics-IsSorted : (t : List ℕ) → IsSorted (at [] t broker.topic_map)
unfolding at lookup
topics-IsSorted t = elim (Bool-cases (same_text topic_t t)) [
  | inl e ↦ rw (e, at, lookup) ((refl, tt), (tt, tt))
  | inr e ↦ rw (e, at, lookup) tt
]

abbrev history : List Happening
history =
    asked_for (logs_in (pos 4) id_b)
    ∷ asked_for (asks type_sub_sf (pos 4) topic_t)
    ∷ asked_for (leaves (pos 4))
    ∷ published stored_news topic_t
    ∷ []

pub broker-AreSorted : AreSorted broker
broker-AreSorted = (((refl, tt), (tt, tt)), (tt, tt), (tt, tt), topics-IsSorted)

sockets_there :
    (id : List ℕ) (fd : ℤ)
    → (view broker).socket id ≡ some fd
    → (s : Socket) × (lookup fd one.tcp_sockets ≡ some s)
unfolding view socket_of lookup
sockets_there id fd e = let by_4 : fd ≡ pos 4 = ground arith in (empty_socket, rw by_4 one_lookup)

happen_all-foretell_all_example :
    (w' : World) × (happen_all takes_all history world
      ≡ ok ((foretell_all history (view broker)).0, w'))
    × (view w'.broker ≡ (foretell_all history (view broker)).1)
happen_all-foretell_all_example =
    happen_all-foretell_all takes_all history world never
      ((empty_socket, one_lookup), (inr (inl refl), (tt, ((omega arith, news_topic), tt))))
      (one-IsSound, broker-AreSorted) sockets_there

abbrev two : Packets
two = (stored_news, topic_t) ∷ (stored_news, topic_t) ∷ []

publish_all-PublishedAll_example :
    (w' : World) × (publish_all takes_all two world ≡ ok w') × PublishedAll two world w'
publish_all-PublishedAll_example =
    publish_all-PublishedAll takes_all two world never
      ((omega arith, news_topic), ((omega arith, news_topic), tt)) reachable topics-IsSorted

no_queue : (client id_b broker).subs_queue ≡ []
unfolding at lookup
no_queue = refl

returning-gets_example :
    (packet : List ℕ) × (generate_tcp_auth_packet (id_b ++ 0 ∷ []) (replicate 12 5)
      ≡ ok (packet, 12))
    × (w1 : World) × (publish_all takes_all two world ≡ ok w1)
    × (w2 : World) × (handle_packet zeroed takes_all (pos 4) packet 12 w1 ≡ ok w2)
    × (w2.log
        ≡ ([] ++ all_news two broker)
          ++ prints (new_client id_b (pos 4))
            ∷ sends (pos 4) (frame (take 12 packet))
            ∷ frames (pos 4) ((client id_b broker).subs_queue ++ all_kept two id_b broker))
returning-gets_example =
    returning-gets takes_all zeroed two world (pos 4) id_b [] (replicate 12 5) empty_socket never
      ((omega arith, news_topic), ((omega arith, news_topic), tt)) reachable topics-IsSorted b-free
      (rw no_queue tt) one_lookup (omega arith, tt) (omega arith) (omega arith)
