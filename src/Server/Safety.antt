-- ===== src/Server/Safety.antt =====
-- What the handlers of server.cpp keep, whatever the clients and the system do: the invariant of
-- MultiSocket, and a property of the maps that each change of them keeps.
use tema2_pc_client_server_t.Base.{
  ℕ, refl, Option, none, some, List, [], ◌∷◌, take, drop, replicate, Holds, Holds-ok, Holds-if,
  Holds->>=, Holds-then, ok, die, ◌==◌,
}
use tema2_pc_client_server_t.Base.Int.{ℤ, minus_one, is_neg}
use tema2_pc_client_server_t.Base.Map.{text_key, int_key}
use tema2_pc_client_server_t.Base.CString.{c_str}
use tema2_pc_client_server_t.Framing.{Memory}
use tema2_pc_client_server_t.Multi
use tema2_pc_client_server_t.Multi.{
  MultiSocket, Holder, Ready, get_next_fd, select, scan, accept, is_udp, is_tcp_connection,
  has_closed,
}
use tema2_pc_client_server_t.Multi.Invariant.{IsSound}
use tema2_pc_client_server_t.Multi.Reach.{closes, receives, Step-IsSound}
use tema2_pc_client_server_t.App.{change_tcp_type_packet, type_auth, type_auth_duplicate}
use tema2_pc_client_server_t.App.News.{get_news_topic}
use tema2_pc_client_server_t.Server.State.{
  State, connected, disconnected, Subscriptions, World, SendAnswer, sends, note, multi_send,
  multi_close,
}
use tema2_pc_client_server_t.Server.Commands.{client, process_tcp_client_packet}
use tema2_pc_client_server_t.Server.Delivery.{
  send_packet_to_sub, touch_client, touch_topic, deliver_by, deliver_one, deliver_all,
  send_news_to_subscribers, unload_all, unload_news_queue,
}
use tema2_pc_client_server_t.Server.Handler.{
  print_auth_confirmation, print_auth_decline, confirm, decline, react, handle_packet, is_not_ready,
  to_size, buflen_max, handle_tcp_app_recv,
}
use tema2_pc_client_server_t.Server.Kept.{Kept}
use tema2_pc_client_server_t.Server.Processing.{Links, process-Links}

module _ (k : Kept) where
  abbrev pub IsSafe : World → Type 0
  IsSafe w = IsSound w.multi × k.Holds_in w.broker

  -- The value of a `send` does not matter.
  abbrev SendsSafely : ℤ × World → Type 0
  SendsSafely (cnt, w) = IsSafe w

  multi_send-IsSafe :
      (answer : SendAnswer) (fd : ℤ) (buf : List ℕ) (w : World)
      → IsSafe w
      → Holds SendsSafely (multi_send answer fd buf w)
  unfolding multi_send
  multi_send-IsSafe answer fd buf w v = Holds->>= SendsSafely (Multi.send fd buf w.multi) _ sent
    where
      sent :
          (o : Option (List ℕ))
          → Holds SendsSafely (elim o [
            | none ↦ ok (minus_one, w)
            | some frame ↦ ok (answer w.log fd frame, note (sends fd frame) w)
          ])
      sent none = Holds-ok SendsSafely _ v
      sent (some frame) = Holds-ok SendsSafely _ v

  send_packet_to_sub-IsSafe :
      (answer : SendAnswer) (fd : ℤ) (packet : List ℕ) (w : World)
      → IsSafe w
      → Holds IsSafe (send_packet_to_sub answer fd packet w)
  unfolding send_packet_to_sub
  send_packet_to_sub-IsSafe answer fd packet w v =
      Holds-then SendsSafely IsSafe (multi_send answer fd packet w) _
        (multi_send-IsSafe answer fd packet w v)
        (λ (cnt, w') v'.
          Holds-if IsSafe (is_neg cnt) die (ok w') (λ x e. cc) (Holds-ok IsSafe w' v'))

  deliver_one-IsSafe :
      (answer : SendAnswer) (packet id : List ℕ) (sf : ℕ) (w : World)
      → IsSafe w
      → Holds IsSafe (deliver_one answer packet id sf w)
  unfolding deliver_one deliver_by
  deliver_one-IsSafe answer packet id sf w v = by_state (client id w'.broker).state
    where
      w' : World
      w' = record w { broker = touch_client id w.broker }

      v' : IsSafe w'
      v' = (v.0, k.by_touch_client id w.broker v.1)

      by_state : (x : State) → Holds IsSafe (deliver_by answer packet id sf w' x)
      by_state connected =
          send_packet_to_sub-IsSafe answer (client id w'.broker).sockfd packet w' v'
      by_state disconnected =
          Holds-if IsSafe (sf == 0) _ _ (Holds-ok IsSafe _ v')
            (Holds-ok IsSafe _ (v'.0, k.by_store packet id w'.broker v'.1))

  deliver_all-IsSafe :
      (answer : SendAnswer) (packet : List ℕ) (subs : Subscriptions) (w : World)
      → IsSafe w
      → Holds IsSafe (deliver_all answer packet subs w)
  unfolding deliver_all
  deliver_all-IsSafe answer packet [] w v = Holds-ok IsSafe w v
  deliver_all-IsSafe answer packet ((id, sf) ∷ rest) w v =
      Holds-then IsSafe IsSafe (deliver_one answer packet id sf w) _
        (deliver_one-IsSafe answer packet id sf w v) (deliver_all-IsSafe answer packet rest)

  pub send_news-IsSafe :
      (answer : SendAnswer) (packet : List ℕ) (w : World)
      → IsSafe w
      → Holds IsSafe (send_news_to_subscribers answer packet w)
  unfolding send_news_to_subscribers
  send_news-IsSafe answer packet w v = Holds->>= IsSafe (get_news_topic packet) _ (λ topic.
      deliver_all-IsSafe answer packet _ (record w { broker = touch_topic topic w.broker })
        (v.0, k.by_touch_topic topic w.broker v.1))

  unload_all-IsSafe :
      (answer : SendAnswer) (fd : ℤ) (packets : List (List ℕ)) (w : World)
      → IsSafe w
      → Holds IsSafe (unload_all answer fd packets w)
  unfolding unload_all
  unload_all-IsSafe answer fd [] w v = Holds-ok IsSafe w v
  unload_all-IsSafe answer fd (p ∷ ps) w v =
      Holds-then IsSafe IsSafe (send_packet_to_sub answer fd p w) _
        (send_packet_to_sub-IsSafe answer fd p w v) (unload_all-IsSafe answer fd ps)

  multi_close-IsSafe : (fd : ℤ) (w : World) → IsSafe w → IsSafe (multi_close fd w)
  unfolding multi_close
  multi_close-IsSafe fd w v = (Step-IsSound (closes fd refl) v.0, v.1)

  confirm-IsSafe :
      (answer : SendAnswer) (fd : ℤ) (buf : List ℕ) (size : ℕ) (w : World)
      → IsSafe w
      → Holds IsSafe (confirm answer fd buf size w)
  unfolding confirm print_auth_confirmation unload_news_queue
  confirm-IsSafe answer fd buf size w v =
      Holds-then IsSafe IsSafe (print_auth_confirmation fd buf w) _
        (Holds->>= IsSafe (c_str (drop 1 buf)) _ (λ id. Holds-ok IsSafe _ v))
        (λ w1 v1.
          Holds-then SendsSafely IsSafe (multi_send answer fd (take size buf) w1) _
            (multi_send-IsSafe answer fd (take size buf) w1 v1)
            (λ (cnt, w2) v2. unload_all-IsSafe answer _ _ w2 v2))

  decline-IsSafe :
      (answer : SendAnswer) (fd : ℤ) (buf : List ℕ) (w : World)
      → IsSafe w
      → Holds IsSafe (decline answer fd buf w)
  unfolding decline print_auth_decline
  decline-IsSafe answer fd buf w v =
      Holds-then IsSafe IsSafe (print_auth_decline buf w) _
        (Holds->>= IsSafe (c_str (drop 1 buf)) _ (λ id. Holds-ok IsSafe _ v))
        (λ w1 v1.
          Holds->>= IsSafe (change_tcp_type_packet type_auth_duplicate buf) _ (λ (reply, size).
            Holds-then SendsSafely IsSafe (multi_send answer fd (take size reply) w1) _
              (multi_send-IsSafe answer fd (take size reply) w1 v1)
              (λ (cnt, w2) v2. Holds-ok IsSafe _ (multi_close-IsSafe fd w2 v2))))

  handle_packet-IsSafe :
      (mem : Memory) (answer : SendAnswer) (fd : ℤ) (buf : List ℕ) (size : ℕ) (w : World)
      → IsSafe w
      → Holds IsSafe (handle_packet mem answer fd buf size w)
  unfolding handle_packet react
  handle_packet-IsSafe mem answer fd buf size w v =
      Holds-then (Links k) IsSafe (process_tcp_client_packet mem fd buf size w.broker) _
        (process-Links k mem fd buf size w.broker v.1)
        (λ (type, b) l.
          Holds-if IsSafe (type == type_auth) _ _
            (confirm-IsSafe answer fd buf size (record w { broker = b }) (v.0, l))
            (Holds-if IsSafe (type == type_auth_duplicate) _ _
              (decline-IsSafe answer fd buf (record w { broker = b }) (v.0, l))
              (Holds-ok IsSafe _ (v.0, l))))

  pub handle_tcp_app_recv-IsSafe :
      (mem : Memory) (answer : SendAnswer) (fd : ℤ) (w : World)
      → IsSafe w
      → Holds IsSafe (handle_tcp_app_recv mem answer fd w)
  unfolding handle_tcp_app_recv
  handle_tcp_app_recv-IsSafe mem answer fd w v =
      Holds-then (λ x. IsSound x.3) IsSafe (Multi.recv (replicate buflen_max 0) w.multi) _
        (λ (ret, out, buf, m) e. Step-IsSound (receives (replicate buflen_max 0) ret out buf e) v.0)
        (λ (ret, out, buf, m) s.
          Holds-if IsSafe (is_not_ready out) _ _ (Holds-ok IsSafe _ (s, v.1)) (
            handle_packet-IsSafe mem answer fd buf (to_size ret) (record w { multi = m }) (s, v.1)))
