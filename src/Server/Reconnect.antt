-- ===== src/Server/Reconnect.antt =====
-- What a client that comes back is sent.
use tema2_pc_client_server_t.Base.{
  ℕ, ◌≤◌, ◌≡◌, refl, ◌∙◌, some, List, [], ◌∷◌, ◌++◌, append-nil, append_assoc, arith, length, take,
  drop, All, ok,
}
use tema2_pc_client_server_t.Base.Int.{ℤ}
use tema2_pc_client_server_t.Base.Map.{text_key, int_key, lookup, at}
use tema2_pc_client_server_t.Base.CString.{c_str}
use tema2_pc_client_server_t.Framing
use tema2_pc_client_server_t.Framing.RoundTrip.{send_lem}
use tema2_pc_client_server_t.Multi
use tema2_pc_client_server_t.Server.State.{
  World, SendAnswer, Event, sends, prints, new_client, note, multi_send,
}
use tema2_pc_client_server_t.Server.Commands.{client}
use tema2_pc_client_server_t.Server.Delivery.{unload_all, unload_news_queue}
use tema2_pc_client_server_t.Server.Handler.{print_auth_confirmation, confirm}
use tema2_pc_client_server_t.Server.Deliveries.{frame, NeverFails, send_packet_to_sub_lem}

abbrev pub IsShort : List ℕ → Type 0
IsShort packet = length packet ≤ 4092

-- The frames of stored packets.
pub frames : ℤ → List (List ℕ) → List Event
frames fd [] = []
frames fd (p ∷ ps) = sends fd (frame p) ∷ frames fd ps

unload_all_lem :
    (answer : SendAnswer) (fd : ℤ) (ps : List (List ℕ)) (w : World) (s : Framing.Socket)
    → NeverFails answer
    → All IsShort ps
    → lookup fd w.multi.tcp_sockets ≡ some s
    → unload_all answer fd ps w ≡ ok (record w { log = w.log ++ frames fd ps })
unfolding unload_all frames
unload_all_lem answer fd [] w s never l e = rw (append-nil w.log) refl
unload_all_lem answer fd (p ∷ ps) w s never l e =
    rw (send_packet_to_sub_lem answer fd p w s never l.0 e) (
      unload_all_lem answer fd ps (note (sends fd (frame p)) w) s never l.1 e
      ∙ rw (append_assoc w.log (sends fd (frame p) ∷ []) (frames fd ps)) refl)

pub multi_send_lem :
    (answer : SendAnswer) (fd : ℤ) (packet : List ℕ) (w : World) (s : Framing.Socket)
    → IsShort packet
    → lookup fd w.multi.tcp_sockets ≡ some s
    → multi_send answer fd packet w
      ≡ ok (answer w.log fd (frame packet), note (sends fd (frame packet)) w)
unfolding multi_send Multi.send
multi_send_lem answer fd packet w s l e = ground (arith, send_lem packet l, e)

-- A client that TYPE_AUTH has admitted by the socket that it now has gets its confirmation, and then
-- all news that wait for it, in the order in which they came; the maps stay as they are, its queue
-- included. It is assumed that the system's `send` does not fail here, that the socket is buffered,
-- that the packet has an id that ends, and that no packet is longer than 4092 bytes.
pub confirm-unloads :
    (answer : SendAnswer) (fd : ℤ) (buf name : List ℕ) (size : ℕ) (w : World) (s : Framing.Socket)
    → NeverFails answer
    → c_str (drop 1 buf) ≡ ok name
    → IsShort (take size buf)
    → lookup fd w.multi.tcp_sockets ≡ some s
    → (client (at [] fd w.broker.ids_map) w.broker).sockfd ≡ fd
    → All IsShort (client (at [] fd w.broker.ids_map) w.broker).subs_queue
    → confirm answer fd buf size w
      ≡ ok (record w {
        log =
            w.log
            ++ prints (new_client name fd)
              ∷ sends fd (frame (take size buf))
              ∷ frames fd (client (at [] fd w.broker.ids_map) w.broker).subs_queue;
      })
unfolding confirm print_auth_confirmation unload_news_queue
confirm-unloads answer fd buf name size w s never text l e own short =
    let id = at [] fd w.broker.ids_map in
    let w1 = note (prints (new_client name fd)) w in
    let w2 = note (sends fd (frame (take size buf))) w1 in
    rw (text, multi_send_lem answer fd (take size buf) w1 s l e, own)
      (unload_all_lem answer fd (client id w.broker).subs_queue w2 s never short e
        ∙ rw
            (
              append_assoc w.log (prints (new_client name fd) ∷ [])
                  (sends fd (frame (take size buf)) ∷ []),
              append_assoc w.log
                  (prints (new_client name fd) ∷ sends fd (frame (take size buf)) ∷ [])
                  (frames fd (client id w.broker).subs_queue),
            )
            refl)
