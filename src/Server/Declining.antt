-- ===== src/Server/Declining.antt =====
-- What the server does with a client that is declined, and what comes of it.
use tema2_pc_client_server_t.Base.{
  ℕ, ◌<◌, ◌≡◌, refl, some, List, [], ◌∷◌, ◌++◌, append_assoc, arith, length, drop, ok, die,
}
use tema2_pc_client_server_t.Base.Int.{ℤ}
use tema2_pc_client_server_t.Base.Map.{int_key, lookup, lookup-erase}
use tema2_pc_client_server_t.Base.Int.{eqb_iff}
use tema2_pc_client_server_t.Base.Words.{memcpy_fits, write_at_front}
use tema2_pc_client_server_t.Base.CString.{c_str}
use tema2_pc_client_server_t.Framing
use tema2_pc_client_server_t.Multi
use tema2_pc_client_server_t.App.{type_auth_duplicate, change_tcp_type_packet}
use tema2_pc_client_server_t.Server.State.{
  World, SendAnswer, sends, closes, prints, already_connected, note, multi_send, multi_close,
}
use tema2_pc_client_server_t.Server.Delivery.{send_packet_to_sub}
use tema2_pc_client_server_t.Server.Handler.{print_auth_decline, decline}
use tema2_pc_client_server_t.Server.Deliveries.{frame}
use tema2_pc_client_server_t.Server.Reconnect.{multi_send_lem}

-- The state behind `decline`.
abbrev pub declined : ℤ → List ℕ → World → World
declined fd name w = record w {
  multi = Multi.close fd w.multi;
  log =
      w.log
      ++ prints (already_connected name)
        ∷ sends fd (frame (type_auth_duplicate ∷ []))
        ∷ closes fd
        ∷ [];
}

change_lem :
    (buf : List ℕ)
    → 0 < length buf
    → (rest : List ℕ) × (change_tcp_type_packet type_auth_duplicate buf
        ≡ ok (type_auth_duplicate ∷ rest, 1))
unfolding change_tcp_type_packet
change_lem buf l = (
  drop 1 buf,
  rw
      (
        memcpy_fits buf 0 (type_auth_duplicate ∷ []) (omega arith),
        write_at_front buf (type_auth_duplicate ∷ []),
      )
      refl,
)

-- TYPE_AUTH_DUPLICATE on a buffered socket, for a packet whose id ends: the server says that this id
-- is connected already, answers with one byte, the type, and closes the socket; its maps stay as they
-- are, also if one of them still names the socket; and the first packet of news that it then sends to
-- that socket makes it exit.
pub decline-closes :
    (answer : SendAnswer) (fd : ℤ) (buf name : List ℕ) (w : World) (s : Framing.Socket)
    → c_str (drop 1 buf) ≡ ok name
    → 0 < length buf
    → lookup fd w.multi.tcp_sockets ≡ some s
    → (decline answer fd buf w ≡ ok (declined fd name w))
      × ((packet : List ℕ) → send_packet_to_sub answer fd packet (declined fd name w) ≡ die)
unfolding decline print_auth_decline multi_close send_packet_to_sub multi_send Multi.send
    Multi.close
decline-closes answer fd buf name w s text l e =
    let (rest, changed) = change_lem buf l in
    let w1 = note (prints (already_connected name)) w in
    (
      rw
          (
            text,
            changed,
            multi_send_lem answer fd (type_auth_duplicate ∷ []) w1 s (omega arith) e,
            append_assoc w.log (prints (already_connected name) ∷ [])
                (sends fd (frame (type_auth_duplicate ∷ [])) ∷ []),
            append_assoc w.log
                (prints (already_connected name) ∷ sends fd (frame (type_auth_duplicate ∷ [])) ∷ [])
                (closes fd ∷ []),
          )
          refl,
      λ packet. ground (arith, lookup-erase fd fd w.multi.tcp_sockets, eqb_iff fd fd),
    )
