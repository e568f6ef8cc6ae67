-- ===== src/Client/Typed.antt =====
-- What the client does with a line that the user types.
use tema2_pc_client_server_t.Base.{
  ℕ, ◌≤◌, ◌≡◌, refl, some, List, [], ◌∷◌, ◌++◌, arith, length, drop, ok, fault,
}
use tema2_pc_client_server_t.Base.Int.{ℤ, pos}
use tema2_pc_client_server_t.Base.Map.{int_key, lookup}
use tema2_pc_client_server_t.Base.Words.{memcpy_fits, write_at_front}
use tema2_pc_client_server_t.Base.CString.{c_str_text, nuls, length-nuls}
use tema2_pc_client_server_t.Framing
use tema2_pc_client_server_t.Framing.RoundTrip.{send_lem}
use tema2_pc_client_server_t.Framing.{Memory}
use tema2_pc_client_server_t.Server.Deliveries.{frame}
use tema2_pc_client_server_t.Multi
use tema2_pc_client_server_t.App.Display.{Doubles}
use tema2_pc_client_server_t.Client.Main.{
  Client, Turn, sends, log_event, client_send, type_line, on_typed, handle_fd,
}
use tema2_pc_client_server_t.Client.Buffer.{rest, type_line_lem}

pub client_send_lem :
    (sent : ℤ) (packet : List ℕ) (c : Client) (s : Framing.Socket)
    → length packet ≤ 4092
    → lookup c.sockfd_tcp c.multi.tcp_sockets ≡ some s
    → client_send sent packet c ≡ ok (sent, log_event (sends c.sockfd_tcp (frame packet)) c)
unfolding client_send Multi.send
client_send_lem sent packet c s l e = ground (arith, send_lem packet l, e)

abbrev exit_name : List ℕ
exit_name = b'e' ∷ b'x' ∷ b'i' ∷ b't' ∷ []

-- With a buffer of at least 256 bytes, the client does not ask for the next descriptor behind an
-- empty line: it is standard input again, and neither its sockets and their queue nor what it has
-- done change.
pub handle_fd-empty :
    (d : Doubles) (turn : Turn) (c : Client)
    → turn.typed ≡ 10 ∷ []
    → 256 ≤ length c.buffer
    → (c' : Client) × (handle_fd d turn (pos 0) c ≡ ok (some (pos 0), c'))
      × (c'.multi ≡ c.multi)
      × (c'.log ≡ c.log)
unfolding handle_fd on_typed
handle_fd-empty d turn c typed size = (
  record c { buffer = 0 ∷ 0 ∷ rest [] c.buffer tt (omega arith) size },
  rw
      (
        typed,
        type_line_lem [] c.buffer tt (omega arith) size,
        c_str_text [] (0 ∷ rest [] c.buffer tt (omega arith) size) tt,
      )
      refl,
  refl,
  refl,
)

-- At the end of standard input `fgets` leaves a buffer of at least 256 bytes empty, and a NUL is
-- written before its front.
pub handle_fd-end :
    (d : Doubles) (turn : Turn) (c : Client)
    → turn.typed ≡ []
    → 256 ≤ length c.buffer
    → handle_fd d turn (pos 0) c ≡ fault
unfolding handle_fd on_typed type_line
handle_fd-end d turn c typed size =
    rw
      (
        typed,
        memcpy_fits c.buffer 0 (nuls 256) (omega (arith, length-nuls 256)),
        write_at_front c.buffer (nuls 256),
        memcpy_fits (nuls 256 ++ drop (length (nuls 256)) c.buffer) 0 [] (omega arith),
        write_at_front (nuls 256 ++ drop (length (nuls 256)) c.buffer) [],
        c_str_text [] (nuls 255 ++ drop (length (nuls 256)) c.buffer) tt,
      )
      refl
