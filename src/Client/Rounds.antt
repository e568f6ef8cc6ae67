-- ===== src/Client/Rounds.antt =====
-- Runs of the client: rounds of its two loops, and what all of them keep.
use tema2_pc_client_server_t.Base.{
  ℕ, ◌+◌, ◌<◌, ◌≡◌, refl, Bool, Bool-cases, true, false, Option, none, some, List, [], ◌∷◌, ◌++◌,
  inl, inr, length, take, ok, ◌==◌, All, Holds, Holds-ok, Holds-if, Holds->>=, Holds-then,
}
use tema2_pc_client_server_t.Base.Int.{ℤ, pos, is_neg}
use tema2_pc_client_server_t.Base.Map.{int_key}
use tema2_pc_client_server_t.Base.Words.{memcpy}
use tema2_pc_client_server_t.Base.CString.{strncpy}
use tema2_pc_client_server_t.Framing.{Memory}
use tema2_pc_client_server_t.Multi
use tema2_pc_client_server_t.Multi.{
  MultiSocket, Address, new_multi, connect, get_next_fd, received, has_closed, select, add_fd,
}
use tema2_pc_client_server_t.Multi.Invariant.{IsSound, new_multi-IsSound}
use tema2_pc_client_server_t.Multi.Reach.{Step-IsSound, connects, adds}
use tema2_pc_client_server_t.Multi.Waiting.{IsAnswer}
use tema2_pc_client_server_t.App.{
  client_id_len, generate_tcp_auth_packet, type_auth, get_tcp_packet_type,
}
use tema2_pc_client_server_t.App.Display.{Doubles}
use tema2_pc_client_server_t.Server.Handler.{to_size}
use tema2_pc_client_server_t.Client.Main.{
  Client, Turn, client_send, handle_fd, await, greet, admission, join,
}
use tema2_pc_client_server_t.Client.Invariant.{Spans, copy-Spans, PacketSpans, ReceivesWell, IsWell}
use tema2_pc_client_server_t.Base.CString.{IsText}
use tema2_pc_client_server_t.Client.Words.{IsBlank}
use tema2_pc_client_server_t.Client.Bounded.{IsSafely, handle_fd-IsSafely}
use tema2_pc_client_server_t.Client.Keeping.{
  recv-ReceivesWell, SendsWell, client_send-SendsWell, handle_fd-GoesWell, await-SendsWell,
}

-- A client that may go on, and the answer to a login.
abbrev JoinsWell : Option Client → Type 0
JoinsWell none = Unit
JoinsWell (some c) = IsWell c

auth-Spans :
    (n : ℕ) (id buf : List ℕ)
    → Spans n buf
    → Holds (PacketSpans n) (generate_tcp_auth_packet id buf)
unfolding generate_tcp_auth_packet
auth-Spans n id buf h =
    Holds-then (Spans n) (PacketSpans n) (memcpy buf 0 (type_auth ∷ [])) _
      (copy-Spans n buf 0 (type_auth ∷ []) h)
      (λ typed a. Holds->>= (PacketSpans n) (strncpy client_id_len id) _ (λ name.
        Holds-then (Spans n) (PacketSpans n) (memcpy typed 1 name) _ (copy-Spans n typed 1 name a)
          (λ named b. Holds-ok (PacketSpans n) (named, 1 + client_id_len) b)))

greet-IsWell :
    (turn : Turn) (stack : Memory) (fd : ℤ) (done : Address → Bool) (addr : Address) (id : List ℕ)
    → Holds IsWell (greet turn stack fd done addr id)
unfolding greet
greet-IsWell turn stack fd done addr id =
    Holds-then IsSound IsWell (connect turn.memory fd done addr new_multi) _
      (λ m e. Step-IsSound (connects turn.memory fd done addr e) new_multi-IsSound)
      (λ m sound.
        Holds-then (PacketSpans 2048) IsWell (generate_tcp_auth_packet id (stack.fresh 2048)) _
          (auth-Spans 2048 id (stack.fresh 2048) (stack.length-fresh 2048))
          (λ (packet, size) b.
            Holds-then SendsWell IsWell (client_send turn.sent (take size packet) _) _
              (client_send-SendsWell turn.sent (take size packet) _
                (sound, b, stack.length-fresh 50))
              (λ (n, c) v. Holds-if IsWell (is_neg n) _ _ (λ x e. cc) (Holds-ok IsWell c v))))

admission-JoinsWell : (c : Client) → IsWell c → Holds JoinsWell (admission c)
unfolding admission
admission-JoinsWell c v =
    Holds-then (ReceivesWell 2048) JoinsWell (Multi.recv c.buffer c.multi) _
      (recv-ReceivesWell 2048 c.buffer c.multi v.0 v.1)
      (λ (ret, out, buffer, m) (sound, b).
        Holds-if JoinsWell (is_neg ret) _ _ (λ x e. cc)
          (Holds-ok JoinsWell _
            (elim (Bool-cases (get_tcp_packet_type buffer (to_size ret) == type_auth)) [
              | inl t ↦ rw t (Step-IsSound (adds (pos 0) refl) sound, b, v.2)
              | inr t ↦ rw t tt
            ])))

join-JoinsWell :
    (turn : Turn) (stack : Memory) (fd : ℤ) (done : Address → Bool) (addr : Address) (id : List ℕ)
    → All IsAnswer turn.answers
    → Holds JoinsWell (join turn stack fd done addr id)
unfolding join
join-JoinsWell turn stack fd done addr id bytes =
    Holds-then IsWell JoinsWell (greet turn stack fd done addr id) _
      (greet-IsWell turn stack fd done addr id)
      (λ c v.
        Holds-then SendsWell JoinsWell (await turn c) _ (await-SendsWell turn c bytes v)
          (λ (next, c') w. admission-JoinsWell c' w))

-- The rounds of the two loops of the client, from a descriptor and a state on.
pub data Works (d : Doubles) (fd : ℤ) (c : Client) : ℤ → Client → Type 0 where
  here : Works d fd c fd c
  waits :
      {fd1 fd2 : ℤ} {c1 c2 : Client} (turn : Turn)
      → Works d fd c fd1 c1
      → is_neg fd1 ≡ true
      → All IsAnswer turn.answers
      → await turn c1 ≡ ok (fd2, c2)
      → Works d fd c fd2 c2
  handles :
      {fd1 fd2 : ℤ} {c1 c2 : Client} (turn : Turn)
      → Works d fd c fd1 c1
      → is_neg fd1 ≡ false
      → handle_fd d turn fd1 c1 ≡ ok (some fd2, c2)
      → Works d fd c fd2 c2

IsWell-along :
    (d : Doubles) (fd0 : ℤ) (c0 : Client) (fd : ℤ) (c : Client)
    → IsWell c0
    → Works d fd0 c0 fd c
    → IsWell c
IsWell-along d fd0 c0 fd c v here = v
IsWell-along d fd0 c0 fd c v (waits {fd1} {fd2} {c1} {c2} turn before none_ready bytes e) =
    await-SendsWell turn c1 bytes (IsWell-along d fd0 c0 fd1 c1 v before) (fd2, c2) e
IsWell-along d fd0 c0 fd c v (handles {fd1} {fd2} {c1} {c2} turn before ready e) =
    handle_fd-GoesWell d turn fd1 c1 (IsWell-along d fd0 c0 fd1 c1 v before) (some fd2, c2) e

-- In every state that a client gets to once it is admitted, whatever its user types and its server
-- sends: each buffered socket satisfies the invariant of BufferedTcpSocket, is waited for by `select`
-- and is at most `fdmax`, and the arrays `buffer` and `topic` have 2048 and 50 bytes.
pub Works-IsWell :
    (d : Doubles) (turn : Turn) (stack : Memory) (fd : ℤ) (done : Address → Bool) (addr : Address)
    (id : List ℕ) (from at : ℤ) (c0 c : Client)
    → All IsAnswer turn.answers
    → join turn stack fd done addr id ≡ ok (some c0)
    → Works d from c0 at c
    → IsSound c.multi × (length c.buffer ≡ 2048) × (length c.topic ≡ 50)
Works-IsWell d turn stack fd done addr id from at c0 c bytes joined =
    IsWell-along d from c0 at c (join-JoinsWell turn stack fd done addr id bytes (some c0) joined)

-- In every state that a client gets to once it is admitted, whatever its user has typed and its
-- server has sent, the next line of the user, if it is not blank and has at most 253 bytes, is
-- handled within the client's memory, whatever its words and their lengths: the client goes on or
-- ends, or dies since the system's `send` fails or the connection is gone.
pub Works-IsSafely :
    (d : Doubles) (turn : Turn) (stack : Memory) (fd : ℤ) (done : Address → Bool) (addr : Address)
    (id : List ℕ) (from at : ℤ) (c0 c : Client) (next : Turn) (text : List ℕ)
    → All IsAnswer turn.answers
    → join turn stack fd done addr id ≡ ok (some c0)
    → Works d from c0 at c
    → next.typed ≡ text ++ 10 ∷ []
    → IsText text
    → ¬ IsBlank text
    → length text < 254
    → IsSafely next c (handle_fd d next (pos 0) c)
Works-IsSafely d turn stack fd done addr id from at c0 c next text bytes joined works =
    handle_fd-IsSafely d next c text
      (Works-IsWell d turn stack fd done addr id from at c0 c bytes joined works)
