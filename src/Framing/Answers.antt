-- ===== src/Framing/Answers.antt =====
-- `BufferedTcpSocket::recv` on every answer of the system call.
use tema2_pc_client_server_t.Base.{
  ◌≡◌, refl, Bool, true, false, none, some, [], ◌∷◌, length, Outcome, ok, die, fault, out_of_fuel,
  ◌>>=◌, if◌then◌else◌,
}
use tema2_pc_client_server_t.Base.Int.{ℤ, pos, minus_one}
use tema2_pc_client_server_t.Base.Words.{IsBytes}
use tema2_pc_client_server_t.Framing.{
  Socket, Memory, Code, is_too_big, Received, failed, chunk, reset, read, recv, recv_answer,
}
use tema2_pc_client_server_t.Framing.Spec.{header, feeds}
use tema2_pc_client_server_t.Framing.Valid.{IsValid, view, reset-IsValid}
use tema2_pc_client_server_t.Framing.Refines.{Read, read-Read}

-- The system call returns bytes.
abbrev pub AreBytes : Received → Type 0
AreBytes failed = Unit
AreBytes (chunk c) = IsBytes c

-- What `recv` answers, by what the protocol makes of the chunk.
abbrev pub Answers : Socket → Received → ℤ × Code × Socket → Type 0
Answers s failed (ret, out, t) = (ret ≡ minus_one) × (out ≡ Code.no_code) × (t ≡ s)
Answers s (chunk []) (ret, out, t) =
    (ret ≡ pos 0)
    × (out ≡ Code.connection_closed)
    × (view t ≡ record { pending = header []; packets = [] })
Answers s (chunk (b ∷ bs)) (ret, out, t) =
    if is_too_big out
    then (ret ≡ pos 0) × (feeds (b ∷ bs) (view s) ≡ none)
    else (ret ≡ pos (length (b ∷ bs))) × (feeds (b ∷ bs) (view s) ≡ some (view t))

-- `recv` always returns, with a valid socket: -1 and the socket as it was on an error, 0 and
-- CONNECTION_CLOSED with everything forgotten at the end of the stream, 0 and PACKET_TOO_BIG if the
-- protocol meets a length above 65536 in the chunk, and otherwise the length of the chunk, with
-- what the protocol makes of it received.
pub recv-Answers :
    (m : Memory) (s : Socket) (r : Received)
    → IsValid s
    → AreBytes r
    → (a : ℤ × Code × Socket) × (recv m s r ≡ ok a) × IsValid a.2 × Answers s r a
unfolding recv
recv-Answers m s failed v h = ((minus_one, Code.no_code, s), refl, v, (refl, refl, refl))
recv-Answers m s (chunk []) v h = (
  (pos 0, Code.connection_closed, reset s),
  refl,
  reset-IsValid s,
  (refl, refl, unfold reset in refl),
)
recv-Answers m s (chunk (b ∷ bs)) v h = go (read m s (b ∷ bs)) (read-Read m s (b ∷ bs) v h)
  where
    at :
        (c : Code) (t : Socket)
        → IsValid t
        → (b' : Bool) → is_too_big c ≡ b'
        → (if b' then feeds (b ∷ bs) (view s) ≡ none else feeds (b ∷ bs) (view s) ≡ some (view t))
        → (a : ℤ × Code × Socket) × (recv_answer (length (b ∷ bs)) (c, t) ≡ ok a)
          × IsValid a.2
          × Answers s (chunk (b ∷ bs)) a
    at c t w true e k = ((pos 0, Code.packet_too_big, t), rw (e, recv_answer) refl, w, (refl, k))
    at c t w false e k =
        ((pos (length (b ∷ bs)), Code.no_code, t), rw (e, recv_answer) refl, w, (refl, k))

    go :
        (r : Outcome (Code × Socket))
        → Read (view s) (b ∷ bs) r
        → (a : ℤ × Code × Socket) × ((r >>= recv_answer (length (b ∷ bs))) ≡ ok a)
          × IsValid a.2
          × Answers s (chunk (b ∷ bs)) a
    go (ok (code, t)) r = at code t r.0 (is_too_big code) refl r.1
    go die r = elim r [ ]
    go fault r = elim r [ ]
    go out_of_fuel r = elim r [ ]
