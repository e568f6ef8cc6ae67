-- ===== src/Framing/RoundTrip.antt =====
-- From `send` on one side to `write_packet` on the other: what is sent arrives, however TCP cuts
-- the stream.
use tema2_pc_client_server_t.Base.{
  ℕ, ◌≤◌, ◌<◌, ◌≡◌, refl, ◌∙◌, Bool, true, false, some, List, [], ◌∷◌, ◌++◌, append-nil,
  append_assoc, map, arith, length, take, take-append, drop-append, take_all, drop_all,
  length-append, reverse, >>=-eq-ok, sym, All, Outcome, ok, die, fault, out_of_fuel, ◌>>=◌,
}
use tema2_pc_client_server_t.Base.Int.{ℤ, pos}
use tema2_pc_client_server_t.Base.Words.{
  word_bytes, swap32, bytes_word-reverse-swap32, bytes_word, memcpy, memcpy_fits, write_at,
  take-write_at, IsBytes,
}
use tema2_pc_client_server_t.Framing.{
  Packet, Socket, Memory, Code, chunk, packet_ready, new_socket, read, recv, write_packet, send,
  recv_answer,
}
use tema2_pc_client_server_t.Framing.Spec.{
  View, header, feeds, feeds-append, feeds-header_end, feeds-body_end, next-eq-some,
}
use tema2_pc_client_server_t.Framing.Valid.{
  IsValid, IsWhole, payload, view, new_socket-IsValid, IsValidAt-queue, pending_at-queue,
}
use tema2_pc_client_server_t.Framing.Refines.{Read, read-Read}

abbrev pub concat : List (List ℕ) → List ℕ
concat [] = []
concat (c ∷ cs) = c ++ concat cs

-- A chunk that the system call `recv` may return, other than the end of the stream.
abbrev pub IsChunk : List ℕ → Type 0
IsChunk c = (0 < length c) × IsBytes c

-- A packet that a peer may send: `send` refuses longer ones.
abbrev pub IsSendable : List ℕ → Type 0
IsSendable p = (0 < length p) × (length p ≤ 4092) × IsBytes p

-- One `recv` after another.
unfoldable pub recv_all : Memory → Socket → List (List ℕ) → Outcome Socket
recv_all m s [] = ok s
recv_all m s (c ∷ cs) = do (ret, out, s') ← recv m s (chunk c); recv_all m s' cs

-- One `send` after another: the bytes on the stream.
unfoldable pub send_all : List (List ℕ) → Outcome (List ℕ)
send_all [] = ok []
send_all (p ∷ ps) = do bytes ← send p; rest ← send_all ps; ok (bytes ++ rest)

-- `recv` on one chunk that holds no length above the limit.
pub recv_chunk :
    (m : Memory) (s : Socket) (c : List ℕ) (w : View)
    → IsValid s
    → IsChunk c
    → feeds c (view s) ≡ some w
    → (t : Socket) × (recv m s (chunk c) ≡ ok (pos (length c), Code.no_code, t))
      × IsValid t
      × (view t ≡ w)
unfolding recv
recv_chunk m s [] w v h e = absurd (omega (arith, h.0))
recv_chunk m s (b ∷ bs) w v h e = go (read m s (b ∷ bs)) (read-Read m s (b ∷ bs) v h.1)
  where
    go :
        (r : Outcome (Code × Socket))
        → Read (view s) (b ∷ bs) r
        → (t : Socket) × ((r >>= recv_answer (length (b ∷ bs)))
            ≡ ok (pos (length (b ∷ bs)), Code.no_code, t))
          × IsValid t
          × (view t ≡ w)
    go (ok (code, t)) r = (t, ground (arith, e, r.1), r.0, ground (arith, e, r.1))
    go die r = elim r [ ]
    go fault r = elim r [ ]
    go out_of_fuel r = elim r [ ]

recv_all-view :
    (m : Memory) (s : Socket) (cs : List (List ℕ)) (w : View)
    → IsValid s
    → All IsChunk cs
    → feeds (concat cs) (view s) ≡ some w
    → (t : Socket) × (recv_all m s cs ≡ ok t) × IsValid t × (view t ≡ w)
unfolding recv_all
recv_all-view m s [] w v h e = (s, refl, v, unfold feeds in (ground arith))
recv_all-view m s (c ∷ cs) w v h e =
    let (u, eu, er) =
      next-eq-some (feeds c (view s)) (feeds (concat cs))
        (sym (feeds-append c (concat cs) (view s)) ∙ e) in
    let (t, et, vt, wt) = recv_chunk m s c u v h.0 eu in
    let (t', et', vt', wt') = recv_all-view m t cs w vt h.1 (rw wt er) in (t', rw et et', vt', wt')

feeds-frame :
    (front p : List ℕ) (ps : List (List ℕ))
    → length front ≡ 4
    → bytes_word (reverse front) ≡ length p
    → IsSendable p
    → feeds (front ++ p) (record { pending = header []; packets = ps })
      ≡ some (record { pending = header []; packets = ps ++ p ∷ [] })
unfolding feeds
feeds-frame front p ps l e h = ground (
  arith,
  feeds-header_end 4 (front ++ p) [] ps,
  length-append front p,
  take-append 4 front p,
  drop-append 4 front p,
  feeds-body_end (length p) p [] ps,
  take_all (length p) p,
  drop_all (length p) p,
)

pub send_lem : (p : List ℕ) → length p ≤ 4092 → send p ≡ ok (word_bytes 4 (swap32 (length p)) ++ p)
unfolding send
send_lem p h = ground arith

feeds-send_all :
    (ps qs : List (List ℕ)) (stream : List ℕ)
    → All IsSendable ps
    → send_all ps ≡ ok stream
    → feeds stream (record { pending = header []; packets = qs })
      ≡ some (record { pending = header []; packets = qs ++ ps })
unfolding send_all
feeds-send_all [] qs stream h e = unfold feeds in (ground (arith, append-nil qs))
feeds-send_all (p ∷ ps) qs stream h e =
    let sent : (send_all ps >>= λ rest. ok (frame ++ rest)) ≡ ok stream =
      rw (send_lem p h.0.1) at e in
    let (rest, er, e') = >>=-eq-ok (send_all ps) (λ rest. ok (frame ++ rest)) sent in
    ground (
      arith,
      feeds-append frame rest (record { pending = header []; packets = qs }),
      feeds-frame (word_bytes 4 (swap32 (length p))) p qs refl
          (bytes_word-reverse-swap32 (length p) (omega (arith, h.0.1))) h.0,
      feeds-send_all ps (qs ++ p ∷ []) rest h.1 er,
      append_assoc qs (p ∷ []) ps,
    )
  where
    frame : List ℕ
    frame = word_bytes 4 (swap32 (length p)) ++ p

-- Packets of 1 to 4092 bytes that one side passes to `send`, one after another, are the packets that
-- a new socket on the other side has in its queue, in that order and with nothing half received,
-- however the stream is cut into the chunks that its calls of `recv` get.
pub recv_all-send_all :
    (m : Memory) (fd : ℤ) (ps : List (List ℕ)) (stream : List ℕ) (chunks : List (List ℕ))
    → All IsSendable ps
    → send_all ps ≡ ok stream
    → All IsChunk chunks
    → concat chunks ≡ stream
    → (s : Socket) × (recv_all m (new_socket m fd) chunks ≡ ok s)
      × IsValid s
      × (view s ≡ record { pending = header []; packets = ps })
recv_all-send_all m fd ps stream chunks hp e hc cut =
    recv_all-view m (new_socket m fd) chunks _ (new_socket-IsValid m fd) hc
      (rw cut (unfold new_socket in (feeds-send_all ps [] stream hp e)))

-- On a valid socket, the oldest packet, if it fits the caller's buffer, is written to its front:
-- `write_packet` returns its length and takes it, and nothing else, out of what has been received.
pub write_packet_fits :
    (s : Socket) (buf p : List ℕ) (ps : List (List ℕ))
    → IsValid s
    → (view s).packets ≡ p ∷ ps
    → length p ≤ length buf
    → (bytes : List ℕ) × (t : Socket) × (write_packet s buf ≡ ok (length p, bytes, t))
      × (take (length p) bytes ≡ p)
      × IsValid t
      × (view t ≡ record { pending = (view s).pending; packets = ps })
unfolding write_packet
write_packet_fits s buf p ps v e h = go s.packet_queue refl v.whole e
  where
    go :
        (q : List Packet)
        → s.packet_queue ≡ q
        → All IsWhole q
        → map payload q ≡ p ∷ ps
        → (bytes : List ℕ) × (t : Socket) × (write_packet s buf ≡ ok (length p, bytes, t))
          × (take (length p) bytes ≡ p)
          × IsValid t
          × (view t ≡ record { pending = (view s).pending; packets = ps })
    go [] eq w e = cc
    go (x ∷ q) eq w e = (
      write_at buf 0 p,
      record s { packet_queue = q },
      ground (arith, take_all x.size x.memory, memcpy_fits buf 0 (take x.size x.memory)),
      take-write_at buf 0 p (length p) (omega arith) (omega arith),
      record { progress = IsValidAt-queue s.size_read s q v.progress; whole = w.1 },
      ground (arith, pending_at-queue s.size_read s q),
    )

-- On a valid socket whose oldest packet is longer than the caller's buffer, `write_packet` writes
-- past the end of the buffer.
pub write_packet_overflows :
    (s : Socket) (buf p : List ℕ) (ps : List (List ℕ))
    → IsValid s
    → (view s).packets ≡ p ∷ ps
    → length buf < length p
    → write_packet s buf ≡ fault
unfolding write_packet
write_packet_overflows s buf p ps v e h = go s.packet_queue refl e
  where
    go :
        (q : List Packet) → s.packet_queue ≡ q → map payload q ≡ p ∷ ps → write_packet s buf ≡ fault
    go [] eq e = cc
    go (x ∷ q) eq e = unfold memcpy in (ground (arith))

pub packet_ready_lem :
    (s : Socket) (p : List ℕ) (ps : List (List ℕ))
    → (view s).packets ≡ p ∷ ps
    → packet_ready s ≡ true
unfolding packet_ready
packet_ready_lem s p ps e = go s.packet_queue e
  where
    go :
        (q : List Packet)
        → map payload q ≡ p ∷ ps
        → ◌≡◌ {A = Bool} (elim q [ [] ↦ false | x ∷ xs ↦ true ]) true
    go [] e = cc
    go (x ∷ q) e = refl
