-- ===== src/Framing/Refines.antt =====
-- `BufferedTcpSocket` implements the framing protocol: `read` on a chunk does to what has been
-- received what the protocol does byte by byte, and never touches memory out of bounds.
use tema2_pc_client_server_t.Base.{
  ℕ, zero, suc, ◌+◌, ◌-◌, ◌*◌, ◌≤◌, ◌<◌, ◌≡◌, refl, ◌∙◌, subst, inl, inr, Bool, true, false, none,
  some, List, [], ◌∷◌, map, map-append, arith, length, take, drop, length-take, length-drop, All,
  All-append, All-take, All-drop, Outcome, ok, die, fault, out_of_fuel, ◌>>=◌, ltb, if◌then◌else◌,
  Bool-cases,
}
use tema2_pc_client_server_t.Base.Words.{
  swap32, word_bytes, write_at, length-write_at, take-write_at, IsBytes,
}
use tema2_pc_client_server_t.Framing.Header.{
  read_size_part, read_size_whole, take-stored, swap32-stored,
}
use native.Mathlib.Decide.{dec_lt}
use tema2_pc_client_server_t.Framing.{
  Socket, Memory, Code, is_too_big, packet_too_big, packet_not_ready, size_complete, read_size,
  copy_body, packet_complete, after_size, read_current_packet, read_loop, read, reset,
}
use tema2_pc_client_server_t.Framing.Spec.{
  View, feeds, feeds-header_part, feeds-body_part, feeds-body_end, feeds-header_end, size_known,
  next,
}
use tema2_pc_client_server_t.Framing.Valid.{
  IsValid, IsValidAt, IsWhole, payload, view, lag, lag_at, reset-IsValid, copy_body_part,
  copy_body_whole,
}

-- A round of the loop of `read` that began with the view `v`, the bytes `buf` and the measure `n`.
abbrev pub Advances : View → List ℕ → ℕ → Socket → List ℕ → Type 0
Advances v buf n s rest =
    IsValid s × IsBytes rest × (feeds buf v ≡ feeds rest (view s)) × (2 * length rest + lag s < n)

abbrev pub RoundAt : Bool → View → List ℕ → ℕ → Socket → List ℕ → Type 0
RoundAt true v buf n s rest = feeds buf v ≡ none
RoundAt false v buf n s rest = Advances v buf n s rest

abbrev pub Round : View → List ℕ → ℕ → Outcome (Code × Socket × List ℕ) → Type 0
Round v buf n (ok (code, s, rest)) = RoundAt (is_too_big code) v buf n s rest
Round v buf n _ = ⊥

-- The socket with `bytes` put behind those that it has of the packet.
abbrev written : Socket → List ℕ → List ℕ
written s bytes = write_at s.current_buffer (s.buffer_size - s.expected_size) bytes

Round-mono :
    (u v : View) (buf rest : List ℕ) (m n : ℕ) (r : Outcome (Code × Socket × List ℕ))
    → feeds buf v ≡ feeds rest u
    → m ≤ n
    → Round u rest m r
    → Round v buf n r
Round-mono u v buf rest m n (ok (code, s, left)) e h r = go (is_too_big code) r
  where
    go : (b : Bool) → RoundAt b u rest m s left → RoundAt b v buf n s left
    go true r = e ∙ r
    go false r = (r.0, r.1, e ∙ r.2, omega (arith, r.3))
Round-mono u v buf rest m n die e h r = elim r [ ]
Round-mono u v buf rest m n fault e h r = elim r [ ]
Round-mono u v buf rest m n out_of_fuel e h r = elim r [ ]

part-Round :
    (s : Socket) (buf : List ℕ)
    → IsValidAt true s
    → All IsWhole s.packet_queue
    → s.size_read ≡ true
    → length buf < s.expected_size
    → 0 < length buf
    → Round (view s) buf (2 * length buf) (copy_body s buf)
unfolding feeds
part-Round s buf v w e h k = rw (copy_body_part s buf v h) (
    ground (
      arith,
      feeds-body_part buf (take (s.buffer_size - s.expected_size) s.current_buffer) s.expected_size
          (map payload s.packet_queue),
      take-write_at s.current_buffer (s.buffer_size - s.expected_size) buf
          (s.buffer_size - (s.expected_size - length buf)),
      length-write_at s.current_buffer (s.buffer_size - s.expected_size) buf,
    ))

whole-Round :
    (s : Socket) (buf : List ℕ)
    → IsValidAt true s
    → All IsWhole s.packet_queue
    → s.size_read ≡ true
    → s.expected_size ≤ length buf
    → 0 < length buf
    → IsBytes buf
    → Round (view s) buf (2 * length buf + lag s) (copy_body s buf)
unfolding packet_complete
whole-Round s buf v w e h k bytes = rw (copy_body_whole s buf v h) (
  record {
    progress = omega arith;
    whole = All-append _ s.packet_queue _ w (
      length-write_at s.current_buffer (s.buffer_size - s.expected_size) (take s.expected_size buf)
            (omega (arith, length-take s.expected_size buf))
          ∙ v.2,
      tt,
    );
  },
  All-drop _ s.expected_size buf bytes,
  ground (
    arith,
    feeds-body_end s.expected_size buf (take (s.buffer_size - s.expected_size) s.current_buffer)
        (map payload s.packet_queue),
    map-append payload s.packet_queue
        (record { size = s.buffer_size; memory = written s (take s.expected_size buf) } ∷ []),
    take-write_at s.current_buffer (s.buffer_size - s.expected_size) (take s.expected_size buf)
        s.buffer_size,
    length-take s.expected_size buf,
  ),
  ground (arith, length-drop s.expected_size buf),
)

body-Round :
    (s : Socket) (buf : List ℕ)
    → IsValidAt true s
    → All IsWhole s.packet_queue
    → s.size_read ≡ true
    → 0 < length buf
    → IsBytes buf
    → Round (view s) buf (2 * length buf + lag s) (copy_body s buf)
body-Round s buf v w e k bytes = elim (dec_lt (length buf) s.expected_size) [
  | yes h ↦
      Round-mono (view s) (view s) buf buf (2 * length buf) (2 * length buf + lag s)
        (copy_body s buf) refl (omega arith) (part-Round s buf v w e h k)
  | no h ↦ whole-Round s buf v w e (omega arith) k bytes
]

-- The socket behind a length within the limit.
abbrev known : Memory → Socket → Socket
known m s = record s {
  expected_size = swap32 s.expected_size;
  buffer_size = swap32 s.expected_size;
  size_read = true;
  current_buffer = m.fresh (swap32 s.expected_size);
}

-- The rest of a round behind it.
after_size-Round :
    (m : Memory) (s : Socket) (rest : List ℕ)
    → All IsWhole s.packet_queue
    → IsBytes rest
    → swap32 s.expected_size ≤ 65536
    → Round
        (view (known m s))
        rest
        (2 * length rest + 2)
        (after_size (packet_not_ready, known m s, rest))
unfolding after_size feeds
after_size-Round m s [] w bytes h = (
  record { progress = (omega arith, h, m.length-fresh (swap32 s.expected_size)); whole = w },
  tt,
  refl,
  ground arith,
)
after_size-Round m s (b ∷ bs) w bytes h =
    Round-mono (view (known m s)) (view (known m s)) (b ∷ bs) (b ∷ bs)
      (2 * length (b ∷ bs) + lag (known m s)) _ (copy_body (known m s) (b ∷ bs)) refl (ground arith)
      (body-Round (known m s) (b ∷ bs) (omega arith, h, m.length-fresh (swap32 s.expected_size)) w
        refl (omega arith) bytes)

size-Round :
    (m : Memory) (s : Socket) (v : View) (buf rest : List ℕ) (n : ℕ)
    → All IsWhole s.packet_queue
    → IsBytes rest
    → feeds buf v
      ≡ next (size_known (swap32 s.expected_size) (map payload s.packet_queue)) (feeds rest)
    → 2 * length rest + 1 < n
    → Round v buf n (size_complete m s rest >>= after_size)
unfolding size_complete
size-Round m s v buf rest n w bytes e k = elim (Bool-cases (ltb 65536 (swap32 s.expected_size))) [
  | inl big ↦ rw (big, size_complete) (unfold after_size in (ground arith))
  | inr small ↦
      rw (small, size_complete)
        (Round-mono (view (known m s)) v buf rest (2 * length rest + 2) n
          (after_size (packet_not_ready, known m s, rest)) (ground arith) (omega arith)
          (after_size-Round m s rest w bytes (ground arith)))
]

header-Round :
    (m : Memory) (s : Socket) (buf : List ℕ)
    → s.read_size_index < 4
    → All IsWhole s.packet_queue
    → s.size_read ≡ false
    → 0 < length buf
    → IsBytes buf
    → Round (view s) buf (2 * length buf) (read_size m s buf >>= after_size)
header-Round m s buf v w e k bytes = elim (dec_lt (s.read_size_index + length buf) 4) [
  | yes h ↦ rw (read_size_part m s buf v h) (
      unfold after_size feeds in
      (ground (
        arith,
        feeds-header_part buf (take s.read_size_index (word_bytes 4 s.expected_size))
            (map payload s.packet_queue),
        length-take s.read_size_index (word_bytes 4 s.expected_size),
        take-stored m s buf v buf,
      )))
  | no h ↦ rw (read_size_whole m s buf v (omega arith)) (
      size-Round m _ (view s) buf (drop (4 - s.read_size_index) buf) (2 * length buf) w
        (All-drop _ (4 - s.read_size_index) buf bytes)
        (ground (
          arith,
          feeds-header_end (4 - s.read_size_index) buf
              (take s.read_size_index (word_bytes 4 s.expected_size)) (map payload s.packet_queue),
          length-take s.read_size_index (word_bytes 4 s.expected_size),
          length-take (4 - s.read_size_index) buf,
          swap32-stored m s buf v (take (4 - s.read_size_index) buf),
          All-take (λ (b : ℕ). b < 256) (4 - s.read_size_index) buf bytes,
        ))
        (omega (arith, length-drop (4 - s.read_size_index) buf)))
]

module _ (m : Memory) (s : Socket) (buf : List ℕ) (v : IsValid s) (k : 0 < length buf)
    (bytes : IsBytes buf) where
  -- One round keeps the invariant, does what the protocol does to the bytes that it takes, and
  -- brings the loop nearer to its end.
  pub read_current_packet-Round :
      Round (view s) buf (2 * length buf + lag s) (read_current_packet m s buf)
  unfolding read_current_packet
  read_current_packet-Round = go s.size_read refl
    where
      go :
          (b : Bool)
          → s.size_read ≡ b
          → Round
              (view s)
              buf
              (2 * length buf + lag s)
              (if b then copy_body s buf else (read_size m s buf >>= after_size))
      go true e = body-Round s buf (subst (λ b. IsValidAt b s) e v.progress) v.whole e k bytes
      go false e =
          Round-mono (view s) (view s) buf buf (2 * length buf) (2 * length buf + lag s) _ refl
            (omega arith)
            (header-Round m s buf (subst (λ b. IsValidAt b s) e v.progress) v.whole e k bytes)

-- What `read` has done.
abbrev pub Read : View → List ℕ → Outcome (Code × Socket) → Type 0
Read v buf (ok (code, s)) =
    IsValid s × (if is_too_big code then feeds buf v ≡ none else feeds buf v ≡ some (view s))
Read v buf _ = ⊥

-- A round, then the rest of the loop.
Round-Read :
    (u : View) (buf : List ℕ) (n : ℕ) (again : Socket → List ℕ → Outcome (Code × Socket))
    → ((s : Socket) (rest : List ℕ)
        → IsValid s
        → IsBytes rest
        → 2 * length rest + lag s < n
        → Read (view s) rest (again s rest))
    → (r : Outcome (Code × Socket × List ℕ)) → Round u buf n r
    → Read u buf (
        r >>= λ (code, s, rest).
        if is_too_big code then ok (packet_too_big, reset s) else again s rest)
Round-Read u buf n again ih (ok (code, s, rest)) r = go (is_too_big code) r
  where
    moved :
        (x : Outcome (Code × Socket))
        → feeds buf u ≡ feeds rest (view s)
        → Read (view s) rest x
        → Read u buf x
    moved (ok (c, t)) e h = (h.0, ground (arith, h.1))
    moved die e h = elim h [ ]
    moved fault e h = elim h [ ]
    moved out_of_fuel e h = elim h [ ]

    go :
        (b : Bool)
        → RoundAt b u buf n s rest
        → Read u buf (if b then ok (packet_too_big, reset s) else again s rest)
    go true r = (reset-IsValid s, r)
    go false r = moved (again s rest) r.2 (ih s rest r.0 r.1 r.3)
Round-Read u buf n again ih die r = elim r [ ]
Round-Read u buf n again ih fault r = elim r [ ]
Round-Read u buf n again ih out_of_fuel r = elim r [ ]

read_loop-Read :
    (fuel : ℕ) (m : Memory) (s : Socket) (buf : List ℕ)
    → IsValid s
    → IsBytes buf
    → 2 * length buf + lag s < fuel
    → Read (view s) buf (read_loop fuel m s buf)
unfolding read_loop
read_loop-Read zero m s buf v bytes h = elim h [ ]
read_loop-Read (suc fuel) m s [] v bytes h = (v, unfold feeds in refl)
read_loop-Read (suc fuel) m s (b ∷ bs) v bytes h =
    Round-Read (view s) (b ∷ bs) (2 * length (b ∷ bs) + lag s) (read_loop fuel m)
      (λ t rest w bs k. read_loop-Read fuel m t rest w bs (omega arith))
      (read_current_packet m s (b ∷ bs))
      (read_current_packet-Round m s (b ∷ bs) v (omega arith) bytes)

-- From a valid socket and on a chunk of bytes: what has been received after `read` is what the
-- protocol makes, byte by byte, of what had been received before and the chunk; `read` answers
-- PACKET_TOO_BIG exactly if the protocol meets a length above 65536. The loop ends, no copy leaves
-- its memory, and the invariant is kept.
pub read-Read :
    (m : Memory) (s : Socket) (buf : List ℕ)
    → IsValid s
    → IsBytes buf
    → Read (view s) buf (read m s buf)
unfolding read
read-Read m s buf v bytes = read_loop-Read (2 * length buf + 2) m s buf v bytes (fits s.size_read)
  where
    fits : (b : Bool) → 2 * length buf + lag_at b s < 2 * length buf + 2
    fits true = ground arith
    fits false = omega arith
