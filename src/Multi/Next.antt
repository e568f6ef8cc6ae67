-- ===== src/Multi/Next.antt =====
-- `get_next_fd`, and what can be done with the descriptor that it returns.
use tema2_pc_client_server_t.Base.{
  ℕ, ◌≡◌, ◌≢◌, ◌<◌, refl, ap, true, false, none, some, List, [], ◌∷◌, ◌++◌, arith, length, take,
  All, ok, fault, ◌==◌, ◌⊎◌, inl, inr, Bool-cases,
}
use tema2_pc_client_server_t.Base.Int.{ℤ, pos, eqb_iff}
use tema2_pc_client_server_t.Base.Map.{int_key, lookup, insert, lookup-erase, lookup-insert_self}
use native.Mathlib.Decide.{dec_lt}
use tema2_pc_client_server_t.Framing.{Socket, Code}
use tema2_pc_client_server_t.Framing.Valid.{view}
use tema2_pc_client_server_t.Framing.RoundTrip.{
  write_packet_fits, write_packet_overflows, packet_ready_lem,
}
use tema2_pc_client_server_t.Multi.{
  MultiSocket, Holder, sock_tcp, has_packet, skim, no_fd, at_fd, after_skim, next_in, get_next_fd,
  close, send, recv,
}
use tema2_pc_client_server_t.Multi.Invariant.{IsSound, replace-IsSound}

-- An entry whose descriptor has no whole packet, whatever its kind.
abbrev pub IsIdle : MultiSocket → Holder → Type 0
IsIdle m h = has_packet h.fd m ≡ false

-- How the loop of `get_next_fd` cuts the queue.
abbrev Cut : MultiSocket → List Holder → List Holder → Type 0
Cut m q [] = All (IsIdle m) q
Cut m q (h ∷ rest) =
    (lost : List Holder) × (q ≡ lost ++ h ∷ rest) × All (IsIdle m) lost × (has_packet h.fd m ≡ true)

skim-Cut : (m : MultiSocket) (q : List Holder) → Cut m q (skim m q)
unfolding skim
skim-Cut m [] = tt
skim-Cut m (h ∷ q) = elim (Bool-cases (has_packet h.fd m)) [
  | inl full ↦ rw (full, skim) ([], refl, tt, full)
  | inr idle ↦ rw (idle, skim) (behind (skim m q) (skim-Cut m q) idle)
]
  where
    behind : (left : List Holder) → Cut m q left → has_packet h.fd m ≡ false → Cut m (h ∷ q) left
    behind [] c idle = (idle, c)
    behind (x ∷ rest) (lost, e, idles, full) idle = (h ∷ lost, ap (◌∷◌ h) e, (idle, idles), full)

-- The loop is reached only behind an entry of kind SOCK_TCP, or with nothing in the queue.
abbrev pub IsTcpFirst : List Holder → Type 0
IsTcpFirst [] = Unit
IsTcpFirst (h ∷ q) = h.kind ≡ sock_tcp

-- What `get_next_fd` may return, with the state that it leaves.
pub data Next (m : MultiSocket) (q : List Holder) (r : ℤ × MultiSocket) : Type 0 where
  nothing : IsTcpFirst q → r ≡ no_fd m → All (IsIdle m) q → Next m q r
  plain :
      (h : Holder) (rest : List Holder)
      → q ≡ h ∷ rest
      → h.kind ≢ sock_tcp
      → r ≡ at_fd h rest m
      → Next m q r
  buffered :
      (lost : List Holder) (h : Holder) (rest : List Holder)
      → IsTcpFirst q
      → q ≡ lost ++ h ∷ rest
      → All (IsIdle m) lost
      → has_packet h.fd m ≡ true
      → r ≡ at_fd h (h ∷ rest) m
      → Next m q r

next_in-Next : (m : MultiSocket) (q : List Holder) → Next m q (next_in m q)
next_in-Next m [] = nothing tt refl tt
next_in-Next m (h ∷ q) = elim (Bool-cases (h.kind == sock_tcp)) [
  | inr other ↦ plain h q refl (ground arith) (rw other)
  | inl tcp ↦ rw tcp (skimmed (ground arith) (skim m (h ∷ q)) (skim-Cut m (h ∷ q)))
]
  where
    skimmed :
        h.kind ≡ sock_tcp
        → (left : List Holder) → Cut m (h ∷ q) left
        → Next m (h ∷ q) (after_skim m left)
    skimmed first [] idles = nothing first refl idles
    skimmed first (x ∷ rest) (lost, e, idles, full) = buffered lost x rest first e idles full refl

pub get_next_fd-Next : (m : MultiSocket) → Next m m.sock_queue (get_next_fd m)
unfolding get_next_fd
get_next_fd-Next m = next_in-Next m m.sock_queue

skim-queue :
    (m : MultiSocket) (q0 q : List Holder) → skim (record m { sock_queue = q0 }) q ≡ skim m q
unfolding skim has_packet
skim-queue m q0 [] = refl
skim-queue m q0 (h ∷ q) = rw (skim-queue m q0 q)

after_skim-queue :
    (m : MultiSocket) (q0 q : List Holder)
    → after_skim (record m { sock_queue = q0 }) q ≡ after_skim m q
after_skim-queue m q0 [] = refl
after_skim-queue m q0 (h ∷ q) = refl

-- Behind an entry of kind SOCK_TCP that has no whole packet any more, an entry whose descriptor is
-- no buffered socket, such as that of a connection that has closed, has no effect whatever:
-- `get_next_fd` answers and leaves the state as if it had never been queued.
pub get_next_fd-loses :
    (m : MultiSocket) (a b : Holder) (q : List Holder)
    → m.sock_queue ≡ a ∷ b ∷ q
    → a.kind ≡ sock_tcp
    → has_packet a.fd m ≡ false
    → lookup b.fd m.tcp_sockets ≡ none
    → get_next_fd m ≡ get_next_fd (record m { sock_queue = a ∷ q })
unfolding get_next_fd skim has_packet
get_next_fd-loses m a b q e tcp idle closed =
    ground (arith, skim-queue m (a ∷ q) q, after_skim-queue m (a ∷ q) (skim m q))

-- What is left of a descriptor after `close`: it has no packet, nothing can be sent to it, and
-- `select` does not wait for it. Every other descriptor is as before.
pub close-forgets :
    (m : MultiSocket) (fd : ℤ) (buf : List ℕ)
    → (has_packet fd (close fd m) ≡ false)
      × (send fd buf (close fd m) ≡ ok none)
      × ((close fd m).read_fds fd ≡ false)
      × ((x : ℤ)
          → x ≢ fd
          → (lookup x (close fd m).tcp_sockets ≡ lookup x m.tcp_sockets)
            × ((close fd m).read_fds x ≡ m.read_fds x))
unfolding close has_packet send
close-forgets m fd buf = (
  ground (arith, lookup-erase fd fd m.tcp_sockets, eqb_iff fd fd),
  ground (arith, lookup-erase fd fd m.tcp_sockets, eqb_iff fd fd),
  ground (arith, eqb_iff fd fd),
  λ x ne. ground (arith, lookup-erase x fd m.tcp_sockets, eqb_iff fd x),
)

-- `recv` in a sound state whose current socket has a whole packet: the oldest one is written to the
-- front of the caller's buffer, if it fits, and taken out of what that socket has received, and
-- nothing else changes. `len` plays no part: a packet longer than the buffer is written past its
-- end.
pub recv-packet :
    (m : MultiSocket) (buf p : List ℕ) (ps : List (List ℕ)) (s : Socket)
    → IsSound m
    → lookup m.curr_sockfd m.tcp_sockets ≡ some s
    → (view s).packets ≡ p ∷ ps
    → ((length buf < length p) × (recv buf m ≡ fault))
      ⊎ ((bytes : List ℕ) × (m' : MultiSocket) × (t : Socket) × (recv buf m
            ≡ ok (pos (length p), Code.no_code, bytes, m'))
          × (take (length p) bytes ≡ p)
          × IsSound m'
          × (lookup m.curr_sockfd m'.tcp_sockets ≡ some t)
          × (m' ≡ record m { tcp_sockets = insert m.curr_sockfd t m.tcp_sockets })
          × (view t ≡ record { pending = (view s).pending; packets = ps }))
unfolding recv
recv-packet m buf p ps s v e h = elim (dec_lt (length buf) (length p)) [
  | yes l ↦ inl (
    l,
    ground (
      arith,
      packet_ready_lem s p ps h,
      write_packet_overflows s buf p ps (v m.curr_sockfd s e).0 h,
    ),
  )
  | no l ↦
      let (bytes, t, w, front, vt, wt) =
        write_packet_fits s buf p ps (v m.curr_sockfd s e).0 h (omega arith) in
      inr (
        bytes,
        record m { tcp_sockets = insert m.curr_sockfd t m.tcp_sockets },
        t,
        ground (arith, packet_ready_lem s p ps h),
        front,
        replace-IsSound m v m.curr_sockfd s t e vt,
        lookup-insert_self m.curr_sockfd t m.tcp_sockets,
        refl,
        wt,
      )
]
