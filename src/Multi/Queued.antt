-- ===== src/Multi/Queued.antt =====
-- What the loop over the selected descriptors puts in the queue, without the functions of the loop.
use tema2_pc_client_server_t.Base.{
  ℕ, zero, suc, ◌+◌, ◌≡◌, ◌≢◌, subst, refl, true, false, none, some, Option-cases, List, [], ◌∷◌,
  ◌++◌, arith, ok, inl, inr, Bool-cases,
}
use tema2_pc_client_server_t.Base.Int.{ℤ, pos, negsuc, eqb, eqb_iff}
use tema2_pc_client_server_t.Base.Map.{int_key, lookup}
use tema2_pc_client_server_t.Framing
use tema2_pc_client_server_t.Framing.{Memory, Socket, Code, is_too_big}
use tema2_pc_client_server_t.Framing.Answers.{recv-Answers}
use tema2_pc_client_server_t.Multi.{
  MultiSocket, Holder, Ready, sock_close, sock_tcp, sock_udp, sock_connect, fd_unbuffered,
  plain_kind, scan, rounds,
}
use tema2_pc_client_server_t.Multi.Invariant.{IsSound}
use tema2_pc_client_server_t.Multi.Scan.{
  AllBytes, ends, kind_at, kind_at_plain, kind_at_answer, holders, scan-loop,
}

apart : (x y : ℤ) → eqb x y ≡ false → x ≢ y
apart x y h e = let same : eqb x y ≡ true = (eqb_iff x y).1 e in cc

-- The kind of a descriptor, from the state before the loop and what a `recv` on it answers; `before`
-- is the kind of the descriptor before it.
pub data Kind (mem : Memory) (r : Ready) (m : MultiSocket) (fd : ℤ) (before : ℕ) : ℕ → Type 0 where
  connection :
      lookup fd m.tcp_sockets ≡ none → fd ≡ m.sockfd_tcp → Kind mem r m fd before sock_connect
  datagrams :
      lookup fd m.tcp_sockets ≡ none
      → fd ≢ m.sockfd_tcp
      → fd ≡ m.sockfd_udp
      → Kind mem r m fd before sock_udp
  other :
      lookup fd m.tcp_sockets ≡ none
      → fd ≢ m.sockfd_tcp
      → fd ≢ m.sockfd_udp
      → Kind mem r m fd before fd_unbuffered
  ended :
      (s : Socket) (a : ℤ × Code × Socket)
      → lookup fd m.tcp_sockets ≡ some s
      → Framing.recv mem s (r.arrives fd) ≡ ok a
      → ends a ≡ true
      → Kind mem r m fd before sock_close
  whole :
      (s : Socket) (a : ℤ × Code × Socket)
      → lookup fd m.tcp_sockets ≡ some s
      → Framing.recv mem s (r.arrives fd) ≡ ok a
      → ends a ≡ false
      → Framing.packet_ready a.2 ≡ true
      → Kind mem r m fd before sock_tcp
  part :
      (s : Socket) (a : ℤ × Code × Socket)
      → lookup fd m.tcp_sockets ≡ some s
      → Framing.recv mem s (r.arrives fd) ≡ ok a
      → ends a ≡ false
      → Framing.packet_ready a.2 ≡ false
      → Kind mem r m fd before before

-- What `n` descriptors from `fd` on append: an entry for each one that is selected, in order.
pub data Appends (mem : Memory) (r : Ready) (m : MultiSocket)
    : ℕ → ℕ → ℕ → List Holder → Type 0 where
  done : (fd before : ℕ) → Appends mem r m zero fd before []
  skipped :
      (n fd before : ℕ) (hs : List Holder)
      → r.selected (pos fd) ≡ false
      → Appends mem r m n (fd + 1) before hs
      → Appends mem r m (suc n) fd before hs
  taken :
      (n fd before kind : ℕ) (hs : List Holder)
      → r.selected (pos fd) ≡ true
      → Kind mem r m (pos fd) before kind
      → Appends mem r m n (fd + 1) kind hs
      → Appends mem r m (suc n) fd before (record { fd = pos fd; kind = kind } ∷ hs)

module _ (mem : Memory) (r : Ready) (bytes : AllBytes r) (m : MultiSocket) (v : IsSound m) where
  kind_at-Kind : (fd : ℤ) (before : ℕ) → Kind mem r m fd before (kind_at mem r m fd before)
  kind_at-Kind fd before = elim (Option-cases (lookup fd m.tcp_sockets)) [
    | inl e ↦ rw (kind_at_plain mem r m fd before e) (plain e)
    | inr (s, e) ↦
        let (a, ran, _, _) = recv-Answers mem s (r.arrives fd) (v fd s e).0 (bytes fd) in
        rw (kind_at_answer mem r m fd before s a e ran) (elim (Bool-cases (ends a)) [
          | inl over ↦ rw over (ended s a e ran over)
          | inr live ↦ elim (Bool-cases (Framing.packet_ready a.2)) [
            | inl ready ↦ rw (live, ready) (whole s a e ran live ready)
            | inr idle ↦ rw (live, idle) (part s a e ran live idle)
          ]
        ])
  ]
    where
      plain : lookup fd m.tcp_sockets ≡ none → Kind mem r m fd before (plain_kind fd m)
      plain e = elim (Bool-cases (eqb fd m.sockfd_tcp)) [
        | inl t ↦ rw t (connection e ((eqb_iff fd m.sockfd_tcp).0 t))
        | inr t ↦ elim (Bool-cases (eqb fd m.sockfd_udp)) [
          | inl u ↦
              rw (t, u) (datagrams e (apart fd m.sockfd_tcp t) ((eqb_iff fd m.sockfd_udp).0 u))
          | inr u ↦ rw (t, u) (other e (apart fd m.sockfd_tcp t) (apart fd m.sockfd_udp u))
        ]
      ]

  holders-Appends : (n fd before : ℕ) → Appends mem r m n fd before (holders n fd mem r m before)
  unfolding holders
  holders-Appends zero fd before = done fd before
  holders-Appends (suc n) fd before = elim (Bool-cases (r.selected (pos fd))) [
    | inl sel ↦ rw sel (
        taken n fd before (kind_at mem r m (pos fd) before) _ sel (kind_at-Kind (pos fd) before)
          (holders-Appends n (fd + 1) (kind_at mem r m (pos fd) before)))
    | inr sel ↦ rw sel (skipped n fd before _ sel (holders-Appends n (fd + 1) before))
  ]

-- How many descriptors there are from 0 to `fdmax`.
abbrev pub up_to : ℤ → ℕ
up_to (pos n) = suc n
up_to (negsuc n) = zero

rounds-up_to : (fdmax : ℤ) → rounds fdmax ≡ up_to fdmax
rounds-up_to (pos n) = omega arith
rounds-up_to (negsuc n) = refl

-- From a sound state, and where what arrives are bytes, the loop runs to its end with no access out
-- of bounds, and keeps the state sound; it leaves what was queued, and appends an entry for each
-- selected descriptor from 0 to `fdmax`, in order. The kind is that of the listening socket that the
-- descriptor is, if it is one, or that of an unbuffered one; and for a buffered socket it says
-- whether it has ended or has a whole packet, or else is that of the descriptor before it.
pub scan-holders :
    (mem : Memory) (r : Ready) (m : MultiSocket)
    → AllBytes r
    → IsSound m
    → (m' : MultiSocket) × (hs : List Holder) × (scan mem r m ≡ ok m')
      × IsSound m'
      × (m'.sock_queue ≡ m.sock_queue ++ hs)
      × Appends mem r m (up_to m.fdmax) 0 mem.word hs
scan-holders mem r m bytes v =
    let (m', e, w, q) = scan-loop mem r m bytes v in
    let hs = holders (rounds m.fdmax) 0 mem r m mem.word in
    (
      m',
      hs,
      e,
      w,
      q,
      subst (λ n. Appends mem r m n 0 mem.word hs) (rounds-up_to m.fdmax)
          (holders-Appends mem r bytes m v (rounds m.fdmax) 0 mem.word),
    )
