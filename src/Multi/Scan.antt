-- ===== src/Multi/Scan.antt =====
-- The loop over the selected descriptors: what it puts in the queue, and under which kind.
use tema2_pc_client_server_t.Base.{
  ℕ, zero, suc, ◌+◌, ◌≤◌, ◌≡◌, refl, sym, ◌∙◌, ap, Bool, true, false, ◌||◌, none, some,
  Option-cases, List, [], ◌∷◌, ◌++◌, append-nil, append_assoc, arith, Outcome, ok, if◌then◌else◌,
  inl, inr, Bool-cases,
}
use tema2_pc_client_server_t.Base.Int.{ℤ, pos, is_le_zero}
use tema2_pc_client_server_t.Base.Map.{int_key, lookup, insert, lookup-insert, lookup-erase}
use tema2_pc_client_server_t.Framing
use tema2_pc_client_server_t.Framing.{Memory, Socket, Code, is_too_big}
use tema2_pc_client_server_t.Framing.Valid.{IsValid}
use tema2_pc_client_server_t.Framing.Answers.{AreBytes, recv-Answers}
use tema2_pc_client_server_t.Multi.{
  MultiSocket, Holder, Ready, sock_close, sock_tcp, close, classify, push, plain_kind, scan_fd,
  scan_from, scan, rounds,
}
use tema2_pc_client_server_t.Multi.Invariant.{IsSound, close-IsSound, replace-IsSound}

-- A connection that `recv` ends: by an error, by its close, or by a length above the limit.
abbrev pub ends : ℤ × Code × Socket → Bool
ends (ret, out, s) = is_le_zero ret || is_too_big out

-- The kind for an answer of `recv`; `kind` is what `fd_type` holds before it.
abbrev pub answer_kind : ℕ → ℤ × Code × Socket → ℕ
answer_kind kind (ret, out, s) =
    if ends (ret, out, s) then sock_close else if Framing.packet_ready s then sock_tcp else kind

abbrev pub recv_kind : ℕ → Outcome (ℤ × Code × Socket) → ℕ
recv_kind kind (ok answer) = answer_kind kind answer
recv_kind kind _ = kind

-- The kind of a descriptor, from the state before the loop.
unfoldable pub kind_at : Memory → Ready → MultiSocket → ℤ → ℕ → ℕ
kind_at mem r m fd kind = elim (lookup fd m.tcp_sockets) [
  | none ↦ plain_kind fd m
  | some s ↦ recv_kind kind (Framing.recv mem s (r.arrives fd))
]

pub kind_at_plain :
    (mem : Memory) (r : Ready) (m : MultiSocket) (fd : ℤ) (kind : ℕ)
    → lookup fd m.tcp_sockets ≡ none
    → kind_at mem r m fd kind ≡ plain_kind fd m
unfolding kind_at
kind_at_plain mem r m fd kind e = rw (e, kind_at)

pub kind_at_answer :
    (mem : Memory) (r : Ready) (m : MultiSocket) (fd : ℤ) (kind : ℕ) (s : Socket)
    (a : ℤ × Code × Socket)
    → lookup fd m.tcp_sockets ≡ some s
    → Framing.recv mem s (r.arrives fd) ≡ ok a
    → kind_at mem r m fd kind ≡ answer_kind kind a
unfolding kind_at
kind_at_answer mem r m fd kind s a e f = rw (e, kind_at) (ap (recv_kind kind) f)

-- The entries for the `n` descriptors from `fd` on.
unfoldable pub holders : ℕ → ℕ → Memory → Ready → MultiSocket → ℕ → List Holder
holders zero fd mem r m kind = []
holders (suc n) fd mem r m kind =
    let kind' = kind_at mem r m (pos fd) kind in
    let hit = record { fd = pos fd; kind = kind' } ∷ holders n (fd + 1) mem r m kind' in
    let miss = holders n (fd + 1) mem r m kind in if r.selected (pos fd) then hit else miss

-- What the rounds before `fd` leave alone of the state `m` before the loop.
pub record Agrees (m c : MultiSocket) (fd : ℕ) : Type 0 where
  tcp : c.sockfd_tcp ≡ m.sockfd_tcp
  udp : c.sockfd_udp ≡ m.sockfd_udp
  ahead : (x : ℕ) → fd ≤ x → lookup (pos x) c.tcp_sockets ≡ lookup (pos x) m.tcp_sockets

abbrev pub stored : MultiSocket → ℕ → Socket → MultiSocket
stored c fd t = record c { tcp_sockets = insert (pos fd) t c.tcp_sockets }

pub classify-ends :
    (c : MultiSocket) (fd kind : ℕ) (ret : ℤ) (out : Code) (t : Socket)
    → ends (ret, out, t) ≡ true
    → classify (pos fd) kind c (ret, out, t) ≡ (close (pos fd) (stored c fd t), sock_close)
unfolding classify
classify-ends c fd kind ret out t h = rw h

pub classify_goes_on :
    (c : MultiSocket) (fd kind : ℕ) (ret : ℤ) (out : Code) (t : Socket)
    → ends (ret, out, t) ≡ false
    → classify (pos fd) kind c (ret, out, t)
      ≡ (stored c fd t, if Framing.packet_ready t then sock_tcp else kind)
unfolding classify
classify_goes_on c fd kind ret out t h = rw h

pub scan_fd_answer :
    (mem : Memory) (r : Ready) (c : MultiSocket) (fd kind : ℕ) (s : Socket) (a : ℤ × Code × Socket)
    → r.selected (pos fd) ≡ true
    → lookup (pos fd) c.tcp_sockets ≡ some s
    → Framing.recv mem s (r.arrives (pos fd)) ≡ ok a
    → scan_fd mem r (pos fd) (c, kind) ≡ ok (push (pos fd) (classify (pos fd) kind c a))
unfolding scan_fd
scan_fd_answer mem r c fd kind s a sel e f = ground arith

scan_fd_skips :
    (mem : Memory) (r : Ready) (c : MultiSocket) (fd kind : ℕ)
    → r.selected (pos fd) ≡ false
    → scan_fd mem r (pos fd) (c, kind) ≡ ok (c, kind)
unfolding scan_fd
scan_fd_skips mem r c fd kind sel = ground arith

abbrev pub AllBytes : Ready → Type 0
AllBytes r = (fd : ℤ) → AreBytes (r.arrives fd)

module _ (mem : Memory) (r : Ready) (bytes : AllBytes r) (m : MultiSocket) where
  -- A round from the state `c`.
  abbrev pub RoundEnd : MultiSocket → ℕ → ℕ → MultiSocket × ℕ → Type 0
  RoundEnd c fd kind (c', kind') =
      IsSound c'
      × Agrees m c' (fd + 1)
      × (c'.sock_queue
          ≡ c.sock_queue ++ record { fd = pos fd; kind = kind_at mem r m (pos fd) kind } ∷ [])
      × (kind' ≡ kind_at mem r m (pos fd) kind)

  closed-Agrees :
      (c : MultiSocket) (fd : ℕ) (t : Socket) (q : List Holder)
      → Agrees m c fd
      → Agrees m (record (close (pos fd) (stored c fd t)) { sock_queue = q }) (fd + 1)
  unfolding close
  closed-Agrees c fd t q g = record {
    tcp = g.tcp;
    udp = g.udp;
    ahead = λ x h. ground (
      arith,
      g.ahead x,
      lookup-erase (pos x) (pos fd) (insert (pos fd) t c.tcp_sockets),
      lookup-insert (pos x) (pos fd) t c.tcp_sockets,
    );
  }

  stored-Agrees :
      (c : MultiSocket) (fd : ℕ) (t : Socket) (q : List Holder)
      → Agrees m c fd
      → Agrees m (record (stored c fd t) { sock_queue = q }) (fd + 1)
  stored-Agrees c fd t q g = record {
    tcp = g.tcp;
    udp = g.udp;
    ahead = λ x h. ground (arith, g.ahead x, lookup-insert (pos x) (pos fd) t c.tcp_sockets);
  }

  classify-RoundEnd :
      (c : MultiSocket) (fd kind : ℕ) (s : Socket) (a : ℤ × Code × Socket)
      → IsSound c
      → Agrees m c fd
      → lookup (pos fd) m.tcp_sockets ≡ some s
      → Framing.recv mem s (r.arrives (pos fd)) ≡ ok a
      → IsValid a.2
      → RoundEnd c fd kind (push (pos fd) (classify (pos fd) kind c a))
  unfolding classify close
  classify-RoundEnd c fd kind s (ret, out, t) v g found e w =
      elim (Bool-cases (ends (ret, out, t))) [
        | inl over ↦
            rw
              (
                classify-ends c fd kind ret out t over,
                kind_at_answer mem r m (pos fd) kind s (ret, out, t) found e,
                over,
              )
              (
                close-IsSound (stored c fd t) sound (pos fd),
                closed-Agrees c fd t _ g,
                unfold close in refl,
                refl,
              )
        | inr live ↦
            rw
              (
                classify_goes_on c fd kind ret out t live,
                kind_at_answer mem r m (pos fd) kind s (ret, out, t) found e,
                live,
              )
              (sound, stored-Agrees c fd t _ g, refl, refl)
      ]
    where
      sound : IsSound (stored c fd t)
      sound = replace-IsSound c v (pos fd) s t (g.ahead fd (omega arith) ∙ found) w

  plain-RoundEnd :
      (c : MultiSocket) (fd kind : ℕ)
      → IsSound c
      → Agrees m c fd
      → lookup (pos fd) m.tcp_sockets ≡ none
      → RoundEnd c fd kind (push (pos fd) (c, plain_kind (pos fd) c))
  plain-RoundEnd c fd kind v g none_there = rw (kind_at_plain mem r m (pos fd) kind none_there) (
    v,
    record { tcp = g.tcp; udp = g.udp; ahead = λ x h. g.ahead x (omega arith) },
    rw (g.tcp, g.udp),
    rw (g.tcp, g.udp),
  )

  pub hit-RoundEnd :
      (c : MultiSocket) (fd kind : ℕ)
      → IsSound c
      → Agrees m c fd
      → r.selected (pos fd) ≡ true
      → (st : MultiSocket × ℕ) × (scan_fd mem r (pos fd) (c, kind) ≡ ok st) × RoundEnd c fd kind st
  unfolding scan_fd
  hit-RoundEnd c fd kind v g sel = elim (Option-cases (lookup (pos fd) m.tcp_sockets)) [
    | inl e ↦ (
      push (pos fd) (c, plain_kind (pos fd) c),
      ground (arith, g.ahead fd),
      plain-RoundEnd c fd kind v g e,
    )
    | inr (s, e) ↦
        let (a, ea, w, _) =
          recv-Answers mem s (r.arrives (pos fd)) (v (pos fd) s (g.ahead fd (omega arith) ∙ e)).0
            (bytes (pos fd)) in
        (
          push (pos fd) (classify (pos fd) kind c a),
          ground (arith, g.ahead fd),
          classify-RoundEnd c fd kind s a v g e ea w,
        )
  ]

  scan_from-holders :
      (n fd kind : ℕ) (c : MultiSocket)
      → IsSound c
      → Agrees m c fd
      → (c' : MultiSocket) × (kind' : ℕ) × (scan_from n fd mem r (c, kind) ≡ ok (c', kind'))
        × IsSound c'
        × (c'.sock_queue ≡ c.sock_queue ++ holders n fd mem r m kind)
  unfolding scan_from holders
  scan_from-holders zero fd kind c v g = (c, kind, refl, v, sym (append-nil c.sock_queue))
  scan_from-holders (suc n) fd kind c v g = elim (Bool-cases (r.selected (pos fd))) [
    | inl sel ↦
        let (st, e, done) = hit-RoundEnd c fd kind v g sel in
        let (c', kind', e', v'', q') = scan_from-holders n (fd + 1) st.1 st.0 done.0 done.1 in
        (
          c',
          kind',
          rw e e',
          v'',
          ground (
            arith,
            q',
            done.2,
            done.3,
            append_assoc c.sock_queue
                (record { fd = pos fd; kind = kind_at mem r m (pos fd) kind } ∷ [])
                (holders n (fd + 1) mem r m (kind_at mem r m (pos fd) kind)),
          ),
        )
    | inr sel ↦
        let (c', kind', e', v'', q') =
          scan_from-holders n (fd + 1) kind c v
            (record { tcp = g.tcp; udp = g.udp; ahead = λ x h. g.ahead x (omega arith) }) in
        (c', kind', rw (scan_fd_skips mem r c fd kind sel) e', v'', ground (arith, q'))
  ]

-- The loop appends the entries of `holders`.
pub scan-loop :
    (mem : Memory) (r : Ready) (m : MultiSocket)
    → AllBytes r
    → IsSound m
    → (m' : MultiSocket) × (scan mem r m ≡ ok m')
      × IsSound m'
      × (m'.sock_queue ≡ m.sock_queue ++ holders (rounds m.fdmax) 0 mem r m mem.word)
unfolding scan
scan-loop mem r m bytes v =
    let (m', kind, e, w, q) =
      scan_from-holders mem r bytes m (rounds m.fdmax) 0 mem.word m v
        (record { tcp = refl; udp = refl; ahead = λ x h. refl }) in
    (m', rw e refl, w, q)
