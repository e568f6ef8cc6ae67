-- ===== src/Multi/Kinds.antt =====
-- Under which kind a descriptor is queued: the right one, if every buffered socket that was selected
-- was closed or has a whole packet; a socket with a part of a packet inherits the kind of the
-- descriptor before it.
use tema2_pc_client_server_t.Base.{
  ℕ, zero, suc, ◌+◌, ◌≡◌, refl, ◌∙◌, ap, true, false, some, Option-cases, List, [], ◌∷◌, ◌++◌, map,
  append_assoc, arith, ok, if◌then◌else◌, ◌⊎◌, inl, inr,
}
use tema2_pc_client_server_t.Base.Int.{ℤ, pos}
use tema2_pc_client_server_t.Base.Map.{
  int_key, lookup, insert, lookup-insert, lookup-insert_self, lookup-erase,
}
use tema2_pc_client_server_t.Framing
use tema2_pc_client_server_t.Framing.{Memory, Socket, Code}
use tema2_pc_client_server_t.Framing.Answers.{recv-Answers}
use tema2_pc_client_server_t.Multi.{
  MultiSocket, Ready, scan, scan_from, rounds, sock_close, close, push,
}
use tema2_pc_client_server_t.Multi.Invariant.{IsSound}
use tema2_pc_client_server_t.Multi.Scan.{
  AllBytes, ends, stored, classify-ends, classify_goes_on, scan_fd_answer, kind_at, kind_at_plain,
  kind_at_answer, holders, scan-loop,
}

-- The selected descriptors among the `n` from `fd` on.
pub selected_from : ℕ → ℕ → Ready → List ℤ
selected_from zero fd r = []
selected_from (suc n) fd r =
    let rest = selected_from n (fd + 1) r in if r.selected (pos fd) then pos fd ∷ rest else rest

-- After its `recv` no buffered socket is left open with no whole packet.
abbrev pub IsDecisive : Memory → Ready → MultiSocket → Type 0
IsDecisive mem r m =
    (fd : ℤ) (s : Socket) (a : ℤ × Code × Socket)
    → lookup fd m.tcp_sockets ≡ some s
    → Framing.recv mem s (r.arrives fd) ≡ ok a
    → (ends a ≡ true) ⊎ (Framing.packet_ready a.2 ≡ true)

module _ (mem : Memory) (r : Ready) (m : MultiSocket) (bytes : AllBytes r) (v : IsSound m)
    (d : IsDecisive mem r m) where
  kind_at_decisive : (fd : ℤ) (j k : ℕ) → kind_at mem r m fd j ≡ kind_at mem r m fd k
  kind_at_decisive fd j k = elim (Option-cases (lookup fd m.tcp_sockets)) [
    | inl e ↦ rw (kind_at_plain mem r m fd j e, kind_at_plain mem r m fd k e)
    | inr (s, e) ↦
        let (a, ea, _, _) = recv-Answers mem s (r.arrives fd) (v fd s e).0 (bytes fd) in
        rw (kind_at_answer mem r m fd j s a e ea, kind_at_answer mem r m fd k s a e ea)
          (ground (arith, d fd s a e ea))
  ]

  holders_decisive :
      (n fd kind : ℕ)
      → holders n fd mem r m kind
        ≡ map (λ x. record { fd = x; kind = kind_at mem r m x 0 }) (selected_from n fd r)
  unfolding holders selected_from
  holders_decisive zero fd kind = refl
  holders_decisive (suc n) fd kind = ground (
    arith,
    kind_at_decisive (pos fd) kind 0,
    holders_decisive n (fd + 1) kind,
    holders_decisive n (fd + 1) (kind_at mem r m (pos fd) kind),
  )

  -- Where no buffered socket that was selected is left open with a part of a packet only, the loop
  -- appends exactly the selected descriptors from 0 to `fdmax`, in order, each under the kind that
  -- its own state before the loop and its own `recv` give it.
  pub scan-kinds :
      (m' : MultiSocket) × (scan mem r m ≡ ok m')
      × IsSound m'
      × (m'.sock_queue
          ≡ m.sock_queue
            ++ map
                (λ x. record { fd = x; kind = kind_at mem r m x 0 })
                (selected_from (rounds m.fdmax) 0 r))
  scan-kinds =
      let (m', e, w, q) = scan-loop mem r m bytes v in
      (m', e, w, q ∙ ap (◌++◌ m.sock_queue) (holders_decisive (rounds m.fdmax) 0 mem.word))

-- Right behind a connection that closes, an open socket that was selected too, and whose packet is
-- not yet whole after its `recv`, is queued as closed as well, though it stays buffered.
pub scan_from-stale :
    (mem : Memory) (r : Ready) (c : MultiSocket) (fd kind : ℕ) (s t : Socket)
    (a b : ℤ × Code × Socket)
    → r.selected (pos fd) ≡ true
    → r.selected (pos (fd + 1)) ≡ true
    → lookup (pos fd) c.tcp_sockets ≡ some s
    → lookup (pos (fd + 1)) c.tcp_sockets ≡ some t
    → Framing.recv mem s (r.arrives (pos fd)) ≡ ok a
    → Framing.recv mem t (r.arrives (pos (fd + 1))) ≡ ok b
    → ends a ≡ true
    → ends b ≡ false
    → Framing.packet_ready b.2 ≡ false
    → (c' : MultiSocket) × (scan_from 2 fd mem r (c, kind) ≡ ok (c', sock_close))
      × (lookup (pos (fd + 1)) c'.tcp_sockets ≡ some b.2)
      × (c'.sock_queue
          ≡ c.sock_queue
            ++ record { fd = pos fd; kind = sock_close }
              ∷ record { fd = pos (fd + 1); kind = sock_close }
              ∷ [])
unfolding scan_from
scan_from-stale mem r c fd kind s t a b s1 s2 l1 l2 e1 e2 over live part =
    let first = scan_fd_answer mem r c fd kind s a s1 l1 e1 in
    let c1 = (push (pos fd) (close (pos fd) (stored c fd a.2), sock_close)).0 in
    let second = scan_fd_answer mem r c1 (fd + 1) sock_close t b s2 still e2 in
    (
      (push (pos (fd + 1)) (stored c1 (fd + 1) b.2, sock_close)).0,
      rw (first, classify-ends c fd kind a.0 a.1 a.2 over)
          (rw (second, classify_goes_on c1 (fd + 1) sock_close b.0 b.1 b.2 live, part) refl),
      lookup-insert_self (pos (fd + 1)) b.2 c1.tcp_sockets,
      unfold close in
          (append_assoc c.sock_queue (record { fd = pos fd; kind = sock_close } ∷ []) _),
    )
  where
    still : lookup (pos (fd + 1)) (close (pos fd) (stored c fd a.2)).tcp_sockets ≡ some t
    still =
        unfold close in
        (ground (
          arith,
          lookup-erase (pos (fd + 1)) (pos fd) (insert (pos fd) a.2 c.tcp_sockets),
          lookup-insert (pos (fd + 1)) (pos fd) a.2 c.tcp_sockets,
        ))
