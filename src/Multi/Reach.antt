-- ===== src/Multi/Reach.antt =====
-- The states that a `MultiSocket` can get into, by any sequence of its operations, and the wait of
-- `select`.
use tema2_pc_client_server_t.Base.{
  ℕ, zero, suc, ◌+◌, ◌≤◌, ◌<◌, ◌≡◌, ◌≢◌, refl, subst, Bool, true, false, Option, some, Option-cases,
  List, [], ◌∷◌, arith, All, take, Outcome, ok, ◌>>=◌, >>=-eq-ok, inl, inr, Bool-cases,
}
use tema2_pc_client_server_t.Base.Int.{ℤ, pos}
use tema2_pc_client_server_t.Base.Words.{memcpy}
use tema2_pc_client_server_t.Base.Map.{int_key, lookup, insert}
use tema2_pc_client_server_t.Framing
use tema2_pc_client_server_t.Framing.{Memory, Socket, Packet, Code}
use tema2_pc_client_server_t.Framing.Valid.{IsValid, IsWhole, IsValidAt-queue}
use tema2_pc_client_server_t.Multi.{
  MultiSocket, Address, Holder, Ready, new_multi, multi_on, enable_udp, enable_tcp_connections,
  enter, connect, accept, add_fd, close, close_all, scan, select, rounds, get_next_fd, recv,
  received,
}
use tema2_pc_client_server_t.Multi.Invariant.{
  IsSound, new_multi-IsSound, multi_on-IsSound, enter-IsSound, close-IsSound, add_fd-IsSound,
  enable_udp-IsSound, enable_tcp-IsSound, replace-IsSound,
}
use tema2_pc_client_server_t.Multi.Scan.{AllBytes, holders, scan-loop}
use tema2_pc_client_server_t.Multi.Next.{Next, nothing, plain, buffered, get_next_fd-Next}

-- One call of an operation.
pub data Step (m m' : MultiSocket) : Type 0 where
  udp : (fd : ℤ) (bound : Address → Bool) → enable_udp fd bound m ≡ ok m' → Step m m'
  tcp : (fd : ℤ) (bound : Address → Bool) → enable_tcp_connections fd bound m ≡ ok m' → Step m m'
  connects :
      (mem : Memory) (fd : ℤ) (done : Address → Bool) (addr : Address)
      → connect mem fd done addr m ≡ ok m'
      → Step m m'
  accepts : (mem : Memory) (fd : ℤ) (done : Bool) → accept mem fd done m ≡ ok m' → Step m m'
  adds : (fd : ℤ) → m' ≡ add_fd fd m → Step m m'
  closes : (fd : ℤ) → m' ≡ close fd m → Step m m'
  closes_all : m' ≡ close_all m → Step m m'
  scans : (mem : Memory) (r : Ready) → AllBytes r → scan mem r m ≡ ok m' → Step m m'
  nexts : m' ≡ (get_next_fd m).1 → Step m m'
  receives :
      (buf : List ℕ) (ret : ℤ) (out : Code) (bytes : List ℕ)
      → recv buf m ≡ ok (ret, out, bytes, m')
      → Step m m'

pub data Reach : MultiSocket → Type 0 where
  start : Reach new_multi
  start_on : (port : ℤ) → Reach (multi_on port)
  more : {m m' : MultiSocket} → Reach m → Step m m' → Reach m'

connect-IsSound :
    (m m' : MultiSocket) (mem : Memory) (fd : ℤ) (done : Address → Bool) (addr : Address)
    → IsSound m
    → connect mem fd done addr m ≡ ok m'
    → IsSound m'
unfolding connect
connect-IsSound m m' mem fd done addr v h =
    subst IsSound same (enter-IsSound (record m { serv_addr = addr }) v mem fd)
  where
    same : enter mem fd (record m { serv_addr = addr }) ≡ m'
    same = ground arith

accept-IsSound :
    (m m' : MultiSocket) (mem : Memory) (fd : ℤ) (done : Bool)
    → IsSound m
    → accept mem fd done m ≡ ok m'
    → IsSound m'
unfolding accept
accept-IsSound m m' mem fd done v h = subst IsSound same (enter-IsSound m v mem fd)
  where
    same : enter mem fd m ≡ m'
    same = ground arith

pub close_all-IsSound : (m : MultiSocket) → IsSound (close_all m)
unfolding close_all
close_all-IsSound m fd s e = unfold lookup in cc

get_next_fd-IsSound : (m : MultiSocket) → IsSound m → IsSound (get_next_fd m).1
get_next_fd-IsSound m v = go (get_next_fd-Next m)
  where
    go : {q : List Holder} {r : ℤ × MultiSocket} → Next m q r → IsSound r.1
    go (nothing first e idle) = rw e v
    go (plain h rest e ne eq) = rw eq v
    go (buffered lost h rest first e idle full eq) = rw eq v

write_front-IsWhole :
    (q ps : List Packet) (buf bytes : List ℕ) (n : ℕ)
    → All IsWhole q
    → Framing.write_front q buf ≡ ok (n, bytes, ps)
    → All IsWhole ps
unfolding Framing.write_front
write_front-IsWhole [] ps buf bytes n w h = subst (All IsWhole) same tt
  where
    same : [] ≡ ps
    same = cc
write_front-IsWhole (p ∷ q) ps buf bytes n w h = subst (All IsWhole) same w.1
  where
    same : q ≡ ps
    same =
        let k : List ℕ → Outcome (ℕ × List ℕ × List Packet) = λ b. ok (p.size, b, q) in
        let (b, _, e) = >>=-eq-ok (memcpy buf 0 (take p.size p.memory)) k h in ground (arith, e)

write_packet-IsValid :
    (s t : Socket) (buf bytes : List ℕ) (n : ℕ)
    → IsValid s
    → Framing.write_packet s buf ≡ ok (n, bytes, t)
    → IsValid t
unfolding Framing.write_packet
write_packet-IsValid s t buf bytes n v h =
    let ((k, b, ps), e, e') = >>=-eq-ok (Framing.write_front s.packet_queue buf) _ h in
    subst IsValid (ground (arith, e')) (record {
      progress = IsValidAt-queue s.size_read s ps v.progress;
      whole = write_front-IsWhole s.packet_queue ps buf b k v.whole e;
    })

recv-IsSound :
    (m m' : MultiSocket) (buf : List ℕ) (ret : ℤ) (out : Code) (bytes : List ℕ)
    → IsSound m
    → recv buf m ≡ ok (ret, out, bytes, m')
    → IsSound m'
unfolding recv
recv-IsSound m m' buf ret out bytes v h = elim (Option-cases (lookup m.curr_sockfd m.tcp_sockets)) [
  | inl e ↦ let same : m ≡ m' = ground arith in subst IsSound same v
  | inr (s, e) ↦ elim (Bool-cases (Framing.packet_ready s)) [
    | inr idle ↦ let same : m ≡ m' = ground arith in subst IsSound same v
    | inl full ↦
        let written : (Framing.write_packet s buf >>= received m) ≡ ok (ret, out, bytes, m') =
          ground arith in
        let ((n, b, t), w, e') = >>=-eq-ok (Framing.write_packet s buf) (received m) written in
        let same : record m { tcp_sockets = insert m.curr_sockfd t m.tcp_sockets } ≡ m' =
          ground (arith, e') in
        subst IsSound same (
          replace-IsSound m v m.curr_sockfd s t e
            (write_packet-IsValid s t buf b n (v m.curr_sockfd s e).0 w))
  ]
]

pub Step-IsSound : {m m' : MultiSocket} → Step m m' → IsSound m → IsSound m'
Step-IsSound {m} {m'} (udp fd bound h) v = enable_udp-IsSound m v fd bound m' h
Step-IsSound {m} {m'} (tcp fd bound h) v = enable_tcp-IsSound m v fd bound m' h
Step-IsSound {m} {m'} (connects mem fd done addr h) v = connect-IsSound m m' mem fd done addr v h
Step-IsSound {m} {m'} (accepts mem fd done h) v = accept-IsSound m m' mem fd done v h
Step-IsSound {m} (adds fd e) v = rw e (add_fd-IsSound m v fd)
Step-IsSound {m} (closes fd e) v = rw e (close-IsSound m v fd)
Step-IsSound {m} (closes_all e) v = rw e (close_all-IsSound m)
Step-IsSound {m} {m'} (scans mem r bytes h) v =
    let (c, e, w, q) = scan-loop mem r m bytes v in
    let same : c ≡ m' = ground arith in subst IsSound same w
Step-IsSound {m} (nexts e) v = rw e (get_next_fd-IsSound m v)
Step-IsSound {m} {m'} (receives buf ret out bytes h) v = recv-IsSound m m' buf ret out bytes v h

-- Whatever operations have been called on a new `MultiSocket`, in whatever order and with whatever
-- answers of the system: each of its buffered sockets satisfies the invariant of BufferedTcpSocket,
-- is in the set that `select` waits for, and has a descriptor of at most `fdmax`.
pub Reach-IsSound : {m : MultiSocket} → Reach m → IsSound m
Reach-IsSound start = new_multi-IsSound
Reach-IsSound (start_on port) = multi_on-IsSound port
Reach-IsSound (more r st) = Step-IsSound st (Reach-IsSound r)

holders-ne-nil :
    (n fd x : ℕ) (mem : Memory) (r : Ready) (m : MultiSocket) (kind : ℕ)
    → fd ≤ x
    → x < fd + n
    → r.selected (pos x) ≡ true
    → holders n fd mem r m kind ≢ []
unfolding holders
holders-ne-nil zero fd x mem r m kind h k s = absurd (omega arith)
holders-ne-nil (suc n) fd x mem r m kind h k s = elim (Bool-cases (r.selected (pos fd))) [
  | inl hit ↦ rw hit (λ e. cc)
  | inr miss ↦
      rw miss (holders-ne-nil n (fd + 1) x mem r m kind (omega (arith, apart miss)) (omega arith) s)
]
  where
    apart : r.selected (pos fd) ≡ false → fd ≢ x
    apart miss e = cc

select_queued :
    (mem : Memory) (answers : List (Option Ready)) (m : MultiSocket)
    → m.sock_queue ≢ []
    → select mem answers m ≡ ok m
unfolding select
select_queued mem [] m h = ground arith
select_queued mem (a ∷ rest) m h = ground arith

-- From a sound state, and where what arrives are bytes, `select` returns with something in the
-- queue, and the state sound, once the system call answers with a descriptor from 0 to `fdmax`.
pub select-returns :
    (mem : Memory) (r : Ready) (later : List (Option Ready)) (m : MultiSocket) (x : ℕ)
    → AllBytes r
    → IsSound m
    → x < rounds m.fdmax
    → r.selected (pos x) ≡ true
    → (m' : MultiSocket) × (select mem (some r ∷ later) m ≡ ok m')
      × (m'.sock_queue ≢ [])
      × IsSound m'
unfolding select
select-returns mem r later m x bytes v h s = go m.sock_queue refl
  where
    go :
        (q : List Holder)
        → m.sock_queue ≡ q
        → (m' : MultiSocket) × (select mem (some r ∷ later) m ≡ ok m')
          × (m'.sock_queue ≢ [])
          × IsSound m'
    go (i ∷ q) e = (m, ground arith, ground arith, v)
    go [] e =
        let (m', ran, w, q) = scan-loop mem r m bytes v in
        let full : m'.sock_queue ≢ [] = λ z.
          holders-ne-nil (rounds m.fdmax) 0 x mem r m mem.word (omega arith) (omega arith) s
            (ground (arith, q)) in
        (m', ground (arith, ran, select_queued mem later m' full), full, w)
