-- ===== src/Multi/Tests.antt =====
-- Runs of MultiSocket.
use tema2_pc_client_server_t.Base.{
  ℕ, ◌≡◌, ◌≢◌, ◌<◌, refl, true, false, none, some, List, [], ◌∷◌, ◌++◌, arith, length, take, ◌⊎◌,
  inl, ok, fault, if◌then◌else◌,
}
use tema2_pc_client_server_t.Base.Int.{ℤ, pos, eqb}
use tema2_pc_client_server_t.Base.Map.{int_key, lookup, insert}
use tema2_pc_client_server_t.Base.Words.{memcpy, write_at, sub64}
use tema2_pc_client_server_t.Framing
use tema2_pc_client_server_t.Framing.{Memory, Socket, Code, Received, chunk}
use tema2_pc_client_server_t.Framing.Valid.{view}
use tema2_pc_client_server_t.Framing.Tests.{zeroed, empty_socket, holding, holding-IsValid}
use tema2_pc_client_server_t.Multi.{
  MultiSocket, Holder, Ready, sock_close, sock_tcp, new_multi, enter, accept, close, scan,
  scan_from, select, rounds, has_packet, get_next_fd, send, recv,
}
use tema2_pc_client_server_t.Multi.Invariant.{
  IsSound, new_multi-IsSound, enter-IsSound, replace-IsSound,
}
use tema2_pc_client_server_t.Multi.Scan.{AllBytes}
use tema2_pc_client_server_t.Multi.Queued.{Appends, up_to, scan-holders}
use tema2_pc_client_server_t.Multi.Kinds.{IsDecisive, scan_from-stale}
use tema2_pc_client_server_t.Multi.Next.{Next, get_next_fd-loses, close-forgets, recv-packet}
use tema2_pc_client_server_t.Multi.Reach.{
  Reach, start, more, accepts, Reach-IsSound, select-returns,
}

-- A connection on the descriptor 4.
abbrev pub one : MultiSocket
one = enter zeroed (pos 4) new_multi

one-Reach : Reach one
unfolding accept
one-Reach = more start (accepts zeroed (pos 4) true refl)

pub one-IsSound : IsSound one
one-IsSound = enter-IsSound new_multi new_multi-IsSound zeroed (pos 4)

-- The descriptor 4 has closed.
abbrev pub closing : Ready
closing = record { selected = λ x. eqb (pos 4) x; arrives = λ x. chunk [] }

abbrev idle : MultiSocket
idle = record new_multi { fdmax = pos 4 }

pub closing-AllBytes : AllBytes closing
closing-AllBytes fd = tt

Reach-IsSound_example : IsSound one
Reach-IsSound_example = Reach-IsSound one-Reach

scan-holders_example :
    (m' : MultiSocket) × (hs : List Holder) × (scan zeroed closing one ≡ ok m')
    × IsSound m'
    × (m'.sock_queue ≡ one.sock_queue ++ hs)
    × Appends zeroed closing one (up_to one.fdmax) 0 0 hs
scan-holders_example = scan-holders zeroed closing one closing-AllBytes one-IsSound

one-IsDecisive : IsDecisive zeroed closing one
unfolding Framing.recv
one-IsDecisive fd s a found e = inl (ground (arith, e))

four : 4 < rounds one.fdmax
unfolding new_multi
four = omega arith

select-returns_example :
    (m' : MultiSocket) × (select zeroed (some closing ∷ []) one ≡ ok m')
    × (m'.sock_queue ≢ [])
    × IsSound m'
select-returns_example =
    select-returns zeroed closing [] one 4 closing-AllBytes one-IsSound four refl

-- Connections on 4 and 5; the first closes, and the second receives one byte.
abbrev two : MultiSocket
two = enter zeroed (pos 5) one

abbrev both : Ready
both = record {
  selected = λ x. true;
  arrives = λ x. if eqb x (pos 4) then chunk [] else chunk (0 ∷ []);
}

-- The socket 5 behind that byte.
abbrev started : Socket
started = record empty_socket { sockfd = pos 5; read_size_index = 1 }

scan_from-stale_example :
    (c' : MultiSocket) × (scan_from 2 4 zeroed both (two, 0) ≡ ok (c', sock_close))
    × (lookup (pos 5) c'.tcp_sockets ≡ some started)
    × (c'.sock_queue
        ≡ two.sock_queue
          ++ record { fd = pos 4; kind = sock_close }
            ∷ record { fd = pos 5; kind = sock_close }
            ∷ [])
unfolding lookup insert new_multi Framing.recv Framing.new_socket Framing.reset Framing.read
    Framing.read_loop Framing.read_current_packet Framing.read_size Framing.packet_ready
    Framing.recv_answer Framing.size_to_copy Framing.after_size memcpy write_at sub64
scan_from-stale_example =
    scan_from-stale zeroed both two 4 0 empty_socket (Framing.new_socket zeroed (pos 5))
      (pos 0, Code.connection_closed, empty_socket) (pos 1, Code.no_code, started) refl refl refl
      refl refl refl refl refl refl

abbrev queued : MultiSocket
queued = record one {
  sock_queue =
      record { fd = pos 4; kind = sock_tcp } ∷ record { fd = pos 9; kind = sock_close } ∷ [];
}

get_next_fd-loses_example :
    get_next_fd queued
    ≡ get_next_fd (record queued { sock_queue = record { fd = pos 4; kind = sock_tcp } ∷ [] })
unfolding has_packet lookup insert new_multi Framing.new_socket Framing.packet_ready
get_next_fd-loses_example =
    get_next_fd-loses queued (record { fd = pos 4; kind = sock_tcp })
      (record { fd = pos 9; kind = sock_close }) [] refl refl refl refl

close-forgets_example :
    (has_packet (pos 4) (close (pos 4) one) ≡ false)
    × (send (pos 4) (7 ∷ []) (close (pos 4) one) ≡ ok none)
    × ((close (pos 4) one).read_fds (pos 4) ≡ false)
    × ((x : ℤ)
        → x ≢ pos 4
        → (lookup x (close (pos 4) one).tcp_sockets ≡ lookup x one.tcp_sockets)
          × ((close (pos 4) one).read_fds x ≡ one.read_fds x))
close-forgets_example = close-forgets one (pos 4) (7 ∷ [])

-- The socket 4 with a packet, and as the current one.
abbrev full : MultiSocket
full = record one { tcp_sockets = insert (pos 4) holding one.tcp_sockets; curr_sockfd = pos 4 }

one_lookup : lookup (pos 4) one.tcp_sockets ≡ some empty_socket
unfolding lookup insert new_multi Framing.new_socket
one_lookup = refl

full-IsSound : IsSound full
full-IsSound =
    replace-IsSound one one-IsSound (pos 4) empty_socket holding one_lookup holding-IsValid

full_lookup : lookup full.curr_sockfd full.tcp_sockets ≡ some holding
unfolding lookup insert new_multi
full_lookup = refl

abbrev small : List ℕ
small = 0 ∷ 0 ∷ 0 ∷ []

abbrev pair : List ℕ
pair = 7 ∷ 8 ∷ []

recv-packet_example :
    ((length small < length pair) × (recv small full ≡ fault))
    ⊎ ((bytes : List ℕ) × (m' : MultiSocket) × (t : Socket) × (recv small full
          ≡ ok (pos (length pair), Code.no_code, bytes, m'))
        × (take (length pair) bytes ≡ pair)
        × IsSound m'
        × (lookup full.curr_sockfd m'.tcp_sockets ≡ some t)
        × (m' ≡ record full { tcp_sockets = insert full.curr_sockfd t full.tcp_sockets })
        × (view t ≡ record { pending = (view holding).pending; packets = [] }))
recv-packet_example = recv-packet full small pair [] holding full-IsSound full_lookup refl
