-- ===== src/Multi/Invariant.antt =====
-- Every buffered socket of a `MultiSocket` is valid, is waited for by `select`, and lies within the
-- range of the loop over the descriptors. Here are the steps that keep it so.
use tema2_pc_client_server_t.Base.{◌≡◌, Bool, true, false, some, arith, ok}
use tema2_pc_client_server_t.Base.Int.{ℤ, pos, negsuc, minus_one, eqb, eqb_iff, is_le_zero}
use tema2_pc_client_server_t.Base.Int
use tema2_pc_client_server_t.Base.Map.{int_key, lookup, insert, lookup-insert, lookup-erase}
use tema2_pc_client_server_t.Framing.{Memory, Socket, new_socket}
use tema2_pc_client_server_t.Framing.Valid.{IsValid, new_socket-IsValid}
use tema2_pc_client_server_t.Multi.{
  MultiSocket, Address, new_multi, multi_on, enable_udp, enable_tcp_connections, enter, add_fd,
  close, max_int,
}

-- One buffered socket.
abbrev pub IsKept : MultiSocket → ℤ → Socket → Type 0
IsKept m fd s = IsValid s × (m.read_fds fd ≡ true) × (Int.ltb m.fdmax fd ≡ false)

abbrev pub IsSound : MultiSocket → Type 0
IsSound m = (fd : ℤ) (s : Socket) → lookup fd m.tcp_sockets ≡ some s → IsKept m fd s

ltb-max_int : (a b : ℤ) → Int.ltb (max_int a b) b ≡ false
ltb-max_int (pos m) (pos n) = ground arith
ltb-max_int (pos m) (negsuc n) = ground arith
ltb-max_int (negsuc m) (pos n) = ground arith
ltb-max_int (negsuc m) (negsuc n) = ground arith

ltb-max_int_left : (a b c : ℤ) → Int.ltb a c ≡ false → Int.ltb (max_int a b) c ≡ false
ltb-max_int_left (pos l) (pos m) (pos n) h = ground arith
ltb-max_int_left (pos l) (pos m) (negsuc n) h = ground arith
ltb-max_int_left (pos l) (negsuc m) (pos n) h = ground arith
ltb-max_int_left (pos l) (negsuc m) (negsuc n) h = ground arith
ltb-max_int_left (negsuc l) (pos m) (pos n) h = ground arith
ltb-max_int_left (negsuc l) (pos m) (negsuc n) h = ground arith
ltb-max_int_left (negsuc l) (negsuc m) (pos n) h = ground arith
ltb-max_int_left (negsuc l) (negsuc m) (negsuc n) h = ground arith

pub new_multi-IsSound : IsSound new_multi
unfolding new_multi
new_multi-IsSound fd s e = unfold lookup in cc

pub multi_on-IsSound : (port : ℤ) → IsSound (multi_on port)
unfolding multi_on
multi_on-IsSound port = new_multi-IsSound

module _ (m : MultiSocket) (v : IsSound m) where
  pub enter-IsSound : (mem : Memory) (new : ℤ) → IsSound (enter mem new m)
  enter-IsSound mem new fd s e = ground (
    arith,
    v fd s,
    lookup-insert fd new (new_socket mem new) m.tcp_sockets,
    eqb_iff new fd,
    new_socket-IsValid mem new,
    ltb-max_int m.fdmax new,
    ltb-max_int_left m.fdmax new fd,
  )

  pub close-IsSound : (old : ℤ) → IsSound (close old m)
  unfolding close
  close-IsSound old fd s e = ground (arith, v fd s, lookup-erase fd old m.tcp_sockets)

  pub add_fd-IsSound : (new : ℤ) → IsSound (add_fd new m)
  unfolding add_fd
  add_fd-IsSound new fd s e = ground (arith, v fd s)

  pub enable_udp-IsSound :
      (new : ℤ) (bound : Address → Bool) (m' : MultiSocket)
      → enable_udp new bound m ≡ ok m'
      → IsSound m'
  unfolding enable_udp
  enable_udp-IsSound new bound m' h fd s e = ground (arith, v fd s, ltb-max_int_left m.fdmax new fd)

  pub enable_tcp-IsSound :
      (new : ℤ) (bound : Address → Bool) (m' : MultiSocket)
      → enable_tcp_connections new bound m ≡ ok m'
      → IsSound m'
  unfolding enable_tcp_connections
  enable_tcp-IsSound new bound m' h fd s e = ground (arith, v fd s, ltb-max_int_left m.fdmax new fd)

  -- A socket that the map has, put back in another state.
  pub replace-IsSound :
      (at : ℤ) (old new : Socket)
      → lookup at m.tcp_sockets ≡ some old
      → IsValid new
      → IsSound (record m { tcp_sockets = insert at new m.tcp_sockets })
  replace-IsSound at old new found w fd s e =
      ground (arith, v fd s, v at old, lookup-insert fd at new m.tcp_sockets, eqb_iff at fd)
