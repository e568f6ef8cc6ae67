-- ===== src/Framing.antt =====
-- BufferedTcpSocket.cpp and BufferedTcpSocket.h: frames of [ length | packet ] on a TCP stream.
-- A buffer argument `char *&buf, uint32_t &size` is the list of the `size` bytes at `buf`, and the
-- list that is left comes back. `sockfd` is an `int`. The null pointer is a memory of no bytes.
pub mod Spec
pub mod Valid
pub mod Header
pub mod Refines
pub mod RoundTrip
pub mod Answers
pub mod Tests
use tema2_pc_client_server_t.Base.{
  ℕ, zero, suc, ◌+◌, ◌-◌, ◌*◌, ◌%◌, ◌≡◌, Bool, true, false, List, [], ◌∷◌, ◌++◌, length, is_empty,
  take, drop, Outcome, ok, die, out_of_fuel, ◌>>=◌, ltb, ◌==◌, if◌then◌else◌,
}
use tema2_pc_client_server_t.Base.Int.{ℤ, pos, negsuc}
use tema2_pc_client_server_t.Base.Words.{sub32, sub64, word_bytes, bytes_word, swap32, memcpy}

abbrev pub max_packet_size : ℕ
max_packet_size = 65536

abbrev pub tcp_buffer_size : ℕ
tcp_buffer_size = 4096

-- The codes that the operations return.
pub data Code : Type 0 where
  buffer_written packet_not_ready buffer_too_small unbuffered_socket packet_too_big buffer_read :
      Code
  connection_closed no_code : Code

abbrev pub is_too_big : Code → Bool
is_too_big packet_too_big = true
is_too_big _ = false

-- `pack_t`
pub record Packet : Type 0 where
  pub size : ℕ
  pub memory : List ℕ

pub record Socket : Type 0 where
  pub sockfd : ℤ
  pub current_buffer : List ℕ
  pub expected_size : ℕ
  pub buffer_size : ℕ
  pub size_read : Bool
  pub read_size_index : ℕ
  pub packet_queue : List Packet

-- What memory holds before it is written: the bytes of `new char[n]`, and those of the fields that
-- the constructor leaves alone.
pub record Memory : Type 0 where
  pub fresh : ℕ → List ℕ
  pub length-fresh : (n : ℕ) → length (fresh n) ≡ n
  pub word : ℕ

-- `BufferedTcpSocket::BufferedTcpSocket`
unfoldable pub new_socket : Memory → ℤ → Socket
new_socket m fd = record {
  sockfd = fd;
  current_buffer = [];
  expected_size = m.word;
  buffer_size = m.word;
  size_read = false;
  read_size_index = 0;
  packet_queue = [];
}

-- The branch of `read_size` on which the four bytes are there.
unfoldable pub size_complete : Memory → Socket → List ℕ → Outcome (Code × Socket × List ℕ)
size_complete m s rest =
    let n = swap32 s.expected_size in
    let s' : Socket = record s { expected_size = n; buffer_size = n; size_read = true } in
    if ltb max_packet_size n
    then ok (packet_too_big, s', rest)
    else ok (packet_not_ready, record s' { current_buffer = m.fresh n }, rest)

unfoldable pub size_to_copy : Socket → List ℕ → ℕ
size_to_copy s buf =
    if ltb (length buf) (sub64 4 s.read_size_index) then length buf else sub64 4 s.read_size_index

-- `read_size`; `read_size_index` is a `uint8_t`.
unfoldable pub read_size : Memory → Socket → List ℕ → Outcome (Code × Socket × List ℕ)
unfolding size_complete size_to_copy
read_size m s buf = do
  let to_copy = size_to_copy s buf
  bytes ← memcpy (word_bytes 4 s.expected_size) s.read_size_index (take to_copy buf)
  let index = (s.read_size_index + to_copy) % 256
  let s' = record s { expected_size = bytes_word bytes; read_size_index = index }
  let rest = drop to_copy buf
  if index == 4 then size_complete m s' rest else ok (packet_not_ready, s', rest)

-- The branch of `read_current_packet` on which the packet is whole.
unfoldable pub packet_complete : Socket → Socket
packet_complete s = record s {
  packet_queue = s.packet_queue ++ record { size = s.buffer_size; memory = s.current_buffer } ∷ [];
  size_read = false;
  read_size_index = 0;
}

-- The part of `read_current_packet` behind the size.
unfoldable pub copy_body : Socket → List ℕ → Outcome (Code × Socket × List ℕ)
unfolding packet_complete
copy_body s buf = do
  let to_copy = if ltb s.expected_size (length buf) then s.expected_size else length buf
  bytes ← memcpy s.current_buffer (sub32 s.buffer_size s.expected_size) (take to_copy buf)
  let s' = record s { current_buffer = bytes; expected_size = s.expected_size - to_copy }
  let rest = drop to_copy buf
  if s'.expected_size == 0
      then ok (buffer_written, packet_complete s', rest)
      else ok (packet_not_ready, s', rest)

-- What `read_current_packet` does with the answer of `read_size`.
unfoldable pub after_size : Code × Socket × List ℕ → Outcome (Code × Socket × List ℕ)
after_size (code, s, rest) =
    if is_too_big code
    then ok (packet_too_big, s, rest)
    else if is_empty rest
    then ok (packet_not_ready, s, rest)
    else copy_body s rest

unfoldable pub read_current_packet : Memory → Socket → List ℕ → Outcome (Code × Socket × List ℕ)
unfolding after_size
read_current_packet m s buf =
    if s.size_read then copy_body s buf else (read_size m s buf >>= after_size)

-- `reset`. A buffer that is not allocated is the null pointer already.
unfoldable pub reset : Socket → Socket
reset s = record s {
  current_buffer = if s.size_read then [] else s.current_buffer;
  read_size_index = 0;
  size_read = false;
  packet_queue = [];
}

-- The loop of `read`, on fuel.
unfoldable pub read_loop : ℕ → Memory → Socket → List ℕ → Outcome (Code × Socket)
read_loop zero m s buf = out_of_fuel
read_loop (suc fuel) m s [] = ok (buffer_read, s)
read_loop (suc fuel) m s (b ∷ bs) = do
  (code, s', rest) ← read_current_packet m s (b ∷ bs)
  let more = read_loop fuel m s' rest
  if is_too_big code then ok (packet_too_big, reset s') else more

-- `read`, with two rounds for each byte: one for a part of the length and one for a part of a packet.
unfoldable pub read : Memory → Socket → List ℕ → Outcome (Code × Socket)
read m s buf = read_loop (2 * length buf + 2) m s buf

-- What the system call `recv` returns: -1, or the bytes, of which there are none at the end.
pub data Received : Type 0 where
  failed : Received
  chunk : List ℕ → Received

-- `recv` on a chunk of `n` bytes, behind `read`.
unfoldable pub recv_answer : ℕ → Code × Socket → Outcome (ℤ × Code × Socket)
recv_answer n (code, s) =
    if is_too_big code then ok (pos 0, packet_too_big, s) else ok (pos n, no_code, s)

-- `recv`: the value returned, `*out` and the socket.
unfoldable pub recv : Memory → Socket → Received → Outcome (ℤ × Code × Socket)
unfolding recv_answer
recv m s failed = ok (negsuc 0, no_code, s)
recv m s (chunk []) = ok (pos 0, connection_closed, reset s)
recv m s (chunk (b ∷ bs)) = read m s (b ∷ bs) >>= recv_answer (length (b ∷ bs))

unfoldable pub packet_ready : Socket → Bool
packet_ready s = elim s.packet_queue [ [] ↦ false | p ∷ ps ↦ true ]

-- `write_packet` on the packets in the queue: the value returned, the caller's memory at `buf` and
-- the queue. A packet that does not fit that memory is written past its end.
unfoldable pub write_front : List Packet → List ℕ → Outcome (ℕ × List ℕ × List Packet)
write_front [] buf = ok (0, buf, [])
write_front (p ∷ ps) buf = do bytes ← memcpy buf 0 (take p.size p.memory); ok (p.size, bytes, ps)

unfoldable pub write_packet : Socket → List ℕ → Outcome (ℕ × List ℕ × Socket)
unfolding write_front
write_packet s buf = do
  (n, bytes, ps) ← write_front s.packet_queue buf
  ok (n, bytes, record s { packet_queue = ps })

-- The bytes that `send` hands to the system call, for the `len` bytes at `buf`. What the system call
-- returns is returned.
unfoldable pub send : List ℕ → Outcome (List ℕ)
send buf =
    if ltb tcp_buffer_size (length buf + 4)
    then die
    else ok (word_bytes 4 (swap32 (length buf)) ++ buf)
