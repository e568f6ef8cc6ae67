-- ===== src/Framing/Valid.antt =====
-- The invariant of a `BufferedTcpSocket`, what it has received as the protocol sees it, and the
-- memory facts on which `read_current_packet` rests.
use tema2_pc_client_server_t.Base.{
  ℕ, ◌-◌, ◌≤◌, ◌<◌, ◌≡◌, refl, Bool, true, false, List, [], map, arith, length, take, drop,
  take_all, drop_all, length-take, All, ok, ◌==◌, if◌then◌else◌,
}
use tema2_pc_client_server_t.Base.Words.{sub32-le, word_bytes, write_at, memcpy_fits}
use tema2_pc_client_server_t.Framing.{
  Packet, Socket, Memory, new_socket, reset, copy_body, packet_complete, max_packet_size,
  packet_not_ready, buffer_written,
}
use tema2_pc_client_server_t.Framing.Spec.{Pending, header, body, View}

abbrev pub IsWhole : Packet → Type 0
IsWhole p = length p.memory ≡ p.size

-- By whether the size is read.
abbrev pub IsValidAt : Bool → Socket → Type 0
IsValidAt false s = s.read_size_index < 4
IsValidAt true s =
    (s.expected_size ≤ s.buffer_size)
    × (s.buffer_size ≤ max_packet_size)
    × (length s.current_buffer ≡ s.buffer_size)

pub record IsValid (s : Socket) : Type 0 where
  pub progress : IsValidAt s.size_read s
  pub whole : All IsWhole s.packet_queue

abbrev pub payload : Packet → List ℕ
payload p = take p.size p.memory

abbrev pub pending_at : Bool → Socket → Pending
pending_at false s = header (take s.read_size_index (word_bytes 4 s.expected_size))
pending_at true s = body s.expected_size (take (s.buffer_size - s.expected_size) s.current_buffer)

-- What has been received.
abbrev pub view : Socket → View
view s = record { pending = pending_at s.size_read s; packets = map payload s.packet_queue }

-- A socket whose empty packet waits for one byte more: the loop of `read` turns once for nothing.
abbrev pub lag_at : Bool → Socket → ℕ
lag_at false s = 0
lag_at true s = if s.expected_size == 0 then 1 else 0

abbrev pub lag : Socket → ℕ
lag s = lag_at s.size_read s

module _ (s : Socket) (buf : List ℕ) (v : IsValidAt true s) where
  abbrev offset : ℕ
  offset = s.buffer_size - s.expected_size

  -- The packet goes on behind these bytes.
  pub copy_body_part :
      length buf < s.expected_size
      → copy_body s buf
        ≡ ok (
          packet_not_ready,
          record s {
            current_buffer = write_at s.current_buffer (s.buffer_size - s.expected_size) buf;
            expected_size = s.expected_size - length buf;
          },
          [],
        )
  unfolding copy_body
  copy_body_part h = ground (
    arith,
    take_all (length buf) buf,
    drop_all (length buf) buf,
    sub32-le s.buffer_size s.expected_size,
    memcpy_fits s.current_buffer offset buf,
  )

  -- The packet ends among these bytes, or with them.
  pub copy_body_whole :
      s.expected_size ≤ length buf
      → copy_body s buf
        ≡ ok (
          buffer_written,
          packet_complete (record s {
            current_buffer =
                write_at s.current_buffer
                  (s.buffer_size - s.expected_size)
                  (take s.expected_size buf);
            expected_size = 0;
          }),
          drop s.expected_size buf,
        )
  unfolding copy_body
  copy_body_whole h = ground (
    arith,
    take_all (length buf) buf,
    drop_all (length buf) buf,
    length-take s.expected_size buf,
    sub32-le s.buffer_size s.expected_size,
    memcpy_fits s.current_buffer offset (take s.expected_size buf),
  )

pub new_socket-IsValid : (m : Memory) (fd : _) → IsValid (new_socket m fd)
unfolding new_socket
new_socket-IsValid m fd = ground arith

pub reset-IsValid : (s : Socket) → IsValid (reset s)
unfolding reset
reset-IsValid s = ground arith

-- Neither the invariant of the packet that is being received nor what is pending sees the queue.
pub IsValidAt-queue :
    (b : Bool) (s : Socket) (q : List Packet)
    → IsValidAt b s
    → IsValidAt b (record s { packet_queue = q })
IsValidAt-queue true s q v = v
IsValidAt-queue false s q v = v

pub pending_at-queue :
    (b : Bool) (s : Socket) (q : List Packet)
    → pending_at b (record s { packet_queue = q }) ≡ pending_at b s
pending_at-queue true s q = refl
pending_at-queue false s q = refl
