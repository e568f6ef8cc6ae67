-- ===== src/Framing/Tests.antt =====
-- Runs of BufferedTcpSocket on small streams.
use tema2_pc_client_server_t.Base.{
  ℕ, ◌≡◌, refl, false, some, List, [], ◌∷◌, arith, replicate, length-replicate, ok,
}
use tema2_pc_client_server_t.Base.Int.{ℤ, pos}
use tema2_pc_client_server_t.Base.Words.{swap32}
use tema2_pc_client_server_t.Framing.{Memory, Socket, Code, chunk, new_socket, read, recv, send}
use tema2_pc_client_server_t.Framing.Spec.{header, feeds}
use tema2_pc_client_server_t.Framing.Valid.{IsValid, view, new_socket-IsValid}
use tema2_pc_client_server_t.Framing.Refines.{Read, read-Read}
use tema2_pc_client_server_t.Framing.RoundTrip.{recv_all, send_all, recv_all-send_all}
use tema2_pc_client_server_t.Framing.Answers.{Answers, recv-Answers}

abbrev pub zeroed : Memory
zeroed = record { fresh = λ n. replicate n 0; length-fresh = λ n. length-replicate n 0; word = 0 }

abbrev pub empty_socket : Socket
empty_socket = new_socket zeroed (pos 4)

-- The packet 7 8, and the first byte of another.
abbrev stream : List ℕ
stream = 0 ∷ 0 ∷ 0 ∷ 2 ∷ 7 ∷ 8 ∷ 0 ∷ []

-- A socket that has received the packet 7 8.
abbrev pub holding : Socket
holding = record {
  sockfd = pos 4;
  current_buffer = 7 ∷ 8 ∷ [];
  expected_size = 0;
  buffer_size = 2;
  size_read = false;
  read_size_index = 0;
  packet_queue = record { size = 2; memory = 7 ∷ 8 ∷ [] } ∷ [];
}

pub holding-IsValid : IsValid holding
holding-IsValid = record { progress = omega arith; whole = (refl, tt) }

stream_fed :
    feeds stream (view empty_socket)
    ≡ some (record { pending = header (0 ∷ []); packets = (7 ∷ 8 ∷ []) ∷ [] })
unfolding feeds new_socket
stream_fed = refl

read-Read_example : Read (view empty_socket) stream (read zeroed empty_socket stream)
read-Read_example =
    read-Read zeroed empty_socket stream (new_socket-IsValid zeroed (pos 4)) (ground arith)

recv-Answers_example :
    (a : ℤ × Code × Socket) × (recv zeroed empty_socket (chunk stream) ≡ ok a)
    × IsValid a.2
    × Answers empty_socket (chunk stream) a
recv-Answers_example =
    recv-Answers zeroed empty_socket (chunk stream) (new_socket-IsValid zeroed (pos 4))
      (ground arith)

sent : send_all ((7 ∷ []) ∷ (8 ∷ 9 ∷ []) ∷ []) ≡ ok (0 ∷ 0 ∷ 0 ∷ 1 ∷ 7 ∷ 0 ∷ 0 ∷ 0 ∷ 2 ∷ 8 ∷ 9 ∷ [])
unfolding send_all send swap32
sent = refl

recv_all-send_all_example :
    (s : Socket) × (recv_all zeroed empty_socket
        ((0 ∷ 0 ∷ []) ∷ (0 ∷ 1 ∷ 7 ∷ 0 ∷ []) ∷ (0 ∷ 0 ∷ 2 ∷ 8 ∷ 9 ∷ []) ∷ [])
      ≡ ok s)
    × IsValid s
    × (view s ≡ record { pending = header []; packets = (7 ∷ []) ∷ (8 ∷ 9 ∷ []) ∷ [] })
recv_all-send_all_example =
    recv_all-send_all zeroed (pos 4) ((7 ∷ []) ∷ (8 ∷ 9 ∷ []) ∷ [])
      (0 ∷ 0 ∷ 0 ∷ 1 ∷ 7 ∷ 0 ∷ 0 ∷ 0 ∷ 2 ∷ 8 ∷ 9 ∷ [])
      ((0 ∷ 0 ∷ []) ∷ (0 ∷ 1 ∷ 7 ∷ 0 ∷ []) ∷ (0 ∷ 0 ∷ 2 ∷ 8 ∷ 9 ∷ []) ∷ []) (ground arith) sent
      (ground arith) refl
