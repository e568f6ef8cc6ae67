-- ===== src/Server/Wire.antt =====
-- What the server makes of the packets that a client generates.
use tema2_pc_client_server_t.Base.{
  ℕ, suc, ◌+◌, ◌-◌, ◌≤◌, ◌<◌, ◌≡◌, refl, ◌∙◌, List, [], ◌∷◌, ◌++◌, append-nil, append_assoc, arith,
  length, length-append, length-take, take, take-append, drop, ◌⊎◌, inl, inr, ok, die, fault,
}
use tema2_pc_client_server_t.Base.Int.{ℤ}
use tema2_pc_client_server_t.Base.Words.{
  memcpy, memcpy_fits, write_at, write_at_front, write_at_next, write_at_one, length-write_at,
}
use tema2_pc_client_server_t.Base.CString.{
  c_str, nuls, length-nuls, nuls_pos, c_str_text, strncpy, strncpy_short, strncpy_full, strnlen,
  strnlen_short, strnlen_full, IsText,
}
use tema2_pc_client_server_t.Framing.{Memory}
use tema2_pc_client_server_t.App.{
  type_auth, type_sub, type_sub_sf, type_unsub, generate_tcp_auth_packet, generate_tcp_sub_packet,
}
use tema2_pc_client_server_t.Server.State.{Broker}
use tema2_pc_client_server_t.Server.Commands.{
  authenticate, command, dispatch, process_tcp_client_packet,
}

-- Memory that is written up to `n` and then gets one byte more.
write_at_end :
    (mem bytes : List ℕ) (x n : ℕ)
    → length bytes ≡ n
    → write_at (write_at mem 0 bytes) n (x ∷ []) ≡ bytes ++ x ∷ drop 1 (drop n mem)
write_at_end mem bytes x n e =
    rw (write_at_front mem bytes, write_at_next n bytes (drop (length bytes) mem) (x ∷ []) e, e)

module _ (mem : Memory) (fd : ℤ) (buf : List ℕ) (size : ℕ) (b : Broker) where
  -- A packet of at most 64 bytes is read with a NUL behind it, whatever the stack held before.
  pub process-dispatch :
      size ≤ 64
      → size ≤ length buf
      → (rest : List ℕ) × (process_tcp_client_packet mem fd buf size b
          ≡ dispatch fd (take size buf ++ 0 ∷ rest) b)
  unfolding process_tcp_client_packet
  process-dispatch h k = (
    drop 1 (drop size (mem.fresh 65)),
    ground (
      arith,
      length-take size buf,
      mem.length-fresh 65,
      memcpy_fits (mem.fresh 65) 0 (take size buf),
      length-write_at (mem.fresh 65) 0 (take size buf),
      memcpy_fits (write_at (mem.fresh 65) 0 (take size buf)) size (0 ∷ []),
      write_at_end (mem.fresh 65) (take size buf) 0 size,
    ),
  )

  -- A packet of 65 bytes, the size of the struct, in a buffer that holds it, has its NUL written
  -- past the end of the struct.
  pub process_full :
      size ≡ 65 → size ≤ length buf → process_tcp_client_packet mem fd buf size b ≡ fault
  unfolding process_tcp_client_packet memcpy
  process_full h k = ground (
    arith,
    length-take size buf,
    mem.length-fresh 65,
    length-write_at (mem.fresh 65) 0 (take size buf),
  )

  pub process_long : 65 < size → process_tcp_client_packet mem fd buf size b ≡ die
  unfolding process_tcp_client_packet
  process_long h = ground arith

-- The branch of `dispatch` for the text behind the type.
dispatch_auth :
    (fd : ℤ) (id rest : List ℕ) (b : Broker)
    → IsText id
    → dispatch fd (type_auth ∷ id ++ 0 ∷ rest) b ≡ ok (authenticate fd id b)
unfolding dispatch
dispatch_auth fd id rest b h = rw (c_str_text id rest h)

typed :
    (buf body : List ℕ) (type n : ℕ)
    → length body ≡ n
    → write_at (write_at buf 0 (type ∷ [])) 1 body ≡ type ∷ (body ++ drop n (drop 1 buf))
typed buf body type n e =
    rw (write_at_front buf (type ∷ []), write_at_next 1 (type ∷ []) (drop 1 buf) body refl, e)

-- A buffer with a type and a text with NULs behind it, as far as the server reads it.
pub read_auth :
    (mem : Memory) (fd : ℤ) (id tail : List ℕ) (k : ℕ) (b : Broker)
    → IsText id
    → length id + k ≡ 11
    → 0 < k
    → process_tcp_client_packet mem fd (type_auth ∷ ((id ++ nuls k) ++ tail)) 12 b
      ≡ ok (authenticate fd id b)
read_auth mem fd id tail k b t e p =
    let (rest, ran) =
      process-dispatch mem fd (type_auth ∷ ((id ++ nuls k) ++ tail)) 12 b (omega arith) (
        omega
          (arith, length-append (id ++ nuls k) tail, length-append id (nuls k), length-nuls k)) in
    ran
    ∙ ground (
      arith,
      take-append 11 (id ++ nuls k) tail,
      length-append id (nuls k),
      length-nuls k,
      nuls_pos k p,
      append_assoc id (nuls k) (0 ∷ rest),
      dispatch_auth fd id (nuls (k - 1) ++ 0 ∷ rest) b t,
    )

-- The packet that a client generates for an id of at most 10 bytes, which its array holds with a
-- NUL behind it, in a buffer of at least 12 bytes, is read by the server as TYPE_AUTH with that id,
-- which is the text behind its type.
pub auth_round_trip :
    (mem : Memory) (fd : ℤ) (id junk buf : List ℕ) (b : Broker)
    → IsText id
    → length id < 11
    → 12 ≤ length buf
    → (packet : List ℕ) × (generate_tcp_auth_packet (id ++ 0 ∷ junk) buf ≡ ok (packet, 12))
      × (process_tcp_client_packet mem fd packet 12 b ≡ ok (authenticate fd id b))
      × (c_str (drop 1 packet) ≡ ok id)
unfolding generate_tcp_auth_packet
auth_round_trip mem fd id junk buf b t l k = (
  type_auth ∷ ((id ++ nuls (11 - length id)) ++ drop 11 (drop 1 buf)),
  ground (
    arith,
    memcpy_fits buf 0 (type_auth ∷ []),
    strncpy_short 11 (11 - length id) id junk t,
    length-append id (nuls (11 - length id)),
    length-nuls (11 - length id),
    length-write_at buf 0 (type_auth ∷ []),
    memcpy_fits (write_at buf 0 (type_auth ∷ [])) 1 (id ++ nuls (11 - length id)),
    typed buf (id ++ nuls (11 - length id)) type_auth 11,
  ),
  read_auth mem fd id (drop 11 (drop 1 buf)) (11 - length id) b t (omega arith) (omega arith),
  rw
      (
        append_assoc id (nuls (11 - length id)) (drop 11 (drop 1 buf)),
        nuls_pos (11 - length id) (omega arith),
      )
      (c_str_text id (nuls (11 - length id - 1) ++ drop 11 (drop 1 buf)) t),
)

abbrev pub IsCommand : ℕ → Type 0
IsCommand type = (type ≡ type_sub) ⊎ (type ≡ type_sub_sf) ⊎ (type ≡ type_unsub)

dispatch-command :
    (fd : ℤ) (type : ℕ) (topic rest : List ℕ) (b : Broker)
    → IsCommand type
    → IsText topic
    → dispatch fd (type ∷ (topic ++ 0 ∷ rest)) b ≡ command type fd (ok topic) b
unfolding dispatch
dispatch-command fd type topic rest b c t = rw (c_str_text topic rest t) (ground arith)

-- A buffer with a type and a text of at most 50 bytes, as far as the server reads it.
pub read_command :
    (mem : Memory) (fd : ℤ) (type : ℕ) (topic tail : List ℕ) (b : Broker)
    → IsCommand type
    → IsText topic
    → length topic ≤ 50
    → process_tcp_client_packet mem fd (type ∷ (topic ++ tail)) (1 + length topic) b
      ≡ command type fd (ok topic) b
read_command mem fd type topic tail b c t l =
    let size : 1 + length topic ≡ suc (length topic) = omega arith in
    let (rest, ran) =
      process-dispatch mem fd (type ∷ (topic ++ tail)) (1 + length topic) b (omega arith)
        (omega (arith, length-append topic tail)) in
    ran
    ∙ rw (size, take-append (length topic) topic tail refl)
        (dispatch-command fd type topic rest b c t)

typed_last :
    (buf name : List ℕ) (type : ℕ)
    → 0 < length buf
    → write_at (write_at buf 1 name) 0 (type ∷ [])
      ≡ type ∷ (name ++ drop (length name) (drop 1 buf))
typed_last [] name type h = elim h [ ]
typed_last (x ∷ buf) name type h =
    rw (write_at_front (write_at (x ∷ buf) 1 name) (type ∷ []), write_at_one x buf name)

-- The packet that is generated, for the 50 bytes that `strncpy` makes of the topic and their length.
generated :
    (type : ℕ) (topic name buf : List ℕ) (n : ℕ)
    → strncpy 50 topic ≡ ok name
    → length name ≡ 50
    → 51 ≤ length buf
    → strnlen (name ++ drop 50 (drop 1 buf)) 50 ≡ ok n
    → generate_tcp_sub_packet type topic buf ≡ ok (type ∷ (name ++ drop 50 (drop 1 buf)), 1 + n)
unfolding generate_tcp_sub_packet
generated type topic name buf n e l h k = ground (
  arith,
  memcpy_fits buf 1 name,
  length-write_at buf 1 name,
  memcpy_fits (write_at buf 1 name) 0 (type ∷ []),
  typed_last buf name type,
)

-- How `char topic[TOPIC_LEN]` holds a topic: with a NUL behind it, or filling the array.
abbrev pub HoldsTopic : List ℕ → List ℕ → Type 0
HoldsTopic mem topic =
    ((length topic < 50) × (junk : List ℕ) × (mem ≡ topic ++ 0 ∷ junk))
    ⊎ ((length topic ≡ 50) × (mem ≡ topic))

-- The server reads the packet of a SUBSCRIBE or UNSUBSCRIBE that a client generates in a buffer of
-- at least 51 bytes as that command on that topic, for each topic of up to 50 bytes, the ones that
-- fill the array included.
pub command_round_trip :
    (mem : Memory) (fd : ℤ) (type : ℕ) (array topic buf : List ℕ) (b : Broker)
    → IsCommand type
    → IsText topic
    → HoldsTopic array topic
    → 51 ≤ length buf
    → (packet : List ℕ) × (generate_tcp_sub_packet type array buf ≡ ok (packet, 1 + length topic))
      × (process_tcp_client_packet mem fd packet (1 + length topic) b
          ≡ command type fd (ok topic) b)
command_round_trip mem fd type array topic buf b c t (inl (l, junk, e)) k = (
  type ∷ (padded ++ tail),
  rw e (
      generated type (topic ++ 0 ∷ junk) padded buf (length topic)
        (strncpy_short 50 (50 - length topic) topic junk t (omega arith) (omega arith))
        (omega
          (arith, length-append topic (nuls (50 - length topic)), length-nuls (50 - length topic)))
        k
        (ground (
          arith,
          split,
          nuls_pos (50 - length topic),
          strnlen_short 50 topic (nuls (50 - length topic - 1) ++ tail) t,
        ))),
  rw split (read_command mem fd type topic (nuls (50 - length topic) ++ tail) b c t (omega arith)),
)
  where
    padded : List ℕ
    padded = topic ++ nuls (50 - length topic)

    tail : List ℕ
    tail = drop 50 (drop 1 buf)

    split : padded ++ tail ≡ topic ++ (nuls (50 - length topic) ++ tail)
    split = append_assoc topic (nuls (50 - length topic)) tail
command_round_trip mem fd type array topic buf b c t (inr (l, e)) k = (
  type ∷ (topic ++ drop 50 (drop 1 buf)),
  rw e (
      generated type topic topic buf (length topic)
        (ground (arith, strncpy_full 50 topic [] t, append-nil topic)) l k
        (ground (arith, strnlen_full 50 topic (drop 50 (drop 1 buf)) t))),
  read_command mem fd type topic (drop 50 (drop 1 buf)) b c t (omega arith),
)
