-- ===== src/Framing/Header.antt =====
-- The length of a packet, which comes in up to four parts: `read_size` against the protocol.
use tema2_pc_client_server_t.Base.{
  ℕ, ◌+◌, ◌-◌, ◌≤◌, ◌<◌, ◌≡◌, refl, ◌∙◌, ap, subst, List, [], ◌++◌, reverse, arith, length, take,
  drop, take_all, drop_all, length-take, ok,
}
use tema2_pc_client_server_t.Base.Words.{
  sub64-le, word_bytes, bytes_word, swap32, write_at, memcpy_fits, take-write_at, word_bytes-store,
  IsBytes,
}
use tema2_pc_client_server_t.Framing.{Socket, Memory, packet_not_ready, size_complete, read_size}

-- The memory of `expected_size` with `bytes` put behind those that it has of the length.
abbrev pub stored : Socket → List ℕ → ℕ
stored s bytes = bytes_word (write_at (word_bytes 4 s.expected_size) s.read_size_index bytes)

module _ (m : Memory) (s : Socket) (buf : List ℕ) (v : s.read_size_index < 4) where
  -- The length goes on behind these bytes.
  pub read_size_part :
      s.read_size_index + length buf < 4
      → read_size m s buf
        ≡ ok (
          packet_not_ready,
          record s {
            expected_size = stored s buf;
            read_size_index = s.read_size_index + length buf;
          },
          [],
        )
  unfolding read_size
  read_size_part h = ground (
    arith,
    take_all (length buf) buf,
    drop_all (length buf) buf,
    sub64-le 4 s.read_size_index,
    memcpy_fits (word_bytes 4 s.expected_size) s.read_size_index buf,
  )

  -- The length ends among these bytes, or with them.
  pub read_size_whole :
      4 ≤ s.read_size_index + length buf
      → read_size m s buf
        ≡ size_complete m
            (record s {
              expected_size = stored s (take (4 - s.read_size_index) buf);
              read_size_index = 4;
            })
            (drop (4 - s.read_size_index) buf)
  unfolding read_size
  read_size_whole h = ground (
    arith,
    length-take (4 - s.read_size_index) buf,
    sub64-le 4 s.read_size_index,
    memcpy_fits (word_bytes 4 s.expected_size) s.read_size_index (take (4 - s.read_size_index) buf),
  )

  -- The bytes of the length that are there.
  pub take-stored :
      (bytes : List ℕ)
      → s.read_size_index + length bytes ≤ 4
      → IsBytes bytes
      → take (s.read_size_index + length bytes) (word_bytes 4 (stored s bytes))
        ≡ take s.read_size_index (word_bytes 4 s.expected_size) ++ bytes
  take-stored bytes h b =
      ap (take (s.read_size_index + length bytes))
        (word_bytes-store s.expected_size s.read_size_index bytes h b)
      ∙ take-write_at (word_bytes 4 s.expected_size) s.read_size_index bytes _ h refl

  -- All four, read by `ntohl`.
  pub swap32-stored :
      (bytes : List ℕ)
      → s.read_size_index + length bytes ≡ 4
      → IsBytes bytes
      → swap32 (stored s bytes)
        ≡ bytes_word (reverse (take s.read_size_index (word_bytes 4 s.expected_size) ++ bytes))
  unfolding swap32
  swap32-stored bytes h b =
      ap (λ l. bytes_word (reverse l))
        (subst (λ n. take n (word_bytes 4 (stored s bytes)) ≡ header_bytes ++ bytes) h
          (take-stored bytes (omega arith) b))
    where
      header_bytes : List ℕ
      header_bytes = take s.read_size_index (word_bytes 4 s.expected_size)
