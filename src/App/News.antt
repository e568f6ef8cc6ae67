-- ===== src/App/News.antt =====
-- subscriber.cpp: `get_sendable_news`, which puts the address of the sender before a datagram, and
-- `get_news_topic`. `struct in_addr` is its four bytes in memory.
use tema2_pc_client_server_t.Base.{ℕ, ◌+◌, List, length, drop, Outcome, ◌>>=◌}
use tema2_pc_client_server_t.Base.Words.{memcpy, word_bytes, swap16}
use tema2_pc_client_server_t.Base.CString.{c_str}
use tema2_pc_client_server_t.Framing.{Memory}

-- `struct sockaddr_in`; `sin_port` is the word in network order, as the host reads it.
pub record SockAddr : Type 0 where
  pub sin_addr : List ℕ
  pub sin_port : ℕ

-- The bytes of the `shared_packet`; its `size` is their number.
unfoldable pub get_sendable_news : Memory → List ℕ → SockAddr → Outcome (List ℕ)
get_sendable_news m buf saddr = do
  let new_buf = m.fresh (length buf + 4 + 2)
  b1 ← memcpy new_buf 0 saddr.sin_addr
  b2 ← memcpy b1 4 (word_bytes 2 (swap16 saddr.sin_port))
  memcpy b2 6 buf

unfoldable pub get_news_topic : List ℕ → Outcome (List ℕ)
get_news_topic packet = c_str (drop 6 packet)
