-- ===== src/App/Topics.antt =====
-- News packets: their layout, and the topic that the server reads out of them.
use tema2_pc_client_server_t.Base.{
  ℕ, zero, suc, ◌+◌, ◌<◌, ◌≡◌, List, [], ◌∷◌, ◌++◌, append-nil, append_assoc, arith, length,
  length-append, drop, length-drop, drop_all, drop-append, ok, ◌>>=◌, >>=-eq-ok,
}
use tema2_pc_client_server_t.Base.Words.{
  memcpy_fits, write_at_front, write_at_next, word_bytes, swap16,
}
use tema2_pc_client_server_t.Base.CString.{c_str, c_str_text, IsText}
use tema2_pc_client_server_t.Framing.{Memory}
use tema2_pc_client_server_t.App.News.{SockAddr, get_sendable_news, get_news_topic}

-- The packet of a datagram: four bytes of address, the port in host order, lowest byte first, and
-- the datagram. It fills the memory that is allocated for it exactly.
pub get_sendable_news_lem :
    (m : Memory) (buf : List ℕ) (saddr : SockAddr)
    → length saddr.sin_addr ≡ 4
    → get_sendable_news m buf saddr
      ≡ ok (saddr.sin_addr ++ (word_bytes 2 (swap16 saddr.sin_port) ++ buf))
unfolding get_sendable_news
get_sendable_news_lem m buf saddr h =
    rw (memcpy_fits fresh 0 addr (omega (arith, room)), write_at_front fresh addr)
      (rw
        (
          memcpy_fits (addr ++ behind) 4 port (omega (arith, left, length-append addr behind)),
          write_at_next 4 addr behind port h,
        )
        (rw
          (
            ← append_assoc addr port (drop 2 behind),
            memcpy_fits ((addr ++ port) ++ drop 2 behind) 6 buf (
                omega (
                  arith,
                  left,
                  length-append (addr ++ port) (drop 2 behind),
                  length-append addr port,
                  length-drop 2 behind,
                )),
            write_at_next 6 (addr ++ port) (drop 2 behind) buf
                (omega (arith, length-append addr port)),
          )
          (ground (
            arith,
            left,
            append_assoc addr port buf,
            drop_all (length buf) (drop 2 behind),
            length-drop 2 behind,
            append-nil buf,
            append_assoc addr port (buf ++ drop (length buf) (drop 2 behind)),
          ))))
  where
    addr : List ℕ
    addr = saddr.sin_addr

    port : List ℕ
    port = word_bytes 2 (swap16 saddr.sin_port)

    fresh : List ℕ
    fresh = m.fresh (length buf + 4 + 2)

    room : length fresh ≡ length buf + 4 + 2
    room = m.length-fresh (length buf + 4 + 2)

    behind : List ℕ
    behind = drop (length addr) fresh

    left : length behind ≡ length buf + 2
    left = omega (arith, room, length-drop (length addr) fresh)

drop_address :
    (addr buf : List ℕ) (port : ℕ)
    → length addr ≡ 4
    → drop 6 (addr ++ (word_bytes 2 port ++ buf)) ≡ buf
drop_address addr buf port h = rw (← append_assoc addr (word_bytes 2 port) buf) (
    drop-append 6 (addr ++ word_bytes 2 port) buf
      (omega (arith, length-append addr (word_bytes 2 port))))

-- A datagram whose topic has a NUL behind it is news on that topic.
get_news_topic_lem :
    (m : Memory) (topic rest : List ℕ) (saddr : SockAddr)
    → length saddr.sin_addr ≡ 4
    → IsText topic
    → (get_sendable_news m (topic ++ 0 ∷ rest) saddr >>= get_news_topic) ≡ ok topic
unfolding get_news_topic
get_news_topic_lem m topic rest saddr h t =
    rw (get_sendable_news_lem m (topic ++ 0 ∷ rest) saddr h) (
      rw (drop_address saddr.sin_addr (topic ++ 0 ∷ rest) (swap16 saddr.sin_port) h)
        (c_str_text topic rest t))

c_str-longer :
    (t : List ℕ) (x : ℕ) (mem u : List ℕ)
    → IsText t
    → 0 < x
    → c_str (t ++ x ∷ mem) ≡ ok u
    → length t < length u
unfolding c_str
c_str-longer [] zero mem u h p e = elim p [ ]
c_str-longer [] (suc x) mem u h p e =
    let (v, ev, e') = >>=-eq-ok (c_str mem) (λ v. ok (suc x ∷ v)) e in ground (arith, e')
c_str-longer (zero ∷ t) x mem u h p e = absurd (omega (arith, h.0))
c_str-longer (suc b ∷ t) x mem u h p e =
    let (v, ev, e') = >>=-eq-ok (c_str (t ++ x ∷ mem)) (λ v. ok (suc b ∷ v)) e in
    ground (arith, e', c_str-longer t x mem v h.1 p ev)

-- A topic that fills its 50 bytes is not read as itself, unless the data type behind it is INT:
-- with any other data type, what is read, if it ends within the packet at all, is longer than 50
-- bytes.
pub get_news_topic_full :
    (m : Memory) (topic rest read : List ℕ) (data_type : ℕ) (saddr : SockAddr)
    → length saddr.sin_addr ≡ 4
    → IsText topic
    → length topic ≡ 50
    → 0 < data_type
    → (get_sendable_news m (topic ++ data_type ∷ rest) saddr >>= get_news_topic) ≡ ok read
    → 50 < length read
unfolding get_news_topic
get_news_topic_full m topic rest read data_type saddr h t l p e =
    let found : c_str (topic ++ data_type ∷ rest) ≡ ok read = ground (
      arith,
      get_sendable_news_lem m (topic ++ data_type ∷ rest) saddr h,
      drop_address saddr.sin_addr (topic ++ data_type ∷ rest) (swap16 saddr.sin_port) h,
    ) in
    omega (arith, c_str-longer topic data_type rest read t p found)
