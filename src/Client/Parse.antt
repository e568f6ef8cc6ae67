-- ===== src/Client/Parse.antt =====
-- What `parse_subscription_cmd` reads of a line, and what the server makes of it.
use tema2_pc_client_server_t.Base.{
  ℕ, ◌+◌, ◌-◌, ◌≤◌, ◌<◌, ◌≡◌, refl, ◌∙◌, false, List, [], ◌∷◌, ◌++◌, append_assoc, append-nil,
  arith, length, length-append, drop, drop_all, get_or, All, All-append, ◌⊎◌, inl, inr, Outcome, ok,
  fault, ◌>>=◌, >>=-eq-ok, ◌==◌, if◌then◌else◌,
}
use tema2_pc_client_server_t.Base.Int.{ℤ}
use tema2_pc_client_server_t.Base.Words.{memcpy, memcpy_fits, write_at_front}
use tema2_pc_client_server_t.Base.CString.{
  IsText, c_str_text, strncpy, strncpy_short, strncpy_full, nuls, nuls_pos, length-nuls,
}
use tema2_pc_client_server_t.Framing.{Memory}
use tema2_pc_client_server_t.App.{type_sub, type_sub_sf, type_unsub, generate_tcp_sub_packet}
use tema2_pc_client_server_t.Server.State.{Broker}
use tema2_pc_client_server_t.Server.Commands.{command, process_tcp_client_packet}
use tema2_pc_client_server_t.Server.Wire.{HoldsTopic, IsCommand, command_round_trip}
use tema2_pc_client_server_t.Client.{
  Parsed, subscribe_name, unsubscribe_name, is_delim, read_sf, read_topic, read_line,
  parse_subscription_cmd,
}
use tema2_pc_client_server_t.Client.Words.{IsWord, IsBlank, strtok_word, strtok_end, strtok_blank}

-- The line in the buffer is copied whole, and is the text of the copy.
pub parse-read_line :
    (mem : Memory) (type : ℕ) (topic text junk : List ℕ)
    → IsText text
    → length text < 256
    → parse_subscription_cmd mem type topic (text ++ 0 ∷ junk) 256 ≡ read_line type topic text
unfolding parse_subscription_cmd
parse-read_line mem type topic text junk t l =
    rw
      (
        strncpy_short 256 (256 - length text) text junk t (omega arith) (omega arith),
        memcpy_fits (mem.fresh 256) 0 (text ++ nuls (256 - length text)) fits,
        write_at_front (mem.fresh 256) (text ++ nuls (256 - length text)),
        nuls_pos (256 - length text) (omega arith),
        append_assoc text (0 ∷ nuls (256 - length text - 1))
            (drop (length (text ++ 0 ∷ nuls (256 - length text - 1))) (mem.fresh 256)),
        c_str_text text _ t,
      )
      refl
  where
    fits : 0 + length (text ++ nuls (256 - length text)) ≤ length (mem.fresh 256)
    fits = omega (
      arith,
      length-append text (nuls (256 - length text)),
      length-nuls (256 - length text),
      mem.length-fresh 256,
    )

-- The word is put in the array of the topic.
abbrev put_topic : List ℕ → List ℕ → Outcome (List ℕ)
put_topic topic t = strncpy 50 (t ++ 0 ∷ []) >>= memcpy topic 0

put_topic-HoldsTopic :
    (topic t : List ℕ)
    → length topic ≡ 50
    → IsText t
    → length t ≤ 50
    → (array : List ℕ) × (put_topic topic t ≡ ok array) × HoldsTopic array t
put_topic-HoldsTopic topic t k h l = elim (short (length t) l) [
  | inl less ↦ (
    t ++ 0 ∷ (nuls (50 - length t - 1) ++ drop 50 topic),
    rw
        (
          strncpy_short 50 (50 - length t) t [] h (omega arith) (omega arith),
          memcpy_fits topic 0 (t ++ nuls (50 - length t)) (omega (arith, size)),
          write_at_front topic (t ++ nuls (50 - length t)),
          size,
          nuls_pos (50 - length t) (omega arith),
          append_assoc t (0 ∷ nuls (50 - length t - 1)) (drop 50 topic),
        )
        refl,
    inl (less, nuls (50 - length t - 1) ++ drop 50 topic, refl),
  )
  | inr full ↦ (
    t,
    rw
        (
          strncpy_full 50 t (0 ∷ []) h full,
          memcpy_fits topic 0 t (omega arith),
          write_at_front topic t,
          full,
          drop_all 50 topic (omega arith),
          append-nil t,
        )
        refl,
    inr (full, refl),
  )
]
  where
    short : (n : ℕ) → n ≤ 50 → (n < 50) ⊎ (n ≡ 50)
    short n b = ground arith

    size : length (t ++ nuls (50 - length t)) ≡ 50
    size = omega (arith, length-append t (nuls (50 - length t)), length-nuls (50 - length t))

abbrev pub sf_type : List ℕ → ℕ
sf_type s = if get_or s 0 0 == b'1' then type_sub_sf else type_sub

-- A line of the user, the command that it gives and its topic.
pub data IsLine (text : List ℕ) (type : ℕ) (topic : List ℕ) : Type 0 where
  subscribes :
      (sf : List ℕ)
      → IsWord sf
      → text ≡ subscribe_name ++ 32 ∷ (topic ++ 32 ∷ sf)
      → type ≡ sf_type sf
      → IsLine text type topic
  unsubscribes : text ≡ unsubscribe_name ++ 32 ∷ topic → type ≡ type_unsub → IsLine text type topic

read_topic-subscribe :
    (topic array t sf : List ℕ)
    → IsWord t
    → IsWord sf
    → put_topic topic t ≡ ok array
    → read_topic type_sub topic (t ++ 32 ∷ sf)
      ≡ ok (record { status = 0; type = sf_type sf; topic = array })
unfolding read_topic read_sf
read_topic-subscribe topic array t sf w ws e =
    let (name, e1, e2) = >>=-eq-ok (strncpy 50 (t ++ 0 ∷ [])) (memcpy topic 0) e in
    rw (strtok_word t sf w, read_topic, e1, e2, read_sf, strtok_end sf ws) refl

read_topic-unsubscribe :
    (topic array t : List ℕ)
    → IsWord t
    → put_topic topic t ≡ ok array
    → read_topic type_unsub topic t ≡ ok (record { status = 0; type = type_unsub; topic = array })
unfolding read_topic
read_topic-unsubscribe topic array t w e =
    let (name, e1, e2) = >>=-eq-ok (strncpy 50 (t ++ 0 ∷ [])) (memcpy topic 0) e in
    rw (strtok_end t w, read_topic, e1, e2) refl

read_line-IsLine :
    (type0 type : ℕ) (topic array text t : List ℕ)
    → IsLine text type t
    → IsWord t
    → put_topic topic t ≡ ok array
    → read_line type0 topic text ≡ ok (record { status = 0; type = type; topic = array })
unfolding read_line
read_line-IsLine type0 type topic array text t (subscribes sf ws e f) w put =
    rw (e, f) (read_topic-subscribe topic array t sf w ws put)
read_line-IsLine type0 type topic array text t (unsubscribes e f) w put =
    rw (e, f) (read_topic-unsubscribe topic array t w put)

word-IsText : (w : List ℕ) → IsWord w → IsText w
word-IsText w (l, h) = go w h
  where
    go : (w : List ℕ) → All (λ b. (0 < b) × (is_delim b ≡ false)) w → IsText w
    go [] h = tt
    go (b ∷ w) h = (h.0.0, go w h.1)

spaced-IsText : (w rest : List ℕ) → IsText w → IsText rest → IsText (w ++ 32 ∷ rest)
spaced-IsText w rest h k = All-append (λ b. 0 < b) w (32 ∷ rest) h (omega arith, k)

pub line-IsText :
    (text : List ℕ) (type : ℕ) (t : List ℕ) → IsLine text type t → IsWord t → IsText text
line-IsText text type t (subscribes sf ws e f) w = rw e (
    spaced-IsText subscribe_name (t ++ 32 ∷ sf) (ground arith)
      (spaced-IsText t sf (word-IsText t w) (word-IsText sf ws)))
line-IsText text type t (unsubscribes e f) w =
    rw e (spaced-IsText unsubscribe_name t (ground arith) (word-IsText t w))

line-IsCommand : (text : List ℕ) (type : ℕ) (t : List ℕ) → IsLine text type t → IsCommand type
line-IsCommand text type t (subscribes sf ws e f) = ground (arith, f)
line-IsCommand text type t (unsubscribes e f) = inr (inr f)

-- A line "subscribe TOPIC SF" or "unsubscribe TOPIC" of less than 256 bytes, with a topic of at most
-- 50 bytes, is read as a command with that topic: TYPE_SUB_SF if SF begins with 1, else TYPE_SUB, or
-- TYPE_UNSUB; and the packet that the client then generates is read by the server as that command on
-- that topic, from whatever socket it comes.
pub line_round_trip :
    (mem : Memory) (fd : ℤ) (type0 type : ℕ) (topic text t junk buf : List ℕ) (b : Broker)
    → IsLine text type t
    → IsWord t
    → length t ≤ 50
    → length text < 256
    → length topic ≡ 50
    → 51 ≤ length buf
    → (c : Parsed) × (parse_subscription_cmd mem type0 topic (text ++ 0 ∷ junk) 256 ≡ ok c)
      × (c.status ≡ 0)
      × (c.type ≡ type)
      × (packet : List ℕ) × (generate_tcp_sub_packet c.type c.topic buf ≡ ok (packet, 1 + length t))
      × (process_tcp_client_packet mem fd packet (1 + length t) b ≡ command type fd (ok t) b)
line_round_trip mem fd type0 type topic text t junk buf b line w l short k size =
    let (array, put, holds) = put_topic-HoldsTopic topic t k (word-IsText t w) l in
    let (packet, made, ran) =
      command_round_trip mem fd type array t buf b (line-IsCommand text type t line)
        (word-IsText t w) holds size in
    (
      record { status = 0; type = type; topic = array },
      parse-read_line mem type0 topic text junk (line-IsText text type t line w) short
          ∙ read_line-IsLine type0 type topic array text t line w put,
      refl,
      refl,
      packet,
      made,
      ran,
    )

-- On a line of less than 256 bytes with no word, an empty one included, `strncmp` is called with
-- NULL.
pub parse-blank :
    (mem : Memory) (type : ℕ) (topic text junk : List ℕ)
    → IsBlank text
    → length text < 256
    → parse_subscription_cmd mem type topic (text ++ 0 ∷ junk) 256 ≡ fault
unfolding read_line
parse-blank mem type topic text junk h l =
    rw
      (
        parse-read_line mem type topic text junk (blank-IsText text h) l,
        strtok_blank text h,
        read_line,
      )
      refl
  where
    blank-IsText : (t : List ℕ) → IsBlank t → IsText t
    blank-IsText [] h = tt
    blank-IsText (b ∷ t) h = (ground (arith, h.0), blank-IsText t h.1)
