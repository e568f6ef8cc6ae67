-- ===== src/Client/Invariant.antt =====
-- What the rounds of the client keep: its sockets are sound, and its arrays keep their lengths.
use tema2_pc_client_server_t.Base.{
  ℕ, ◌+◌, ◌≡◌, refl, ◌∙◌, Bool-cases, Option-cases, List, [], ◌∷◌, ◌++◌, arith, inl, inr, length,
  drop, leb, ◌==◌, Holds, Holds-ok, Holds-if, Holds->>=, Holds-then,
}
use tema2_pc_client_server_t.Base.Int.{ℤ}
use tema2_pc_client_server_t.Base.Map.{int_key}
use tema2_pc_client_server_t.Base.Words.{memcpy, length-write_at}
use tema2_pc_client_server_t.Base.CString.{c_str, strncpy, strnlen}
use tema2_pc_client_server_t.Framing.{Memory, Code}
use tema2_pc_client_server_t.Multi.{MultiSocket}
use tema2_pc_client_server_t.Multi.Invariant.{IsSound}
use tema2_pc_client_server_t.App.{topic_len, generate_tcp_sub_packet, type_sub, type_unsub}
use tema2_pc_client_server_t.Client.{
  Parsed, max_command_size, read_sf, read_topic, read_line, parse_subscription_cmd, strtok, begins,
  subscribe_name, unsubscribe_name,
}
use tema2_pc_client_server_t.Client.Main.{Client}

-- Memory of a length.
abbrev pub Spans : ℕ → List ℕ → Type 0
Spans n bytes = length bytes ≡ n

memcpy-Spans :
    (mem : List ℕ) (off : ℕ) (bs : List ℕ) → Holds (Spans (length mem)) (memcpy mem off bs)
unfolding memcpy
memcpy-Spans mem off bs = elim (Bool-cases (leb (off + length bs) (length mem))) [
  | inl e ↦ rw e (Holds-ok (Spans (length mem)) _ (length-write_at mem off bs (ground arith)))
  | inr e ↦ rw e (λ x e. cc)
]

-- A copy into memory of that length.
pub copy-Spans :
    (n : ℕ) (mem : List ℕ) (off : ℕ) (bs : List ℕ)
    → Spans n mem
    → Holds (Spans n) (memcpy mem off bs)
copy-Spans n mem off bs h x e = memcpy-Spans mem off bs x e ∙ h

-- The topic that a command leaves.
abbrev pub TopicSpans : ℕ → Parsed → Type 0
TopicSpans n p = Spans n p.topic

read_sf-topic : (type : ℕ) (topic text : List ℕ) → (read_sf type topic text).topic ≡ topic
unfolding read_sf
read_sf-topic type topic text = elim (Option-cases (strtok text)) [
  | inl e ↦ rw (e, read_sf) refl
  | inr (x, e) ↦ rw (e, read_sf) refl
]

module _ (n : ℕ) (topic : List ℕ) (h : Spans n topic) where
  read_topic-Spans : (type : ℕ) (text : List ℕ) → Holds (TopicSpans n) (read_topic type topic text)
  unfolding read_topic
  read_topic-Spans type text = elim (Option-cases (strtok text)) [
    | inl e ↦ rw (e, read_topic) (Holds-ok (TopicSpans n) _ h)
    | inr ((p, rest), e) ↦
        rw (e, read_topic)
          (Holds->>= (TopicSpans n) (strncpy topic_len (p ++ 0 ∷ [])) _ (λ name.
            Holds-then (Spans n) (TopicSpans n) (memcpy topic 0 name) _
              (copy-Spans n topic 0 name h)
              (λ topic' t. Holds-ok (TopicSpans n) _ (elim (Bool-cases (type == type_unsub)) [
                | inl u ↦ rw u t
                | inr u ↦ rw (u, read_sf-topic type topic' rest) t
              ]))))
  ]

  read_line-Spans : (type : ℕ) (text : List ℕ) → Holds (TopicSpans n) (read_line type topic text)
  unfolding read_line
  read_line-Spans type text = elim (Option-cases (strtok text)) [
    | inl e ↦ rw (e, read_line) (λ x e. cc)
    | inr ((p, rest), e) ↦
        rw (e, read_line)
          (Holds-if (TopicSpans n) (begins subscribe_name p) _ _ (read_topic-Spans type_sub rest) (
            Holds-if (TopicSpans n) (begins unsubscribe_name p) _ _
              (read_topic-Spans type_unsub rest) (Holds-ok (TopicSpans n) _ h)))
  ]

  pub parse-Spans :
      (mem : Memory) (type : ℕ) (buf : List ℕ) (size : ℕ)
      → Holds (TopicSpans n) (parse_subscription_cmd mem type topic buf size)
  unfolding parse_subscription_cmd
  parse-Spans mem type buf size = Holds->>= (TopicSpans n) (strncpy size buf) _ (λ bytes.
      Holds->>= (TopicSpans n) (memcpy (mem.fresh max_command_size) 0 bytes) _
        (λ str. Holds->>= (TopicSpans n) (c_str str) _ (λ text. read_line-Spans type text)))

-- A packet in a buffer, with a size.
abbrev pub PacketSpans : ℕ → List ℕ × ℕ → Type 0
PacketSpans n (packet, size) = Spans n packet

pub generate-Spans :
    (n type : ℕ) (topic buf : List ℕ)
    → Spans n buf
    → Holds (PacketSpans n) (generate_tcp_sub_packet type topic buf)
unfolding generate_tcp_sub_packet
generate-Spans n type topic buf h = Holds->>= (PacketSpans n) (strncpy topic_len topic) _ (λ name.
    Holds-then (Spans n) (PacketSpans n) (memcpy buf 1 name) _ (copy-Spans n buf 1 name h)
      (λ named a.
        Holds-then (Spans n) (PacketSpans n) (memcpy named 0 (type ∷ [])) _
          (copy-Spans n named 0 (type ∷ []) a)
          (λ typed b.
            Holds->>= (PacketSpans n) (strnlen (drop 1 typed) topic_len) _
              (λ k. Holds-ok (PacketSpans n) (typed, 1 + k) b))))

-- What `MultiSocket::recv` leaves: sound sockets and a buffer of the same length.
abbrev pub ReceivesWell : ℕ → ℤ × Code × List ℕ × MultiSocket → Type 0
ReceivesWell n (ret, out, bytes, m) = IsSound m × Spans n bytes

-- What every state of the client satisfies: its sockets are sound, and the arrays `buffer` and
-- `topic` have the lengths that they are declared with.
abbrev pub IsWell : Client → Type 0
IsWell c = IsSound c.multi × Spans 2048 c.buffer × Spans 50 c.topic
