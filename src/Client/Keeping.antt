-- ===== src/Client/Keeping.antt =====
-- The rounds of the client, one by one: each keeps what every state of it satisfies.
use tema2_pc_client_server_t.Base.{
  ℕ, ◌-◌, refl, Bool-cases, Option, Option-cases, none, some, List, [], ◌∷◌, ◌++◌, inl, inr, length,
  take, ok, ◌==◌, if◌then◌else◌, All, Holds, Holds-ok, Holds-if, Holds->>=, Holds-then,
}
use tema2_pc_client_server_t.Base.Int.{ℤ, pos, minus_one, eqb, is_neg}
use tema2_pc_client_server_t.Base.Map.{int_key, lookup}
use tema2_pc_client_server_t.Base.Words.{memcpy}
use tema2_pc_client_server_t.Base.CString.{c_str, nuls}
use tema2_pc_client_server_t.Framing
use tema2_pc_client_server_t.Framing.{Memory, Code, Packet, Socket}
use tema2_pc_client_server_t.Multi
use tema2_pc_client_server_t.Multi.{
  MultiSocket, new_multi, connect, get_next_fd, received, has_closed, select, add_fd,
}
use tema2_pc_client_server_t.Multi.Invariant.{IsSound}
use tema2_pc_client_server_t.Multi.Reach.{Step-IsSound, nexts, receives}
use tema2_pc_client_server_t.Multi.Waiting.{IsAnswer, select-IsSound}
use tema2_pc_client_server_t.App.{generate_tcp_sub_packet}
use tema2_pc_client_server_t.App.Display.{Doubles, parse_subscriber_news}
use tema2_pc_client_server_t.Server.Handler.{to_size}
use tema2_pc_client_server_t.Client.{Parsed, max_command_size, parse_subscription_cmd}
use tema2_pc_client_server_t.Client.Main.{
  Client, Turn, Goes, sends, log_event, shows, shown, client_send, type_line, next_descriptor, obey,
  on_typed, on_news, handle_fd, await,
}
use tema2_pc_client_server_t.Client.Invariant.{
  Spans, copy-Spans, TopicSpans, parse-Spans, PacketSpans, generate-Spans, ReceivesWell, IsWell,
}

write_front-Spans :
    (n : ℕ) (q : List Packet) (buf : List ℕ)
    → Spans n buf
    → Holds (λ r. Spans n r.1) (Framing.write_front q buf)
unfolding Framing.write_front
write_front-Spans n [] buf h = Holds-ok (λ r. Spans n r.1) _ h
write_front-Spans n (p ∷ q) buf h =
    Holds-then (Spans n) (λ r. Spans n r.1) (memcpy buf 0 (take p.size p.memory)) _
      (copy-Spans n buf 0 (take p.size p.memory) h) (λ bytes b. Holds-ok (λ r. Spans n r.1) _ b)

recv-Spans :
    (n : ℕ) (buf : List ℕ) (m : MultiSocket)
    → Spans n buf
    → Holds (λ r. Spans n r.2) (Multi.recv buf m)
unfolding Multi.recv Framing.write_packet
recv-Spans n buf m h = elim (Option-cases (lookup m.curr_sockfd m.tcp_sockets)) [
  | inl e ↦ rw (e, Multi.recv) (Holds-ok (λ r. Spans n r.2) _ h)
  | inr (s, e) ↦ elim (Bool-cases (Framing.packet_ready s)) [
    | inr idle ↦ rw (e, Multi.recv, idle) (Holds-ok (λ r. Spans n r.2) _ h)
    | inl full ↦
        rw (e, Multi.recv, full)
          (Holds-then (λ r. Spans n r.1) (λ r. Spans n r.2) (Framing.write_packet s buf) _
            (Holds-then (λ r. Spans n r.1) (λ r. Spans n r.1)
              (Framing.write_front s.packet_queue buf) _ (write_front-Spans n s.packet_queue buf h)
              (λ (k, b, ps) l.
                Holds-ok (λ r. Spans n r.1) (k, b, record s { packet_queue = ps }) l))
            (λ (k, b, t) l. Holds-ok (λ r. Spans n r.2) _ l))
  ]
]

pub recv-ReceivesWell :
    (n : ℕ) (buf : List ℕ) (m : MultiSocket)
    → IsSound m
    → Spans n buf
    → Holds (ReceivesWell n) (Multi.recv buf m)
recv-ReceivesWell n buf m v h (ret, out, bytes, m') e =
    (Step-IsSound (receives buf ret out bytes e) v, recv-Spans n buf m h (ret, out, bytes, m') e)

-- The client that goes on, and the one behind a call of `send`.
abbrev pub GoesWell : Goes → Type 0
GoesWell (next, c) = IsWell c

abbrev pub SendsWell : ℤ × Client → Type 0
SendsWell (n, c) = IsWell c

next_descriptor-GoesWell : (c : Client) → IsWell c → GoesWell (next_descriptor c)
unfolding next_descriptor
next_descriptor-GoesWell c v = (Step-IsSound (nexts refl) v.0, v.1, v.2)

pub client_send-SendsWell :
    (sent : ℤ) (buf : List ℕ) (c : Client) → IsWell c → Holds SendsWell (client_send sent buf c)
unfolding client_send
client_send-SendsWell sent buf c v =
    Holds->>= SendsWell (Multi.send c.sockfd_tcp buf c.multi) _ frames
  where
    frames :
        (f : Option (List ℕ))
        → Holds SendsWell (elim f [
          | none ↦ ok (minus_one, c)
          | some bytes ↦ ok (sent, log_event (sends c.sockfd_tcp bytes) c)
        ])
    frames none = Holds-ok SendsWell (minus_one, c) v
    frames (some bytes) = Holds-ok SendsWell _ v

type_line-Spans :
    (typed buffer : List ℕ) (n : ℕ) → Spans n buffer → Holds (Spans n) (type_line typed buffer)
unfolding type_line
type_line-Spans typed buffer n h =
    Holds-then (Spans n) (Spans n) (memcpy buffer 0 (nuls max_command_size)) _
      (copy-Spans n buffer 0 (nuls max_command_size) h)
      (λ cleared a.
        Holds-then (Spans n) (Spans n)
          (memcpy cleared 0 (if length typed == 0 then [] else typed ++ 0 ∷ [])) _
          (copy-Spans n cleared 0 _ a)
          (λ read b. Holds->>= (Spans n) (c_str read) _ (λ text.
            Holds-if (Spans n) (length text == 0) _ _ (λ x e. cc)
              (copy-Spans n read (length text - 1) (0 ∷ []) b))))

obey-GoesWell :
    (turn : Turn) (sockfd : ℤ) (p : Parsed) (c : Client)
    → IsWell c
    → TopicSpans 50 p
    → Holds GoesWell (obey turn sockfd p c)
unfolding obey
obey-GoesWell turn sockfd p c v t =
    Holds-if GoesWell (p.status == 0) _ _
      (Holds-then (PacketSpans 2048) GoesWell (generate_tcp_sub_packet p.type p.topic c.buffer) _
        (generate-Spans 2048 p.type p.topic c.buffer v.1)
        (λ (packet, size) b.
          let c1 : Client = record c { type = p.type; topic = p.topic; buffer = packet } in
          Holds-then SendsWell GoesWell (client_send turn.sent (take size packet) c1) _
            (client_send-SendsWell turn.sent (take size packet) c1 ((v.0, b, t)))
            (λ (n, c2) w.
              Holds-if GoesWell (is_neg n) _ _ (λ x e. cc)
                (Holds-ok GoesWell _
                  (next_descriptor-GoesWell (record c2 { log = c2.log ++ shown p.type }) w)))))
      (Holds-ok GoesWell _ ((v.0, v.1, t)))

on_typed-GoesWell :
    (turn : Turn) (sockfd : ℤ) (c : Client) → IsWell c → Holds GoesWell (on_typed turn sockfd c)
unfolding on_typed
on_typed-GoesWell turn sockfd c v =
    Holds-then (Spans 2048) GoesWell (type_line turn.typed c.buffer) _
      (type_line-Spans turn.typed c.buffer 2048 v.1)
      (λ buffer b.
        let w : IsWell (record c { buffer = buffer }) = (v.0, b, v.2) in
        Holds->>= GoesWell (c_str buffer) _ (λ text.
          Holds-if GoesWell (length text == 0) _ _ (Holds-ok GoesWell _ w) (
            Holds-if GoesWell _ _ _ (Holds-ok GoesWell _ w) (
              Holds-then (TopicSpans 50) GoesWell
                (parse_subscription_cmd turn.memory c.type c.topic buffer max_command_size) _
                (parse-Spans 50 c.topic v.2 turn.memory c.type buffer max_command_size)
                (λ p t. obey-GoesWell turn sockfd p (record c { buffer = buffer }) w t)))))

on_news-GoesWell : (d : Doubles) (c : Client) → IsWell c → Holds GoesWell (on_news d c)
unfolding on_news
on_news-GoesWell d c v =
    Holds-then (ReceivesWell 2048) GoesWell (Multi.recv c.buffer c.multi) _
      (recv-ReceivesWell 2048 c.buffer c.multi v.0 v.1)
      (λ (n, out, buffer, m) (sound, b).
        Holds->>= GoesWell (parse_subscriber_news d buffer (to_size n) c.news) _ (λ news.
          Holds-ok GoesWell _ (
            next_descriptor-GoesWell
              (log_event (shows news) (record c { buffer = buffer; multi = m; news = news }))
              ((sound, b, v.2)))))

pub handle_fd-GoesWell :
    (d : Doubles) (turn : Turn) (sockfd : ℤ) (c : Client)
    → IsWell c
    → Holds GoesWell (handle_fd d turn sockfd c)
unfolding handle_fd
handle_fd-GoesWell d turn sockfd c v =
    Holds-if GoesWell (eqb sockfd (pos 0)) _ _ (on_typed-GoesWell turn sockfd c v) (
      Holds-if GoesWell (has_closed c.multi) _ _ (Holds-ok GoesWell (none, c) v)
        (on_news-GoesWell d c v))

pub await-SendsWell :
    (turn : Turn) (c : Client)
    → All IsAnswer turn.answers
    → IsWell c
    → Holds SendsWell (await turn c)
unfolding await
await-SendsWell turn c bytes v =
    Holds-then IsSound SendsWell (select turn.memory turn.answers c.multi) _
      (select-IsSound turn.memory turn.answers c.multi bytes v.0)
      (λ m sound. Holds-ok SendsWell _ ((Step-IsSound (nexts refl) sound, v.1, v.2)))
