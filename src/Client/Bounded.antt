-- ===== src/Client/Bounded.antt =====
-- A line that the user types is handled within the memory of the client.
use tema2_pc_client_server_t.Base.{
  ℕ, zero, suc, ◌+◌, ◌≤◌, ◌<◌, ◌≡◌, refl, ◌∙◌, ap, Bool-cases, Option-cases, none, List, [], ◌∷◌,
  ◌++◌, arith, inl, inr, ◌⊎◌, length, take, drop, length-take, length-drop, Outcome, ok, die, ◌==◌,
  true,
}
use tema2_pc_client_server_t.Base.Int.{ℤ, pos, minus_one, is_neg}
use tema2_pc_client_server_t.Base.Map.{int_key, lookup, same_text}
use tema2_pc_client_server_t.Base.Words.{memcpy, memcpy_fits, write_at, length-write_at}
use tema2_pc_client_server_t.Base.CString.{IsText, nuls, length-nuls, c_str_text, strncpy, strnlen}
use tema2_pc_client_server_t.Multi
use tema2_pc_client_server_t.App.{generate_tcp_sub_packet, type_sub, type_unsub}
use tema2_pc_client_server_t.App.Display.{Doubles}
use tema2_pc_client_server_t.Client.{
  Parsed, parse_subscription_cmd, read_line, read_topic, strtok, skip_delims, is_delim, begins,
  subscribe_name, unsubscribe_name,
}
use tema2_pc_client_server_t.Client.Main.{
  Client, Goes, Turn, client_send, obey, on_typed, handle_fd,
}
use tema2_pc_client_server_t.Client.Words.{IsBlank}
use tema2_pc_client_server_t.Client.Parse.{parse-read_line}
use tema2_pc_client_server_t.Client.Buffer.{rest, type_line_lem, length-typed}
use tema2_pc_client_server_t.Client.Typed.{client_send_lem}
use tema2_pc_client_server_t.Client.Invariant.{Spans, TopicSpans, parse-Spans, IsWell}

-- A result of which something holds.
abbrev pub Gives {ℓ κ} : {A : Type ℓ} → (A → Type κ) → Outcome A → Type (ℓ ⊔ κ)
Gives {A = A} P m = (a : A) × (m ≡ ok a) × P a

-- Why a client may die of a command: the system's `send` fails, or its connection is gone.
abbrev pub CannotSend : Turn → Client → Type 0
CannotSend turn c = (is_neg turn.sent ≡ true) ⊎ (lookup c.sockfd_tcp c.multi.tcp_sockets ≡ none)

abbrev pub IsSafely : Turn → Client → Outcome Goes → Type 0
IsSafely turn c m = ((m ≡ die) × CannotSend turn c) ⊎ ((next : Goes) × (m ≡ ok next))

strncpy_ends : (n : ℕ) (p mem : List ℕ) → Gives (Spans n) (strncpy n (p ++ 0 ∷ mem))
unfolding strncpy
strncpy_ends zero p mem = ([], refl, refl)
strncpy_ends (suc n) [] mem = (nuls (suc n), refl, length-nuls (suc n))
strncpy_ends (suc n) (zero ∷ p) mem = (nuls (suc n), refl, length-nuls (suc n))
strncpy_ends (suc n) (suc b ∷ p) mem =
    let (r, e, l) = strncpy_ends n p mem in (suc b ∷ r, rw e refl, ap suc l)

strncpy_long : (n : ℕ) (src : List ℕ) → n ≤ length src → Gives (Spans n) (strncpy n src)
unfolding strncpy
strncpy_long zero src h = ([], refl, refl)
strncpy_long (suc n) [] h = absurd (omega (arith, h))
strncpy_long (suc n) (zero ∷ src) h = (nuls (suc n), refl, length-nuls (suc n))
strncpy_long (suc n) (suc b ∷ src) h =
    let (r, e, l) = strncpy_long n src (omega (arith, h)) in (suc b ∷ r, rw e refl, ap suc l)

strnlen_long : (mem : List ℕ) (n : ℕ) → n ≤ length mem → Gives (λ k. k ≤ n) (strnlen mem n)
unfolding strnlen
strnlen_long mem zero h = (0, refl, omega arith)
strnlen_long [] (suc n) h = absurd (omega (arith, h))
strnlen_long (zero ∷ mem) (suc n) h = (0, refl, omega arith)
strnlen_long (suc b ∷ mem) (suc n) h =
    let (k, e, l) = strnlen_long mem n (omega (arith, h)) in (suc k, rw e refl, omega (arith, l))

copy_fits :
    (n : ℕ) (mem : List ℕ) (off : ℕ) (bs : List ℕ)
    → Spans n mem
    → off + length bs ≤ n
    → Gives (Spans n) (memcpy mem off bs)
copy_fits n mem off bs s h =
    let fits : off + length bs ≤ length mem = rw s h in
    (write_at mem off bs, memcpy_fits mem off bs fits, length-write_at mem off bs fits ∙ s)

-- The packet of a command on a topic of 50 bytes, of which not all need be text.
generate_fits :
    (type : ℕ) (topic buf : List ℕ)
    → Spans 50 topic
    → Spans 2048 buf
    → Gives (λ x. x.1 ≤ 51) (generate_tcp_sub_packet type topic buf)
unfolding generate_tcp_sub_packet
generate_fits type topic buf t b =
    let (name, e1, l1) = strncpy_long 50 topic (omega (arith, t)) in
    let (named, e2, l2) = copy_fits 2048 buf 1 name b (omega (arith, l1)) in
    let (typed, e3, l3) = copy_fits 2048 named 0 (type ∷ []) l2 (omega arith) in
    let (k, e4, l4) = strnlen_long (drop 1 typed) 50 (omega (arith, length-drop 1 typed, l3)) in
    ((typed, 1 + k), rw (e1, e2, e3, e4) refl, omega (arith, l4))

read_topic_fits :
    (type : ℕ) (topic text : List ℕ)
    → Spans 50 topic
    → Gives (λ p. Unit {0}) (read_topic type topic text)
unfolding read_topic
read_topic_fits type topic text h = elim (Option-cases (strtok text)) [
  | inl e ↦ rw (e, read_topic) (_, refl, tt)
  | inr ((p, later), e) ↦
      let (name, e1, l1) = strncpy_ends 50 p [] in
      let (topic', e2, _) = copy_fits 50 topic 0 name h (omega (arith, l1)) in
      rw (e, read_topic, e1, e2) (_, refl, tt)
]

strtok-none : (t : List ℕ) → strtok t ≡ none → IsBlank t
unfolding strtok skip_delims
strtok-none [] h = tt
strtok-none (b ∷ t) h = elim (Bool-cases (is_delim b)) [
  | inl e ↦ (e, strtok-none t (rw e at h))
  | inr e ↦ let clash = rw e at h in cc
]

read_line_fits :
    (type : ℕ) (topic text : List ℕ)
    → Spans 50 topic
    → ¬ IsBlank text
    → Gives (λ p. Unit {0}) (read_line type topic text)
unfolding read_line
read_line_fits type topic text h full = elim (Option-cases (strtok text)) [
  | inl e ↦ absurd (full (strtok-none text e))
  | inr ((p, later), e) ↦ elim (Bool-cases (begins subscribe_name p)) [
    | inl s ↦ rw (e, read_line, s) (read_topic_fits type_sub topic later h)
    | inr s ↦ elim (Bool-cases (begins unsubscribe_name p)) [
      | inl u ↦ rw (e, read_line, s, u) (read_topic_fits type_unsub topic later h)
      | inr u ↦ rw (e, read_line, s, u) (_, refl, tt)
    ]
  ]
]

send_fits :
    (sent : ℤ) (buf : List ℕ) (c : Client)
    → length buf ≤ 4092
    → Gives
        (λ x. (x.0 ≡ sent) ⊎ (lookup c.sockfd_tcp c.multi.tcp_sockets ≡ none))
        (client_send sent buf c)
unfolding client_send Multi.send
send_fits sent buf c l = elim (Option-cases (lookup c.sockfd_tcp c.multi.tcp_sockets)) [
  | inl e ↦ ((minus_one, c), ground (arith, e), inr e)
  | inr (s, e) ↦ (_, client_send_lem sent buf c s l e, inl refl)
]

obey-IsSafely :
    (turn : Turn) (sockfd : ℤ) (p : Parsed) (c : Client)
    → Spans 2048 c.buffer
    → TopicSpans 50 p
    → IsSafely turn c (obey turn sockfd p c)
unfolding obey
obey-IsSafely turn sockfd p c b t = elim (Bool-cases (p.status == 0)) [
  | inr z ↦ rw z (inr (_, refl))
  | inl z ↦
      let ((packet, n), e1, l1) = generate_fits p.type p.topic c.buffer t b in
      let c1 : Client = record c { type = p.type; topic = p.topic; buffer = packet } in
      let ((k, c2), e2, why) =
        send_fits turn.sent (take n packet) c1 (omega (arith, length-take n packet, l1)) in
      elim (Bool-cases (is_neg k)) [
        | inl y ↦
            rw (z, e1, e2, y)
              (inl (refl, elim why [ inl same ↦ inl (rw (← same) y) | inr gone ↦ inr gone ]))
        | inr y ↦ rw (z, e1, e2, y) (inr (_, refl))
      ]
]

-- What comes behind the line in the buffer.
typed-IsSafely :
    (turn : Turn) (c : Client) (text : List ℕ)
    → IsWell c
    → turn.typed ≡ text ++ 10 ∷ []
    → IsText text
    → ¬ IsBlank text
    → length text < 254
    → IsSafely turn c (on_typed turn (pos 0) c)
unfolding on_typed
typed-IsSafely turn c text v typed t full short =
    let size : 256 ≤ length c.buffer = omega (arith, v.1) in
    let junk = 0 ∷ rest text c.buffer t short size in
    let buffer = text ++ 0 ∷ junk in
    let line = type_line_lem text c.buffer t short size in
    let long : Spans 2048 buffer = length-typed text c.buffer t short size ∙ v.1 in
    let (p, read, _) = read_line_fits c.type c.topic text v.2 full in
    let parsed : parse_subscription_cmd turn.memory c.type c.topic buffer 256 ≡ ok p =
      parse-read_line turn.memory c.type c.topic text junk t (omega (arith, short)) ∙ read in
    let topic = parse-Spans 50 c.topic v.2 turn.memory c.type buffer 256 p parsed in
    elim (Bool-cases (length text == 0)) [
      | inl z ↦ rw (typed, line, c_str_text text junk t, z) (inr (_, refl))
      | inr z ↦ elim (Bool-cases (same_text (take 4 text) (b'e' ∷ b'x' ∷ b'i' ∷ b't' ∷ []))) [
        | inl x ↦ rw (typed, line, c_str_text text junk t, z, x) (inr (_, refl))
        | inr x ↦
            rw (typed, line, c_str_text text junk t, z, x, parsed)
              (obey-IsSafely turn (pos 0) p (record c { buffer = buffer }) long topic)
      ]
    ]

-- A line of the user that is not blank, of at most 253 bytes, of whatever words: if the arrays of the
-- client have their lengths, the client handles it and goes on or ends, or dies since the system's
-- `send` fails or there is no connection; it never accesses memory out of bounds, whatever the length
-- of the topic that is typed.
pub handle_fd-IsSafely :
    (d : Doubles) (turn : Turn) (c : Client) (text : List ℕ)
    → IsWell c
    → turn.typed ≡ text ++ 10 ∷ []
    → IsText text
    → ¬ IsBlank text
    → length text < 254
    → IsSafely turn c (handle_fd d turn (pos 0) c)
unfolding handle_fd
handle_fd-IsSafely d turn c text v typed t full short =
    typed-IsSafely turn c text v typed t full short
