-- ===== src/Client/Shows.antt =====
-- What the client does with a packet of news.
use tema2_pc_client_server_t.Base.{
  ℕ, ◌≤◌, ◌≡◌, refl, sym, ◌∙◌, ap, false, some, List, [], ◌∷◌, ◌++◌, arith, inl, inr, length, drop,
  take-append-drop, ok,
}
use tema2_pc_client_server_t.Base.Int.{ℤ, pos, eqb}
use tema2_pc_client_server_t.Base.Map.{int_key, lookup, insert}
use tema2_pc_client_server_t.Framing
use tema2_pc_client_server_t.Framing.{Memory}
use tema2_pc_client_server_t.Framing.Valid.{view}
use tema2_pc_client_server_t.Multi.{MultiSocket, get_next_fd, has_closed}
use tema2_pc_client_server_t.Multi.Invariant.{IsSound}
use tema2_pc_client_server_t.Multi.Next.{recv-packet}
use tema2_pc_client_server_t.App.News.{SockAddr, get_sendable_news}
use tema2_pc_client_server_t.App.Display.{Doubles, parse_subscriber_news}
use tema2_pc_client_server_t.App.Values.{Value, encoded, Fits, shown_as, parse-shown_as}
use tema2_pc_client_server_t.Client.Main.{
  Client, Turn, shows, log_event, next_descriptor, on_news, handle_fd,
}

-- A value that a publisher sends in a datagram, with a topic of 50 bytes, to the server: when a
-- client has the packet that the server makes of it as the oldest one of its current socket, in a
-- buffer that is large enough, it shows the sender, the topic and the value, takes the packet out
-- of the socket, and goes on with the descriptor that `get_next_fd` answers behind that; nothing else
-- of its sockets changes.
pub handle_fd-shows :
    (d : Doubles) (turn : Turn) (fd : ℤ) (c : Client) (m : Memory) (saddr : SockAddr)
    (topic : List ℕ) (v : Value) (packet : List ℕ) (ps : List (List ℕ)) (s : Framing.Socket)
    → length saddr.sin_addr ≡ 4
    → length topic ≡ 50
    → Fits v
    → get_sendable_news m (topic ++ encoded v) saddr ≡ ok packet
    → eqb fd (pos 0) ≡ false
    → has_closed c.multi ≡ false
    → IsSound c.multi
    → lookup c.multi.curr_sockfd c.multi.tcp_sockets ≡ some s
    → (view s).packets ≡ packet ∷ ps
    → length packet ≤ length c.buffer
    → (next : ℤ) × (c' : Client) × (m1 : MultiSocket) × (t : Framing.Socket) × (handle_fd d turn fd
          c
        ≡ ok (some next, c'))
      × (c'.log ≡ c.log ++ shows (shown_as d saddr topic v c.news) ∷ [])
      × ((next, c'.multi) ≡ get_next_fd m1)
      × (m1 ≡ record c.multi { tcp_sockets = insert c.multi.curr_sockfd t c.multi.tcp_sockets })
      × (view t ≡ record { pending = (view s).pending; packets = ps })
unfolding handle_fd on_news next_descriptor
handle_fd-shows d turn fd c m saddr topic v packet ps s four fifty h made keyboard live sound found
      q fits =
    elim (recv-packet c.multi c.buffer packet ps s sound found q) [
      | inl (l, ran) ↦ absurd (omega (arith, l))
      | inr (bytes, multi, t, ran, front, _, there, changed, left) ↦
          let tail = drop (length packet) bytes in
          let (p, made', parsed) = parse-shown_as d m saddr topic v c.news tail four fifty h in
          let same : p ≡ packet = let both : ok p ≡ ok packet = sym made' ∙ made in cc in
          let whole : p ++ tail ≡ bytes =
            rw same (ap (λ x. x ++ tail) (sym front) ∙ take-append-drop (length packet) bytes) in
          let news = shown_as d saddr topic v c.news in
          let shown : parse_subscriber_news d bytes (length packet) c.news
              ≡ ok (shown_as d saddr topic v c.news) =
            ap (λ x. parse_subscriber_news d x (length packet) c.news) (sym whole)
            ∙ ap (λ x. parse_subscriber_news d (p ++ tail) (length x) c.news) (sym same)
            ∙ parsed in
          (
            (get_next_fd multi).0,
            (next_descriptor (
                log_event (shows news)
                  (record c { buffer = bytes; multi = multi; news = news }))).1,
            multi,
            t,
            rw (keyboard, live, ran, shown) refl,
            refl,
            refl,
            changed,
            left,
          )
    ]
