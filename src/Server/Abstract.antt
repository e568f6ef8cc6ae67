-- ===== src/Server/Abstract.antt =====
-- What the server's maps promise, without their representation: a broker as functions, and its
-- requests on them.
use tema2_pc_client_server_t.Base.{
  ◌==◌, ◌++◌, ℕ, Option, none, some, List, [], ◌∷◌, ◌&&◌, Outcome, ok, ◌>>=◌, if◌then◌else◌,
}
use tema2_pc_client_server_t.Base.Int.{ℤ, eqb}
use tema2_pc_client_server_t.Base.Map.{text_key, int_key, same_text, lookup}
use tema2_pc_client_server_t.App.{type_auth, type_auth_duplicate, type_not_auth}
use tema2_pc_client_server_t.Server.State.{
  connected, disconnected, Subscriber, Broker, World, SendAnswer,
}
use tema2_pc_client_server_t.Server.Commands.{authenticate, command}
use tema2_pc_client_server_t.Server.Delivery.{send_news_to_subscribers}
use tema2_pc_client_server_t.Server.Handler.{forget_socket}
use tema2_pc_client_server_t.Server.Auth.{queue_of}
use tema2_pc_client_server_t.Server.Subscribing.{sf_of, asked}

-- Who is connected and by which socket, what waits for whom, who is subscribed to what under which
-- `sf`, and who has authenticated on a socket.
pub record Abstract : Type 0 where
  pub socket : List ℕ → Option ℤ
  pub queue : List ℕ → List (List ℕ)
  pub sf : List ℕ → List ℕ → Option ℕ
  pub owner : ℤ → Option (List ℕ)

unfoldable pub socket_of : Option Subscriber → Option ℤ
socket_of none = none
socket_of (some s) = elim s.state [ connected ↦ some s.sockfd | disconnected ↦ none ]

unfoldable pub view : Broker → Abstract
view b = record {
  socket = λ id. socket_of (lookup id b.clients);
  queue = λ id. queue_of (lookup id b.clients);
  sf = λ topic id. sf_of topic id b;
  owner = λ fd. lookup fd b.ids_map;
}

-- What a client may ask for on its socket, and that the socket closes.
pub data Request : Type 0 where
  logs_in : ℤ → List ℕ → Request
  asks : ℕ → ℤ → List ℕ → Request
  leaves : ℤ → Request

-- What the server does, and the type that it answers; it answers nothing to a close.
unfoldable pub serve_one : Request → Broker → Outcome (Option ℕ × Broker)
serve_one (logs_in fd id) b = let (type, b') = authenticate fd id b in ok (some type, b')
serve_one (asks type fd topic) b = do
  (reply, b') ← command type fd (ok topic) b
  ok (some reply, b')
serve_one (leaves fd) b = ok (none, forget_socket fd b)

-- The id that a closing socket disconnects: the empty one, if nobody has authenticated on it.
abbrev pub left_by : Option (List ℕ) → List ℕ
left_by none = []
left_by (some id) = id

-- The promises: for a login, by the socket that has the id; for a command, by the id on its socket.
abbrev pub logged : ℤ → List ℕ → Abstract → Option ℤ → Option ℕ × Abstract
logged fd id a (some other) = (some type_auth_duplicate, a)
logged fd id a none = (
  some type_auth,
  record a {
    socket = λ j. if same_text id j then some fd else a.socket j;
    owner = λ x. if eqb fd x then some id else a.owner x;
  },
)

abbrev pub obeyed : ℕ → List ℕ → Abstract → Option (List ℕ) → Option ℕ × Abstract
obeyed type topic a none = (some type_not_auth, a)
obeyed type topic a (some id) = (
  some type,
  record a { sf = λ t j. if same_text topic t && same_text id j then asked type else a.sf t j },
)

unfoldable pub promise : Request → Abstract → Option ℕ × Abstract
promise (logs_in fd id) a = logged fd id a (a.socket id)
promise (asks type fd topic) a = obeyed type topic a (a.owner fd)
promise (leaves fd) a = (
  none,
  record a {
    socket = λ j. if same_text (left_by (a.owner fd)) j then none else a.socket j;
    owner = λ x. if eqb fd x then none else a.owner x;
  },
)

-- What happens to a server: a request, or a packet of news with its topic.
pub data Happening : Type 0 where
  asked_for : Request → Happening
  published : List ℕ → List ℕ → Happening

unfoldable pub happen : SendAnswer → Happening → World → Outcome (Option ℕ × World)
happen answer (asked_for r) w = do
  (reply, b) ← serve_one r w.broker
  ok (reply, record w { broker = b })
happen answer (published packet topic) w = do
  w' ← send_news_to_subscribers answer packet w
  ok (none, w')

unfoldable pub happen_all : SendAnswer → List Happening → World → Outcome (List (Option ℕ) × World)
happen_all answer [] w = ok ([], w)
happen_all answer (h ∷ hs) w = do
  (reply, w') ← happen answer h w
  (replies, w'') ← happen_all answer hs w'
  ok (reply ∷ replies, w'')

-- What is stored of a packet for a client, by its socket and the `sf` of its subscription.
abbrev pub stored_for : List ℕ → Option ℤ → Option ℕ → List (List ℕ)
stored_for packet (some fd) sf = []
stored_for packet none none = []
stored_for packet none (some sf) = if sf == 0 then [] else packet ∷ []

unfoldable pub foretell : Happening → Abstract → Option ℕ × Abstract
foretell (asked_for r) a = promise r a
foretell (published packet topic) a =
    (none, record a { queue = λ j. a.queue j ++ stored_for packet (a.socket j) (a.sf topic j) })

unfoldable pub foretell_all : List Happening → Abstract → List (Option ℕ) × Abstract
foretell_all [] a = ([], a)
foretell_all (h ∷ hs) a =
    let (reply, a') = foretell h a in
    let (replies, a'') = foretell_all hs a' in (reply ∷ replies, a'')
