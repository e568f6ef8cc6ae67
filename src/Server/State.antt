-- ===== src/Server/State.antt =====
-- The state of server.cpp: `struct subscriber` of subscriber.h, the three maps of `main`, and what
-- the program has done to the world so far.
use tema2_pc_client_server_t.Base.{ℕ, List, [], ◌∷◌, ◌++◌, none, some, Outcome, ok, ◌>>=◌}
use tema2_pc_client_server_t.Base.Int.{ℤ, pos, minus_one}
use tema2_pc_client_server_t.Base.Map.{Map, text_key, int_key}
use tema2_pc_client_server_t.Multi
use tema2_pc_client_server_t.Multi.{MultiSocket}

-- CLI_DISCONNECTED and CLI_CONNECTED
pub data State : Type 0 where
  disconnected connected : State

pub record Subscriber : Type 0 where
  pub sockfd : ℤ
  pub state : State
  pub subs_queue : List (List ℕ)

unfoldable pub new_subscriber : Subscriber
new_subscriber = record { sockfd = minus_one; state = disconnected; subs_queue = [] }

-- What `clients[id]` enters for an `id` that it does not have: a value-initialised `subscriber`.
unfoldable pub default_subscriber : Subscriber
default_subscriber = record { sockfd = pos 0; state = disconnected; subs_queue = [] }

-- A topic's subscribers, with their `sf`.
abbrev pub Subscriptions : Type 0
Subscriptions = Map (List ℕ) ℕ

-- The maps: `topic_map`, `clients` and `ids_map`.
pub record Broker : Type 0 where
  pub topic_map : Map (List ℕ) Subscriptions
  pub clients : Map (List ℕ) Subscriber
  pub ids_map : Map ℤ (List ℕ)

-- A line on the console; where a new client comes from is what `getpeername` says of its socket.
pub data Line : Type 0 where
  new_client : List ℕ → ℤ → Line
  already_connected : List ℕ → Line
  client_disconnected : List ℕ → Line

-- A call of the system's `send` or `close`, or a line on the console.
pub data Event : Type 0 where
  sends : ℤ → List ℕ → Event
  closes : ℤ → Event
  prints : Line → Event

pub record World : Type 0 where
  pub multi : MultiSocket
  pub broker : Broker
  pub log : List Event

-- What the system's `send` returns, which may depend on all that went before.
abbrev pub SendAnswer : Type 0
SendAnswer = List Event → ℤ → List ℕ → ℤ

abbrev pub note : Event → World → World
note e w = record w { log = w.log ++ e ∷ [] }

-- `MultiSocket::send`, its effect and its value, as an `int`.
unfoldable pub multi_send : SendAnswer → ℤ → List ℕ → World → Outcome (ℤ × World)
multi_send answer fd buf w = do
  sent ← Multi.send fd buf w.multi
  elim sent [
    | none ↦ ok (minus_one, w)
    | some frame ↦ ok (answer w.log fd frame, note (sends fd frame) w)
  ]

-- `MultiSocket::close(int)` and its effect.
unfoldable pub multi_close : ℤ → World → World
multi_close fd w = note (closes fd) (record w { multi = Multi.close fd w.multi })
