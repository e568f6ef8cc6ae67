-- ===== src/Server/Commands.antt =====
-- `process_tcp_client_packet` of server.cpp.
use tema2_pc_client_server_t.Base.{
  ℕ, ◌||◌, List, [], ◌∷◌, none, some, take, drop, get_or, Outcome, ok, die, ◌>>=◌, ltb, ◌==◌,
  if◌then◌else◌,
}
use tema2_pc_client_server_t.Base.Int.{ℤ}
use tema2_pc_client_server_t.Base.Map.{text_key, int_key, lookup, insert, erase, contains, at}
use tema2_pc_client_server_t.Base.Words.{memcpy}
use tema2_pc_client_server_t.Base.CString.{c_str}
use tema2_pc_client_server_t.Framing.{Memory}
use tema2_pc_client_server_t.App.{
  cli_packet_size, type_auth, type_sub, type_sub_sf, type_unsub, type_auth_duplicate, type_not_auth,
}
use tema2_pc_client_server_t.Server.State.{
  State, connected, disconnected, Subscriber, new_subscriber, default_subscriber, Broker,
}

-- "Create client entry if it isn't already".
unfoldable pub ensure_client : List ℕ → Broker → Broker
ensure_client id b = record b {
  clients = if contains id b.clients then b.clients else insert id new_subscriber b.clients;
}

abbrev pub client : List ℕ → Broker → Subscriber
client id b = at default_subscriber id b.clients

-- The end of the branch of TYPE_AUTH, for a client that is not connected.
unfoldable pub connect_client : ℤ → List ℕ → Broker → Broker
connect_client fd id b = record b {
  clients = insert id (record (client id b) { state = connected; sockfd = fd }) b.clients;
  ids_map = insert fd id b.ids_map;
}

unfoldable pub admit : ℤ → List ℕ → Broker → State → ℕ × Broker
admit fd id b connected = (type_auth_duplicate, b)
admit fd id b disconnected = (type_auth, connect_client fd id b)

-- The branch of TYPE_AUTH: the type returned and the maps.
unfoldable pub authenticate : ℤ → List ℕ → Broker → ℕ × Broker
unfolding ensure_client admit
authenticate fd id b = let b' = ensure_client id b in admit fd id b' (client id b').state

-- `topic_map[topic][id] = sf`
unfoldable pub subscribe : ℕ → List ℕ → List ℕ → Broker → Broker
subscribe sf topic id b = record b {
  topic_map = insert topic (insert id sf (at [] topic b.topic_map)) b.topic_map;
}

-- `topic_map[topic].erase(id)`
unfoldable pub unsubscribe : List ℕ → List ℕ → Broker → Broker
unsubscribe topic id b = record b {
  topic_map = insert topic (erase id (at [] topic b.topic_map)) b.topic_map;
}

-- The branches of TYPE_SUB and TYPE_SUB_SF, and of TYPE_UNSUB, with the topic that they read.
unfoldable pub command : ℕ → ℤ → Outcome (List ℕ) → Broker → Outcome (ℕ × Broker)
command type fd topic b = elim (lookup fd b.ids_map) [
  | none ↦ ok (type_not_auth, b)
  | some id ↦ do
    name ← topic
    ok (
      type,
      if type == type_sub
          then subscribe 0 name id b
          else if type == type_sub_sf
          then subscribe 1 name id b
          else unsubscribe name id b,
    )
]

-- What the packet in memory asks for.
unfoldable pub dispatch : ℤ → List ℕ → Broker → Outcome (ℕ × Broker)
unfolding authenticate command
dispatch fd packet b =
    let type = get_or packet 0 0 in
    if type == type_auth
    then (c_str (drop 1 packet) >>= λ id. ok (authenticate fd id b))
    else if (type == type_sub || type == type_sub_sf) || type == type_unsub
    then command type fd (c_str (drop 1 packet)) b
    else ok (type, b)

-- `process_tcp_client_packet`, on the `size` bytes at `buf`. The packet on the stack is not
-- initialised; the NUL behind its `size` bytes is written past its end if it is full.
unfoldable pub process_tcp_client_packet : Memory → ℤ → List ℕ → ℕ → Broker → Outcome (ℕ × Broker)
unfolding dispatch
process_tcp_client_packet mem fd buf size b = if ltb cli_packet_size size then die else (do
  filled ← memcpy (mem.fresh cli_packet_size) 0 (take size buf)
  packet ← memcpy filled size (0 ∷ [])
  dispatch fd packet b)
