-- ===== src/Server/Processing.antt =====
-- `process_tcp_client_packet` keeps what the ways of changing the maps keep.
use tema2_pc_client_server_t.Base.{
  ℕ, Bool, true, false, Option-cases, List, [], ◌∷◌, ◌||◌, drop, take, get_or, inl, inr, Outcome,
  Holds, Holds-ok, Holds-if, Holds->>=, ◌==◌, ltb, if◌then◌else◌,
}
use tema2_pc_client_server_t.Base.Int.{ℤ}
use tema2_pc_client_server_t.Base.Map.{text_key, int_key, lookup}
use tema2_pc_client_server_t.Base.Words.{memcpy}
use tema2_pc_client_server_t.Base.CString.{c_str}
use tema2_pc_client_server_t.Framing.{Memory}
use tema2_pc_client_server_t.App.{
  cli_packet_size, type_auth, type_sub, type_sub_sf, type_unsub, type_not_auth,
}
use tema2_pc_client_server_t.Server.State.{Broker}
use tema2_pc_client_server_t.Server.Commands.{
  subscribe, unsubscribe, command, dispatch, process_tcp_client_packet,
}
use tema2_pc_client_server_t.Server.Kept.{Kept}

module _ (k : Kept) where
  -- The type returned does not matter.
  abbrev pub Links : ℕ × Broker → Type 0
  Links x = k.Holds_in x.1

  pub command-Links :
      (type : ℕ) (fd : ℤ) (topic : Outcome (List ℕ)) (b : Broker)
      → k.Holds_in b
      → Holds Links (command type fd topic b)
  unfolding command
  command-Links type fd topic b l = elim (Option-cases (lookup fd b.ids_map)) [
    | inl e ↦ rw (e, command) (Holds-ok Links (type_not_auth, b) l)
    | inr (id, e) ↦
        rw (e, command)
          (Holds->>= Links topic _
            (λ name. Holds-ok Links _ (named id name (type == type_sub) (type == type_sub_sf))))
  ]
    where
      named :
          (id name : List ℕ) (x y : Bool)
          → k.Holds_in (
              if x
              then subscribe 0 name id b
              else if y
              then subscribe 1 name id b
              else unsubscribe name id b)
      named id name true y = k.by_subscribe 0 name id b l
      named id name false true = k.by_subscribe 1 name id b l
      named id name false false = k.by_unsubscribe name id b l

  dispatch-Links :
      (fd : ℤ) (packet : List ℕ) (b : Broker) → k.Holds_in b → Holds Links (dispatch fd packet b)
  unfolding dispatch
  dispatch-Links fd packet b l =
      let type = get_or packet 0 0 in
      Holds-if Links (type == type_auth) _ _
        (Holds->>= Links (c_str (drop 1 packet)) _
          (λ id. Holds-ok Links _ (k.by_authenticate fd id b l)))
        (Holds-if Links ((type == type_sub || type == type_sub_sf) || type == type_unsub) _ _
          (command-Links type fd (c_str (drop 1 packet)) b l) (Holds-ok Links _ l))

  pub process-Links :
      (mem : Memory) (fd : ℤ) (buf : List ℕ) (size : ℕ) (b : Broker)
      → k.Holds_in b
      → Holds Links (process_tcp_client_packet mem fd buf size b)
  unfolding process_tcp_client_packet
  process-Links mem fd buf size b l =
      Holds-if Links (ltb cli_packet_size size) _ _ (λ x e. cc)
        (Holds->>= Links (memcpy (mem.fresh cli_packet_size) 0 (take size buf)) _ (λ filled.
          Holds->>= Links (memcpy filled size (0 ∷ [])) _ (λ packet. dispatch-Links fd packet b l)))
