-- ===== src/Server/Kept.antt =====
-- What it takes for a property of the maps to hold in every run: each of the ways in which server.cpp
-- changes them keeps it.
use tema2_pc_client_server_t.Base.{ℕ, List, []}
use tema2_pc_client_server_t.Base.Int.{ℤ}
use tema2_pc_client_server_t.Server.State.{Broker}
use tema2_pc_client_server_t.Server.Commands.{authenticate, subscribe, unsubscribe}
use tema2_pc_client_server_t.Server.Delivery.{store, touch_client, touch_topic}
use tema2_pc_client_server_t.Server.Handler.{forget_socket}

pub record Kept : Type 1 where
  pub Holds_in : Broker → Type 0
  pub at_start : Holds_in (record { topic_map = []; clients = []; ids_map = [] })
  pub by_authenticate :
      (fd : ℤ) (id : List ℕ) (b : Broker) → Holds_in b → Holds_in (authenticate fd id b).1
  pub by_subscribe :
      (sf : ℕ) (topic id : List ℕ) (b : Broker) → Holds_in b → Holds_in (subscribe sf topic id b)
  pub by_unsubscribe :
      (topic id : List ℕ) (b : Broker) → Holds_in b → Holds_in (unsubscribe topic id b)
  pub by_touch_client : (id : List ℕ) (b : Broker) → Holds_in b → Holds_in (touch_client id b)
  pub by_touch_topic : (topic : List ℕ) (b : Broker) → Holds_in b → Holds_in (touch_topic topic b)
  pub by_store : (packet id : List ℕ) (b : Broker) → Holds_in b → Holds_in (store packet id b)
  pub by_forget_socket : (fd : ℤ) (b : Broker) → Holds_in b → Holds_in (forget_socket fd b)
