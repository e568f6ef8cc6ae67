-- ===== src/Server/Session.antt =====
-- The loop of `main` from a safe state to "exit", as a run of the broker of Server/Abstract.
use tema2_pc_client_server_t.Base.{◌≡◌, refl, sym, ◌∙◌, true, List, [], ◌∷◌, ◌++◌, ok}
use tema2_pc_client_server_t.Base.Int.{pos}
use tema2_pc_client_server_t.Multi.{MultiSocket}
use tema2_pc_client_server_t.Multi.Invariant.{IsSound}
use tema2_pc_client_server_t.Server.State.{World, SendAnswer}
use tema2_pc_client_server_t.Server.Main.{Input, await_fd, is_exit, round, serve, finish}
use tema2_pc_client_server_t.Server.Abstract.{Abstract, view, Happening, foretell, foretell_all}
use tema2_pc_client_server_t.Server.Invariants.{AreSorted, sorted}
use tema2_pc_client_server_t.Server.Deliveries.{NeverFails}
use tema2_pc_client_server_t.Server.Rounds.{IsInput, round-IsSafe}
use tema2_pc_client_server_t.Server.Exit.{serve-exit}
use tema2_pc_client_server_t.Server.Simulation.{Brings, round-Brings}

-- Inputs on which the loop ends, with all that they bring: each one brings what Server/Simulation
-- names, in the state that the rounds before it leave, up to one that types "exit".
pub data Session (answer : SendAnswer) : List Input → World → List Happening → Type 0 where
  exits :
      (input : Input) (inputs : List Input) (w : World) (m : MultiSocket)
      → await_fd input w.multi ≡ ok (pos 0, m)
      → is_exit input.line ≡ true
      → Session answer (input ∷ inputs) w []
  goes_on :
      (input : Input) (inputs : List Input) (w : World) (hs later : List Happening)
      → IsInput input
      → Brings input w hs
      → ((w' : World) → round answer input w ≡ ok (true, w') → Session answer inputs w' later)
      → Session answer (input ∷ inputs) w (hs ++ later)

foretell_all-append :
    (hs later : List Happening) (a : Abstract)
    → (foretell_all (hs ++ later) a).1 ≡ (foretell_all later (foretell_all hs a).1).1
unfolding foretell_all
foretell_all-append [] later a = refl
foretell_all-append (h ∷ hs) later a = foretell_all-append hs later (foretell h a).1

-- The loop of `main` on a session, from a state that satisfies the invariants of every run, ends
-- with a result, and its maps then hold, seen as functions, what the abstract broker foretells for
-- all that the session brings, in the order in which it came. A session is a list of inputs in
-- which what arrives are bytes; the last one that counts types "exit", and each one before it
-- brings, in the state that the earlier ones leave, another line, a connection that is accepted,
-- the end of one, a login or a command as the oldest packet of a socket, or a datagram that becomes
-- a packet of news of at most 4092 bytes while whoever is connected has a buffered socket. It is
-- assumed that the system's `send` does not fail.
pub serve-foretell_all :
    (answer : SendAnswer) (inputs : List Input) (w : World) (hs : List Happening)
    → Session answer inputs w hs
    → NeverFails answer
    → IsSound w.multi × AreSorted w.broker
    → (w' : World) × (serve answer inputs w ≡ ok w')
      × (view w'.broker ≡ (foretell_all hs (view w.broker)).1)
unfolding serve foretell_all finish
serve-foretell_all answer _ _ _ (exits input inputs w m ran exit) never safe =
    (_, serve-exit answer input inputs w m ran exit, refl)
serve-foretell_all answer _ _ _ (goes_on input inputs w hs later bytes brings next) never safe =
    let (w1, went, seen) = round-Brings answer input w hs brings bytes never safe in
    let safe1 = round-IsSafe sorted answer input w bytes safe (true, w1) went in
    let (w2, served, seen') =
      serve-foretell_all answer inputs w1 later (next w1 went) never safe1 in
    (
      w2,
      rw (went, served) refl,
      seen' ∙ rw seen (sym (foretell_all-append hs later (view w.broker))),
    )
