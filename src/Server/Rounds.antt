-- ===== src/Server/Rounds.antt =====
-- Runs of the server: rounds of the loop of `main`, one after another, and what all of them keep.
use tema2_pc_client_server_t.Base.{
  ◌≡◌, refl, Bool, true, take, All, Outcome, Holds, Holds-ok, Holds-if, Holds->>=, Holds-then, ok,
  ◌>>=◌,
}
use tema2_pc_client_server_t.Base.Int.{ℤ, is_neg, eqb, pos}
use tema2_pc_client_server_t.Base.Map.{int_key}
use tema2_pc_client_server_t.Framing.{Received, failed, chunk}
use tema2_pc_client_server_t.Multi.{
  MultiSocket, Address, multi_on, enable_udp, enable_tcp_connections, get_next_fd, select, accept,
  is_udp, is_tcp_connection, has_closed,
}
use tema2_pc_client_server_t.Multi.Invariant.{IsSound, multi_on-IsSound}
use tema2_pc_client_server_t.Multi.Reach.{udp, tcp, adds, accepts, nexts, Step-IsSound}
use tema2_pc_client_server_t.App.News.{get_sendable_news}
use tema2_pc_client_server_t.Server.State.{World, SendAnswer}
use tema2_pc_client_server_t.Server.Handler.{buflen_max, on_closed}
use tema2_pc_client_server_t.Server.Main.{
  Input, start, await_fd, on_datagram, on_connection, round_for, round,
}
use tema2_pc_client_server_t.Server.Linked.{IsLinked}
use tema2_pc_client_server_t.Server.Kept.{Kept}
use tema2_pc_client_server_t.Server.Invariants.{AreSorted, linked_and_sorted}
use tema2_pc_client_server_t.Server.Safety.{IsSafe, send_news-IsSafe, handle_tcp_app_recv-IsSafe}
use tema2_pc_client_server_t.Multi.Waiting.{IsAnswer, select-IsSound}

abbrev pub IsInput : Input → Type 0
IsInput input = All IsAnswer input.answers

-- Rounds after which the loop goes on.
pub data Runs (answer : SendAnswer) (w : World) : World → Type 0 where
  here : Runs answer w w
  goes_on :
      {w1 w2 : World} (input : Input)
      → Runs answer w w1
      → IsInput input
      → round answer input w1 ≡ ok (true, w2)
      → Runs answer w w2

-- A descriptor does not matter.
abbrev pub IsSoundWith : ℤ × MultiSocket → Type 0
IsSoundWith (fd, m) = IsSound m

pub await_fd-IsSound :
    (input : Input) (m : MultiSocket)
    → IsInput input
    → IsSound m
    → Holds IsSoundWith (await_fd input m)
unfolding await_fd
await_fd-IsSound input m h v =
    let m' = (get_next_fd m).1 in
    let v' : IsSound m' = Step-IsSound (nexts refl) v in
    Holds-if IsSoundWith (is_neg (get_next_fd m).0) _ _
      (Holds-then IsSound IsSoundWith (select input.memory input.answers m') _
        (select-IsSound input.memory input.answers m' h v')
        (λ ready s. Holds-ok IsSoundWith (get_next_fd ready) (Step-IsSound (nexts refl) s)))
      (Holds-ok IsSoundWith (get_next_fd m) v')

module _ (k : Kept) where
  on_datagram-IsSafe :
      (answer : SendAnswer) (input : Input) (w : World)
      → (IsSafe k) w
      → Holds (IsSafe k) (on_datagram answer input w)
  unfolding on_datagram
  on_datagram-IsSafe answer input w v = go input.datagram refl
    where
      go : (d : Received) → input.datagram ≡ d → Holds (IsSafe k) (on_datagram answer input w)
      go failed e = rw (e, on_datagram) (λ x e. cc)
      go (chunk d) e =
          rw (e, on_datagram)
            (Holds->>= (IsSafe k) (get_sendable_news input.memory (take buflen_max d) input.sender)
              _ (λ packet. send_news-IsSafe k answer packet w v))

  on_connection-IsSafe :
      (input : Input) (w : World) → (IsSafe k) w → Holds (IsSafe k) (on_connection input w)
  unfolding on_connection
  on_connection-IsSafe input w v =
      Holds-then IsSound (IsSafe k) (accept input.memory input.accepted input.accept_done w.multi) _
        (λ m e. Step-IsSound (accepts input.memory input.accepted input.accept_done e) v.0)
        (λ m s. Holds-ok (IsSafe k) _ (s, v.1))

  abbrev RunsSafely : Bool × World → Type 0
  RunsSafely (running, w) = (IsSafe k) w

  going_on : (m : Outcome World) → Holds (IsSafe k) m → Holds RunsSafely (m >>= λ w. ok (true, w))
  going_on m h = Holds-then (IsSafe k) RunsSafely m _ h (λ w v. Holds-ok RunsSafely (true, w) v)

  round_for-IsSafe :
      (answer : SendAnswer) (input : Input) (fd : ℤ) (w : World)
      → (IsSafe k) w
      → Holds RunsSafely (round_for answer input fd w)
  unfolding round_for on_closed
  round_for-IsSafe answer input fd w v =
      Holds-if RunsSafely (eqb fd (pos 0)) _ _ (Holds-ok RunsSafely _ v) (
        Holds-if RunsSafely (is_udp w.multi) _ _ (going_on _ (on_datagram-IsSafe answer input w v))
          (Holds-if RunsSafely (is_tcp_connection w.multi) _ _
            (going_on _ (on_connection-IsSafe input w v))
            (Holds-if RunsSafely (has_closed w.multi) _ _
              (Holds-ok RunsSafely _ (v.0, k.by_forget_socket fd w.broker v.1))
              (going_on _ (handle_tcp_app_recv-IsSafe k input.memory answer fd w v)))))

  pub round-IsSafe :
      (answer : SendAnswer) (input : Input) (w : World)
      → IsInput input
      → (IsSafe k) w
      → Holds RunsSafely (round answer input w)
  unfolding round
  round-IsSafe answer input w h v =
      Holds-then IsSoundWith RunsSafely (await_fd input w.multi) _
        (await_fd-IsSound input w.multi h v.0)
        (λ (fd, m) s. round_for-IsSafe answer input fd _ (s, v.1))

  pub start-IsSafe :
      (portno fd : ℤ) (bound : Address → Bool) (fd' : ℤ) (bound' : Address → Bool)
      → Holds (IsSafe k) (start portno fd bound fd' bound')
  unfolding start
  start-IsSafe portno fd bound fd' bound' =
      Holds-then IsSound (IsSafe k) (enable_udp fd bound (multi_on portno)) _
        (λ m e. Step-IsSound (udp fd bound e) (multi_on-IsSound portno))
        (λ m1 s1.
          Holds-then IsSound (IsSafe k) (enable_tcp_connections fd' bound' m1) _
            (λ m e. Step-IsSound (tcp fd' bound' e) s1)
            (λ m2 s2. Holds-ok (IsSafe k) _ (Step-IsSound (adds (pos 0) refl) s2, k.at_start)))

  pub IsSafe-along :
      (answer : SendAnswer) (w0 w : World) → (IsSafe k) w0 → Runs answer w0 w → (IsSafe k) w
  IsSafe-along answer w0 w v here = v
  IsSafe-along answer w0 w v (goes_on {w1} {w2} input r h e) =
      round-IsSafe answer input w1 h (IsSafe-along answer w0 w1 v r) (true, w2) e

-- In every state that the server gets to from its start, whatever clients, publishers and the
-- system do: each buffered socket satisfies the invariant of BufferedTcpSocket, is waited for by
-- `select` and is at most `fdmax`; each socket that has an id, other than the empty one, is the one
-- socket of a client that is connected; and the three maps, and the subscriptions to each topic,
-- hold their keys in order and each key once.
pub Runs-IsSafe :
    (answer : SendAnswer) (portno fd : ℤ) (bound : Address → Bool) (fd' : ℤ)
    (bound' : Address → Bool) (w0 w : World)
    → start portno fd bound fd' bound' ≡ ok w0
    → Runs answer w0 w
    → IsSound w.multi × (IsLinked w.broker × AreSorted w.broker)
Runs-IsSafe answer portno fd bound fd' bound' w0 w e =
    IsSafe-along linked_and_sorted answer w0 w
      (start-IsSafe linked_and_sorted portno fd bound fd' bound' w0 e)
