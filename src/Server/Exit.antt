-- ===== src/Server/Exit.antt =====
-- How the loop of `main` ends.
use tema2_pc_client_server_t.Base.{
  ℕ, ◌≡◌, refl, sym, ◌∙◌, ap, subst, Bool, Bool-cases, true, false, some, List, [], ◌∷◌, ◌++◌, map,
  take, drop, take-append-drop, append_assoc, append-nil, inl, inr, All, Outcome, Holds, Holds-ok,
  Holds-if, Holds->>=, >>=-eq-ok, ok, ◌>>=◌, if◌then◌else◌,
}
use tema2_pc_client_server_t.Base.Int.{ℤ, eqb, eqb_iff, pos, is_neg}
use tema2_pc_client_server_t.Base.Map.{Map, int_key, lookup, same_text_iff}
use tema2_pc_client_server_t.Framing.{Socket}
use tema2_pc_client_server_t.Multi.{MultiSocket, is_udp, is_tcp_connection, has_closed, close_all}
use tema2_pc_client_server_t.Server.State.{World, SendAnswer, Event, closes}
use tema2_pc_client_server_t.Server.Main.{
  Input, await_fd, is_exit, round_for, round, dropped, serve, finish, close_open,
}
use tema2_pc_client_server_t.Server.Rounds.{IsInput, Runs, here, goes_on}

-- A round that ends the loop has read an exit.
abbrev HasExit : Input → Bool × World → Type 0
HasExit input (running, w) = running ≡ false → is_exit input.line ≡ true

going_on-HasExit :
    (input : Input) (m : Outcome World) → Holds (HasExit input) (m >>= λ w. ok (true, w))
going_on-HasExit input m =
    Holds->>= (HasExit input) m _ (λ w. Holds-ok (HasExit input) (true, w) (λ e. cc))

exit_line : (b : Bool) → (if b then false else true) ≡ false → b ≡ true
exit_line true e = refl
exit_line false e = cc

round-HasExit :
    (answer : SendAnswer) (input : Input) (w : World) → Holds (HasExit input) (round answer input w)
unfolding round round_for
round-HasExit answer input w = Holds->>= (HasExit input) (await_fd input w.multi) _ (λ (fd, m).
    Holds-if (HasExit input) (eqb fd (pos 0)) _ _
      (Holds-ok (HasExit input) _ (exit_line (is_exit input.line)))
      (Holds-if (HasExit input) (is_udp m) _ _ (going_on-HasExit input _) (
        Holds-if (HasExit input) (is_tcp_connection m) _ _ (going_on-HasExit input _) (
          Holds-if (HasExit input) (has_closed m) _ _ (Holds-ok (HasExit input) _ (λ e. cc))
            (going_on-HasExit input _)))))

Runs-before :
    (answer : SendAnswer) (input : Input) (w w1 w2 : World)
    → IsInput input
    → round answer input w ≡ ok (true, w1)
    → Runs answer w1 w2
    → Runs answer w w2
Runs-before answer input w w1 w2 h e here = goes_on input here h e
Runs-before answer input w w1 w2 h e (goes_on {w1 = u} later r k f) =
    goes_on later (Runs-before answer input w w1 u h e r) k f

-- The line begins with "exit".
abbrev pub IsExit : List ℕ → Type 0
IsExit line = (rest : List ℕ) × (line ≡ b'e' ∷ b'x' ∷ b'i' ∷ b't' ∷ rest)

pub is_exit-IsExit : (line : List ℕ) → is_exit line ≡ true → IsExit line
is_exit-IsExit line h =
    let front = (same_text_iff (take 4 line) (b'e' ∷ b'x' ∷ b'i' ∷ b't' ∷ [])).0 h in
    (drop 4 line, sym (take-append-drop 4 line) ∙ ap (λ x. x ++ drop 4 line) front)

-- That the descriptor has been closed.
abbrev pub HasClosed : ℤ → List Event → Type 0
HasClosed fd log =
    (before : List Event) × (after : List Event) × (log ≡ before ++ closes fd ∷ after)

-- What is left of the state `w` behind `multi.close()`: no sockets, nothing to wait for, what was
-- done before, and a call that closes each buffered socket and each listening one; the maps are as
-- before.
pub record Closed (w w' : World) : Type 0 where
  pub none_buffered : w'.multi.tcp_sockets ≡ []
  pub none_waited : (fd : ℤ) → w'.multi.read_fds fd ≡ false
  pub maps : w'.broker ≡ w.broker
  pub kept : (after : List Event) × (w'.log ≡ w.log ++ after)
  pub clients : (fd : ℤ) (s : Socket) → lookup fd w.multi.tcp_sockets ≡ some s → HasClosed fd w'.log
  pub tcp : is_neg w.multi.sockfd_tcp ≡ false → HasClosed w.multi.sockfd_tcp w'.log
  pub udp : is_neg w.multi.sockfd_udp ≡ false → HasClosed w.multi.sockfd_udp w'.log

HasClosed-more :
    (fd : ℤ) (front log back : List Event)
    → HasClosed fd log
    → HasClosed fd (front ++ (log ++ back))
HasClosed-more fd front log back (before, after, e) = (
  front ++ before,
  after ++ back,
  rw
      (
        e,
        append_assoc before (closes fd ∷ after) back,
        append_assoc front before (closes fd ∷ (after ++ back)),
      )
      refl,
)

HasClosed-map :
    (fd : ℤ) (s : Socket) (m : Map ℤ Socket)
    → lookup fd m ≡ some s
    → HasClosed fd (map (λ entry. closes entry.0) m)
unfolding lookup
HasClosed-map fd s [] h = cc
HasClosed-map fd s ((x, t) ∷ m) h = elim (Bool-cases (eqb x fd)) [
  | inl e ↦ ([], map (λ entry. closes entry.0) m, rw ((eqb_iff x fd).0 e) refl)
  | inr e ↦
      let (before, after, q) = HasClosed-map fd s m (rw e at h) in
      (closes x ∷ before, after, ap (◌∷◌ (closes x)) q)
]

pub finish-Closed : (w : World) → Closed w (finish w)
unfolding finish close_all
finish-Closed w =
    let sockets = map (λ entry. closes entry.0) w.multi.tcp_sockets in
    let tcp_close = close_open w.multi.sockfd_tcp in
    let udp_close = close_open w.multi.sockfd_udp in
    record {
      none_buffered = refl;
      none_waited = λ fd. refl;
      maps = refl;
      kept = (
        sockets ++ (tcp_close ++ udp_close),
        append_assoc w.log sockets (tcp_close ++ udp_close),
      );
      clients = λ fd s e. rw (append_assoc w.log sockets (tcp_close ++ udp_close)) (
          HasClosed-more fd w.log sockets (tcp_close ++ udp_close)
            (HasClosed-map fd s w.multi.tcp_sockets e));
      tcp = λ e.
          HasClosed-more w.multi.sockfd_tcp (w.log ++ sockets) tcp_close udp_close
            (rw e ([], [], refl));
      udp = λ e.
          rw (← append_assoc (w.log ++ sockets) tcp_close udp_close, ← append-nil udp_close)
            (HasClosed-more w.multi.sockfd_udp ((w.log ++ sockets) ++ tcp_close) udp_close []
              (rw e ([], [], refl)));
    }

-- Where a run of the loop has ended.
abbrev pub Ended : SendAnswer → World → World → Type 0
Ended answer w w' =
    (w1 : World) × (w2 : World) × (input : Input) × Runs answer w w1
    × (round answer input w1 ≡ ok (false, w2))
    × IsExit input.line
    × Closed w2 w'

-- If the loop of the server ends with a result, on inputs in which what arrives are bytes, then
-- after rounds that went on there was one that read a line that starts with "exit"; and the result is
-- its state when each of its sockets has been closed, the two listening ones included, and it waits
-- for nothing.
pub serve-Ended :
    (answer : SendAnswer) (inputs : List Input) (w w' : World)
    → All IsInput inputs
    → serve answer inputs w ≡ ok w'
    → Ended answer w w'
unfolding serve
serve-Ended answer [] w w' h e = cc
serve-Ended answer (input ∷ inputs) w w' h e =
    let ((running, w1), first, rest) = >>=-eq-ok (round answer input w) _ e in
    go (λ v. serve-Ended answer inputs w1 w' h.1 v) running first rest
  where
    go :
        {w1 : World}
        → (serve answer inputs w1 ≡ ok w' → Ended answer w1 w')
        → (running : Bool) → round answer input w ≡ ok (running, w1)
        → (elim running [ true ↦ serve answer inputs w1 | false ↦ ok (finish w1) ]) ≡ ok w'
        → Ended answer w w'
    go {w1} later true first rest =
        let (u, v, last, r, e, x, same) = later rest in
        (u, v, last, Runs-before answer input w w1 u h.0 first r, e, x, same)
    go {w1} later false first rest =
        let same : finish w1 ≡ w' = cc in
        let typed = round-HasExit answer input w (false, w1) first refl in
        (
          w,
          w1,
          input,
          here,
          first,
          is_exit-IsExit input.line typed,
          subst (Closed w1) same (finish-Closed w1),
        )

IsExit-is_exit : (line : List ℕ) → IsExit line → is_exit line ≡ true
IsExit-is_exit line (rest, e) = rw e refl

-- What a line does on standard input: "exit" at its start ends the server with its sockets closed, in
-- the state `w`, and with any other line the loop goes on from there.
pub data Reads (answer : SendAnswer) (line : List ℕ) (inputs : List Input) (w : World)
    : Outcome World → Type 0 where
  ends : (w' : World) → IsExit line → Closed w w' → Reads answer line inputs w (ok w')
  reads_on : ¬ IsExit line → Reads answer line inputs w (serve answer inputs w)

pub serve-exit :
    (answer : SendAnswer) (input : Input) (inputs : List Input) (w : World) (m : MultiSocket)
    → await_fd input w.multi ≡ ok (pos 0, m)
    → is_exit input.line ≡ true
    → serve answer (input ∷ inputs) w
      ≡ ok (finish (record w { multi = m; log = w.log ++ dropped w.multi.tcp_sockets m }))
unfolding serve round round_for
serve-exit answer input inputs w m e x = rw (e, x) refl

serve-other :
    (answer : SendAnswer) (input : Input) (inputs : List Input) (w : World) (m : MultiSocket)
    → await_fd input w.multi ≡ ok (pos 0, m)
    → is_exit input.line ≡ false
    → serve answer (input ∷ inputs) w
      ≡ serve answer inputs (record w { multi = m; log = w.log ++ dropped w.multi.tcp_sockets m })
unfolding serve round round_for
serve-other answer input inputs w m e x = rw (e, x) refl

-- When standard input is the next descriptor, a line that starts with "exit" ends the server at once:
-- whatever else is to come, no further round is made, each of its sockets is closed, the two
-- listening ones included, and its maps stay as they are. Any other line does nothing.
pub serve-Reads :
    (answer : SendAnswer) (input : Input) (inputs : List Input) (w : World) (m : MultiSocket)
    → await_fd input w.multi ≡ ok (pos 0, m)
    → Reads answer input.line inputs
        (record w { multi = m; log = w.log ++ dropped w.multi.tcp_sockets m })
        (serve answer (input ∷ inputs) w)
serve-Reads answer input inputs w m e =
    let w1 : World = record w { multi = m; log = w.log ++ dropped w.multi.tcp_sockets m } in
    elim (Bool-cases (is_exit input.line)) [
      | inl x ↦
          rw (serve-exit answer input inputs w m e x)
            (ends (finish w1) (is_exit-IsExit input.line x) (finish-Closed w1))
      | inr x ↦
          rw (serve-other answer input inputs w m e x)
            (reads_on (λ h. let clash = IsExit-is_exit input.line h in cc))
    ]
