-- ===== src/Server/Entry.antt =====
-- `main` of server.cpp from its command line on.
use tema2_pc_client_server_t.Base.{
  ℕ, ◌%◌, ◌^◌, ◌<◌, ◌≡◌, refl, Bool, Bool-cases, true, false, not, ◌||◌, inl, inr, List, [], ◌∷◌,
  ◌++◌, Outcome, ok, die, fault, ◌>>=◌, ◌==◌, if◌then◌else◌,
}
use tema2_pc_client_server_t.Base.Int.{ℤ, pos, negsuc, minus_one, eqb, is_neg}
use tema2_pc_client_server_t.Base.Words.{swap16}
use tema2_pc_client_server_t.Base.Argv.{Launched, usage, runs, atoi, htons}
use tema2_pc_client_server_t.Multi.{
  Address, max_int, fd_set, multi_on, new_multi, enable_udp, enable_tcp_connections, add_fd,
}
use tema2_pc_client_server_t.App.Display.{to_string}
use tema2_pc_client_server_t.App.Numbers.{atoi-to_string}
use tema2_pc_client_server_t.Server.State.{World, SendAnswer}
use tema2_pc_client_server_t.Server.Main.{Input, start, serve}

-- The descriptors of the two sockets, and whether the calls on each succeed for an address.
pub record Sockets : Type 0 where
  pub udp : ℤ
  pub udp_bound : Address → Bool
  pub tcp : ℤ
  pub tcp_bound : Address → Bool

abbrev pub usage_text : List ℕ → List ℕ
usage_text file =
    (b'U' ∷ b's' ∷ b'a' ∷ b'g' ∷ b'e' ∷ b':' ∷ b' ' ∷ [])
    ++ (file
        ++ b' ' ∷ b's' ∷ b'e' ∷ b'r' ∷ b'v' ∷ b'e' ∷ b'r' ∷ b'_' ∷ b'p' ∷ b'o' ∷ b'r' ∷ b't' ∷ b'\n'
          ∷ [])

unfoldable pub server_main :
    SendAnswer → List (List ℕ) → Sockets → List Input → Outcome (Launched World)
server_main answer (file ∷ port ∷ rest) s inputs = do
  portno ← atoi port
  if eqb portno (pos 0) then die else (do
    w ← start portno s.udp s.udp_bound s.tcp s.tcp_bound
    left ← serve answer inputs w
    ok (runs left))
server_main answer (file ∷ []) s inputs = ok (usage (usage_text file))
server_main answer [] s inputs = fault

-- Any address of the host, by a port, as `bind` gets it.
abbrev pub any_host : ℕ → Address
any_host port = record { s_addr = 0; sin_port = swap16 port }

-- A server that waits for datagrams on `udp`, for connections on `tcp` and for its console.
abbrev pub listening : ℤ → ℤ → Address → World
listening udp tcp at = record {
  multi = record {
    serv_addr = at;
    sockfd_udp = udp;
    sockfd_tcp = tcp;
    curr_sockfd = negsuc 1;
    read_fds = fd_set (pos 0) (fd_set tcp (fd_set udp (λ x. false)));
    fdmax = max_int (max_int minus_one udp) tcp;
    current_fd_type = 0;
    sock_queue = [];
    tcp_sockets = [];
  };
  broker = record { topic_map = []; clients = []; ids_map = [] };
  log = [];
}

start-listening :
    (n : ℕ) (s : Sockets)
    → start (pos n) s.udp s.udp_bound s.tcp s.tcp_bound ≡ (
        if is_neg s.udp
          || (not (s.udp_bound (any_host (n % 2 ^ 16)))
              || not (s.tcp_bound (any_host (n % 2 ^ 16))))
        then die
        else ok (listening s.udp s.tcp (any_host (n % 2 ^ 16))))
unfolding start multi_on new_multi htons enable_udp enable_tcp_connections add_fd
start-listening n s =
    let at = any_host (n % 2 ^ 16) in
    elim (Bool-cases (is_neg s.udp)) [
      | inl e ↦ rw e refl
      | inr e ↦ elim (Bool-cases (s.udp_bound at)) [
        | inr u ↦ rw (e, u) refl
        | inl u ↦ elim (Bool-cases (s.tcp_bound at)) [
          | inl t ↦ rw (e, u, e, t) refl
          | inr t ↦ rw (e, u, e, t) refl
        ]
      ]
    ]

if_bind {ℓ κ} :
    {A : Type ℓ} {B : Type κ} (b : Bool) (m : Outcome A) (f : A → Outcome B)
    → ((if b then die else m) >>= f) ≡ (if b then die else (m >>= f))
if_bind true m f = refl
if_bind false m f = refl

-- A server that is started with a decimal number of less than 2^31 asks `bind` for the number modulo
-- 65536, in network order, on any address of the host, for both of its sockets. It dies if the number
-- is 0, if there is no UDP socket, or if one of these calls fails; otherwise it serves, with no
-- clients and no subscriptions, from the state in which it waits for its two sockets and its console.
-- So it takes 65536 for the port 0.
pub server_main-port :
    (answer : SendAnswer) (file : List ℕ) (n : ℕ) (rest : List (List ℕ)) (s : Sockets)
    (inputs : List Input)
    → n < 2 ^ 31
    → server_main answer (file ∷ to_string n ∷ rest) s inputs ≡ (
        if n == 0
          || (is_neg s.udp
              || (not (s.udp_bound (any_host (n % 2 ^ 16)))
                  || not (s.tcp_bound (any_host (n % 2 ^ 16)))))
        then die
        else (serve answer inputs (listening s.udp s.tcp (any_host (n % 2 ^ 16))) >>= λ left.
            ok (runs left)))
unfolding server_main
server_main-port answer file n rest s inputs h =
    rw (atoi-to_string n h, start-listening n s)
      (elim (Bool-cases (n == 0)) [
        | inl z ↦ rw z refl
        | inr z ↦
            rw z
              (if_bind (is_neg s.udp || _) (ok (listening s.udp s.tcp (any_host (n % 2 ^ 16)))) _)
      ])
