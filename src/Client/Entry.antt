-- ===== src/Client/Entry.antt =====
-- `main` of client.cpp from its command line on.
use tema2_pc_client_server_t.Base.{
  ℕ, Bool, Option, none, some, List, [], ◌∷◌, ◌++◌, length, Outcome, ok, die, fault, ◌>>=◌, leb,
  if◌then◌else◌,
}
use tema2_pc_client_server_t.Base.Int.{ℤ, minus_one}
use tema2_pc_client_server_t.Base.Words.{memcpy}
use tema2_pc_client_server_t.Base.Argv.{Launched, usage, runs, atoi, htons}
use tema2_pc_client_server_t.Framing.{Memory}
use tema2_pc_client_server_t.App.{client_id_len}
use tema2_pc_client_server_t.App.Display.{Doubles}
use tema2_pc_client_server_t.Multi.{Address}
use tema2_pc_client_server_t.Client.Main.{Client, Turn, join, work}

-- The address that `inet_aton` reads, if it reads one; the descriptor of `socket`, and whether the
-- calls that connect it to an address succeed; what the authentication gets.
pub record Connection : Type 0 where
  pub aton : List ℕ → Option ℕ
  pub fd : ℤ
  pub done : Address → Bool
  pub turn : Turn

abbrev pub usage_text : List ℕ → List ℕ
usage_text file =
    (b'U' ∷ b's' ∷ b'a' ∷ b'g' ∷ b'e' ∷ b' ' ∷ [])
    ++ (file
        ++ b' ' ∷ b'c' ∷ b'l' ∷ b'i' ∷ b'e' ∷ b'n' ∷ b't' ∷ b'_' ∷ b'i' ∷ b'd' ∷ b' ' ∷ b's' ∷ b'e'
          ∷ b'r' ∷ b'v' ∷ b'e' ∷ b'r' ∷ b'_' ∷ b'a' ∷ b'd' ∷ b'd' ∷ b'r' ∷ b'e' ∷ b's' ∷ b's' ∷ b' '
          ∷ b's' ∷ b'e' ∷ b'r' ∷ b'v' ∷ b'e' ∷ b'r' ∷ b'_' ∷ b'p' ∷ b'o' ∷ b'r' ∷ b't' ∷ b'\n' ∷ [])

-- `DIE(ret == 0, "inet_aton")`
abbrev pub some_or_die : Option ℕ → Outcome ℕ
some_or_die none = die
some_or_die (some ip) = ok ip

-- The loops behind an authentication that succeeded.
abbrev pub go_on : Doubles → List Turn → Option Client → Outcome (Option Client)
go_on d turns none = ok none
go_on d turns (some c) = do c' ← work d turns minus_one c; ok (some c')

-- The memory is the stack's.
unfoldable pub client_main :
    Doubles → List (List ℕ) → Connection → Memory → List Turn → Outcome (Launched (Option Client))
client_main d (file ∷ id ∷ address ∷ port ∷ rest) k stack turns =
    if leb client_id_len (length id) then die else (do
      id_array ← memcpy (stack.fresh client_id_len) 0 (id ++ 0 ∷ [])
      ip ← some_or_die (k.aton address)
      portno ← atoi port
      joined ←
          join k.turn stack k.fd k.done (record { s_addr = ip; sin_port = htons portno }) id_array
      left ← go_on d turns joined
      ok (runs left))
client_main d (file ∷ rest) k stack turns = ok (usage (usage_text file))
client_main d [] k stack turns = fault
