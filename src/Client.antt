-- ===== src/Client.antt =====
-- client.cpp: `parse_subscription_cmd`; Client/Main has its `main`. `strtok` is a function of the
-- text that is left to it: the word and the text behind it, or none, which stands for NULL.
pub mod Main
pub mod Entry
pub mod Words
pub mod Parse
pub mod Buffer
pub mod Typed
pub mod Joining
pub mod Shows
pub mod Invariant
pub mod Bounded
pub mod Keeping
pub mod Rounds
pub mod Tests
use tema2_pc_client_server_t.Base.{
  ℕ, ◌≡◌, Bool, ◌||◌, Option, none, some, List, [], ◌∷◌, ◌++◌, length, take, get_or, Outcome, ok,
  fault, ◌>>=◌, ◌==◌, if◌then◌else◌,
}
use tema2_pc_client_server_t.Base.Words.{memcpy}
use tema2_pc_client_server_t.Base.Map.{same_text}
use tema2_pc_client_server_t.Base.CString.{c_str, strncpy}
use tema2_pc_client_server_t.Framing.{Memory}
use tema2_pc_client_server_t.App.{topic_len, type_sub, type_sub_sf, type_unsub}

abbrev pub unknown_command : ℕ
unknown_command = 1

abbrev pub max_command_size : ℕ
max_command_size = 256

-- The delimiters " \n".
abbrev pub is_delim : ℕ → Bool
is_delim b = b == 32 || b == 10

unfoldable pub skip_delims : List ℕ → List ℕ
skip_delims [] = []
skip_delims (b ∷ bs) = let rest = skip_delims bs in if is_delim b then rest else b ∷ bs

-- The word at the front of a text, and the text behind the delimiter that ends it.
unfoldable pub word : List ℕ → List ℕ × List ℕ
word [] = ([], [])
word (b ∷ bs) = let (w, rest) = word bs in if is_delim b then ([], bs) else (b ∷ w, rest)

abbrev pub word_in : List ℕ → Option (List ℕ × List ℕ)
word_in [] = none
word_in (b ∷ bs) = some (word (b ∷ bs))

unfoldable pub strtok : List ℕ → Option (List ℕ × List ℕ)
unfolding skip_delims word
strtok text = word_in (skip_delims text)

-- `strncmp(p, name, strlen(name)) == 0`
abbrev pub begins : List ℕ → List ℕ → Bool
begins name p = same_text (take (length name) p) name

abbrev pub subscribe_name : List ℕ
subscribe_name = b's' ∷ b'u' ∷ b'b' ∷ b's' ∷ b'c' ∷ b'r' ∷ b'i' ∷ b'b' ∷ b'e' ∷ []

abbrev pub unsubscribe_name : List ℕ
unsubscribe_name = b'u' ∷ b'n' ∷ subscribe_name

-- The value returned, `*type` and the memory at `topic`.
pub record Parsed : Type 0 where
  pub status : ℕ
  pub type : ℕ
  pub topic : List ℕ

-- What follows the topic of a `subscribe`.
unfoldable pub read_sf : ℕ → List ℕ → List ℕ → Parsed
unfolding strtok
read_sf type topic text = elim (strtok text) [
  | none ↦ record { status = unknown_command; type = type; topic = topic }
  | some (p, rest) ↦ record {
    status = 0;
    type = if get_or p 0 0 == b'1' then type_sub_sf else type;
    topic = topic;
  }
]

-- What follows the name of a command.
unfoldable pub read_topic : ℕ → List ℕ → List ℕ → Outcome Parsed
unfolding strtok read_sf
read_topic type topic text = elim (strtok text) [
  | none ↦ ok (record { status = unknown_command; type = type; topic = topic })
  | some (p, rest) ↦ do
    name ← strncpy topic_len (p ++ 0 ∷ [])
    topic' ← memcpy topic 0 name
    ok (
        if type == type_unsub
        then record { status = 0; type = type; topic = topic' }
        else read_sf type topic' rest)
]

-- The text of a command. On a text with no word, `strncmp` gets NULL.
unfoldable pub read_line : ℕ → List ℕ → List ℕ → Outcome Parsed
unfolding strtok read_topic
read_line type topic text = elim (strtok text) [
  | none ↦ fault
  | some (p, rest) ↦
      if begins subscribe_name p
      then read_topic type_sub topic rest
      else if begins unsubscribe_name p
      then read_topic type_unsub topic rest
      else ok (record { status = unknown_command; type = type; topic = topic })
]

-- On the memory at `type`, `topic` and `buf`.
unfoldable pub parse_subscription_cmd : Memory → ℕ → List ℕ → List ℕ → ℕ → Outcome Parsed
unfolding read_line
parse_subscription_cmd mem type topic buf size = do
  bytes ← strncpy size buf
  str ← memcpy (mem.fresh max_command_size) 0 bytes
  text ← c_str str
  read_line type topic text
