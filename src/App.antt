-- ===== src/App.antt =====
-- tcp_app.cpp and tcp_app.h: the command packets, and subscriber.cpp's packets of news. A struct
-- that lies over a buffer is the buffer: `type` at 0, `id` or `topic` from 1 on.
pub mod News
pub mod Display
pub mod Shown
pub mod Values
pub mod Numbers
pub mod Topics
pub mod Tests
use tema2_pc_client_server_t.Base.{
  ℕ, zero, suc, ◌+◌, ◌≡◌, Bool, List, [], ◌∷◌, drop, get_or, Outcome, ok, ◌>>=◌, ltb, if◌then◌else◌,
}
use tema2_pc_client_server_t.Base.Words.{memcpy}
use tema2_pc_client_server_t.Base.CString.{strncpy, strnlen}

abbrev pub topic_len : ℕ
topic_len = 50

abbrev pub client_id_len : ℕ
client_id_len = 11

-- `sizeof(cli_packet)`
abbrev pub cli_packet_size : ℕ
cli_packet_size = 65

abbrev pub type_auth : ℕ
type_auth = 1

abbrev pub type_sub : ℕ
type_sub = 2

abbrev pub type_sub_sf : ℕ
type_sub_sf = 3

abbrev pub type_unsub : ℕ
type_unsub = 4

abbrev pub type_auth_duplicate : ℕ
type_auth_duplicate = 5

abbrev pub type_not_auth : ℕ
type_not_auth = 6

abbrev pub type_invalid : ℕ
type_invalid = 7

-- Each generator returns the buffer and `*len`.
unfoldable pub generate_tcp_auth_packet : List ℕ → List ℕ → Outcome (List ℕ × ℕ)
generate_tcp_auth_packet id buf = do
  typed ← memcpy buf 0 (type_auth ∷ [])
  name ← strncpy client_id_len id
  named ← memcpy typed 1 name
  ok (named, 1 + client_id_len)

-- The argument `type` is not looked at.
unfoldable pub change_tcp_type_packet : ℕ → List ℕ → Outcome (List ℕ × ℕ)
change_tcp_type_packet type buf = do typed ← memcpy buf 0 (type_auth_duplicate ∷ []); ok (typed, 1)

unfoldable pub generate_tcp_sub_packet : ℕ → List ℕ → List ℕ → Outcome (List ℕ × ℕ)
generate_tcp_sub_packet type topic buf = do
  name ← strncpy topic_len topic
  named ← memcpy buf 1 name
  typed ← memcpy named 0 (type ∷ [])
  n ← strnlen (drop 1 typed) topic_len
  ok (typed, 1 + n)

-- `expected_size` is `buf - (char*)(&packet->type)`, which is 0, and 1 more.
unfoldable pub get_tcp_packet_type : List ℕ → ℕ → ℕ
get_tcp_packet_type buf len = if ltb len 1 then type_invalid else get_or buf 0 0
