-- ===== src/Topic.antt =====
-- topic.cpp and topic.h. The four structs are views of one object, the memory of a `topic_data`:
-- where a field lies is as on the platforms that the Makefile is for, with `uint32_t` aligned to 4
-- bytes and `uint16_t` to 2. `char` is signed. Of `double` there is the interface `Doubles`.
mod Agrees
mod Bounds
mod Errors
mod Tests
use tema2_pc_client_server_t.Base.{
  ℕ, ◌+◌, ◌-◌, ◌%◌, ◌^◌, Bool, not, ◌||◌, List, [], ◌∷◌, ◌++◌, take, drop, get_or, Outcome, ok,
  ◌>>=◌, ltb, ◌==◌, if◌then◌else◌,
}
use tema2_pc_client_server_t.Base.Words.{
  sub64, word_bytes, bytes_word, swap16, swap32, write_at, memcpy,
}
use tema2_pc_client_server_t.Base.CString.{c_str}
use tema2_pc_client_server_t.App.Display.{Doubles, read_bytes, signed_string, my_pow, sign_of}

-- `topic_data`: `topic` at 0, `data_type` at 50, `data` at 51, `size` at 1552.
abbrev pub topic_data_size : ℕ
topic_data_size = 1553

-- The `char` at an offset.
abbrev pub char_at : ℕ → List ℕ → ℕ
char_at off mem = get_or (drop off mem) 0 0

abbrev pub data_type_of : List ℕ → ℕ
data_type_of mem = char_at 50 mem

abbrev pub data_of : List ℕ → List ℕ
data_of mem = drop 51 mem

-- `topic->size` as a `size_t`.
abbrev pub size_of : List ℕ → ℕ
size_of mem = let size = char_at 1552 mem in if ltb size 128 then size else size + (2 ^ 64 - 256)

-- `topic_data_int` and `topic_data_float`: `sign` at 51, `value` at 52; `topic_data_float`: `e` at
-- 56.
abbrev pub sign_in : List ℕ → ℕ
sign_in mem = char_at 51 mem

abbrev pub word_in : List ℕ → ℕ
word_in mem = bytes_word (take 4 (drop 52 mem))

abbrev pub exponent_in : List ℕ → ℕ
exponent_in mem = char_at 56 mem

-- `topic_data_short`: `value` at 52, behind a byte of padding.
abbrev pub short_in : List ℕ → ℕ
short_in mem = bytes_word (take 2 (drop 52 mem))

-- The `switch` of `parse_topic`.
unfoldable pub to_host : ℕ → ℕ → List ℕ → List ℕ
to_host data_type size mem =
    if data_type == 0 || data_type == 2
    then write_at mem 52 (word_bytes 4 (swap32 (word_in mem)))
    else if data_type == 1
    then write_at mem 52 (word_bytes 2 (swap16 (short_in mem)))
    else if data_type == 3
    then write_at mem 1552 (sub64 (sub64 size 50) 1 % 256 ∷ [])
    else mem

-- `parse_topic(data, size, topic)`: what the object at `topic` holds.
unfoldable pub parse_topic : List ℕ → ℕ → List ℕ → Outcome (List ℕ)
unfolding to_host
parse_topic buf size mem = do
  (bytes, rest) ← read_bytes size buf
  filled ← memcpy mem 0 bytes
  ok (to_host (data_type_of filled) size filled)

-- What `snprintf(str, n, ...)` leaves at `str`, if the text is this.
unfoldable pub snprintf : List ℕ → ℕ → List ℕ → Outcome (List ℕ)
snprintf str n text = if n == 0 then ok str else memcpy str 0 (take (n - 1) text ++ 0 ∷ [])

-- `parse_topic_value_to_string(topic, str)`: what the memory at `str` holds.
unfoldable pub parse_topic_value_to_string : Doubles → List ℕ → List ℕ → Outcome (List ℕ)
unfolding snprintf
parse_topic_value_to_string d mem str =
    let data_type = data_type_of mem in
    if data_type == 0
    then snprintf str 12 (signed_string (not (sign_in mem == 0)) (word_in mem))
    else if data_type == 1
    then snprintf str 7 (d.write_fixed 6 (d.over (d.of_nat (short_in mem)) (d.of_nat 100)))
    else if data_type == 2
    then snprintf str 13 (
        d.write_fixed 6 (
          d.times (d.over (d.of_nat (word_in mem)) (my_pow d (d.of_nat 10) (exponent_in mem)))
            (sign_of d (sign_in mem ∷ []))))
    else if data_type == 3
    then (c_str (data_of mem) >>= snprintf str (size_of mem))
    else ok str
