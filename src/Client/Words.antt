-- ===== src/Client/Words.antt =====
-- What `strtok` finds in a line of words.
use tema2_pc_client_server_t.Base.{
  ℕ, ◌≡◌, ◌<◌, refl, true, false, none, some, List, [], ◌∷◌, ◌++◌, arith, length, All,
}
use tema2_pc_client_server_t.Client.{is_delim, skip_delims, word, strtok}

-- A word has a byte, and neither delimiters nor a NUL.
abbrev pub IsWord : List ℕ → Type 0
IsWord w = (0 < length w) × All (λ b. (0 < b) × (is_delim b ≡ false)) w

word_lem :
    (w rest : List ℕ)
    → All (λ b. (0 < b) × (is_delim b ≡ false)) w
    → word (w ++ 32 ∷ rest) ≡ (w, rest)
unfolding word
word_lem [] rest h = refl
word_lem (b ∷ w) rest h = rw (word_lem w rest h.1, h.0.1)

word_end : (w : List ℕ) → All (λ b. (0 < b) × (is_delim b ≡ false)) w → word w ≡ (w, [])
unfolding word
word_end [] h = refl
word_end (b ∷ w) h = rw (word_end w h.1, h.0.1)

pub strtok_word : (w rest : List ℕ) → IsWord w → strtok (w ++ 32 ∷ rest) ≡ some (w, rest)
unfolding strtok skip_delims
strtok_word [] rest (l, h) = absurd (omega arith)
strtok_word (b ∷ w) rest (l, h) = rw (h.0.1, word_lem (b ∷ w) rest h)

pub strtok_end : (w : List ℕ) → IsWord w → strtok w ≡ some (w, [])
unfolding strtok skip_delims
strtok_end [] (l, h) = absurd (omega arith)
strtok_end (b ∷ w) (l, h) = rw (h.0.1, word_end (b ∷ w) h)

-- Nothing but delimiters.
abbrev pub IsBlank : List ℕ → Type 0
IsBlank = All (λ b. is_delim b ≡ true)

pub strtok_blank : (t : List ℕ) → IsBlank t → strtok t ≡ none
unfolding strtok skip_delims
strtok_blank [] h = refl
strtok_blank (b ∷ t) h = rw (h.0) (strtok_blank t h.1)
