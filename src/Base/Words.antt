-- ===== src/Base/Words.antt =====
-- Machine words as native numbers, and their bytes in memory on a little-endian host.
use tema2_pc_client_server_t.Base.{
  ℕ, zero, suc, ◌+◌, ◌-◌, ◌*◌, ◌/◌, ◌%◌, ◌^◌, ◌≤◌, ◌<◌, ◌≡◌, refl, ap, subst, List, [], ◌∷◌, ◌++◌,
  reverse, arith, length, take, drop, length-append, length-take, length-drop, take-append,
  drop-append_add, append_assoc, All, All-append, All-take, All-drop, Outcome, ok, fault, leb,
  if◌then◌else◌,
}

-- `uint32_t` and `size_t` subtraction.
unfoldable pub sub32 : ℕ → ℕ → ℕ
sub32 a b = (a + 2 ^ 32 - b) % 2 ^ 32

unfoldable pub sub64 : ℕ → ℕ → ℕ
sub64 a b = (a + 2 ^ 64 - b) % 2 ^ 64

pub sub32-le : (a b : ℕ) → b ≤ a → a < 2 ^ 32 → sub32 a b ≡ a - b
unfolding sub32
sub32-le a b h k = omega arith

pub sub64-le : (a b : ℕ) → b ≤ a → a < 2 ^ 64 → sub64 a b ≡ a - b
unfolding sub64
sub64-le a b h k = omega arith

abbrev pub IsBytes : List ℕ → Type 0
IsBytes = All (λ b. b < 256)

-- The `n` bytes in memory of a word, lowest first, and the word that bytes in memory stand for.
abbrev pub word_bytes : ℕ → ℕ → List ℕ
word_bytes zero x = []
word_bytes (suc n) x = x % 256 ∷ word_bytes n (x / 256)

abbrev pub bytes_word : List ℕ → ℕ
bytes_word [] = 0
bytes_word (b ∷ bs) = b + 256 * bytes_word bs

-- `ntohl` and `htonl` reverse the four bytes, `ntohs` and `htons` the two.
unfoldable pub swap32 : ℕ → ℕ
swap32 x = bytes_word (reverse (word_bytes 4 x))

unfoldable pub swap16 : ℕ → ℕ
swap16 x = bytes_word (reverse (word_bytes 2 x))

pub length-word_bytes : (n x : ℕ) → length (word_bytes n x) ≡ n
length-word_bytes zero x = refl
length-word_bytes (suc n) x = ap suc (length-word_bytes n (x / 256))

pub word_bytes-IsBytes : (n x : ℕ) → IsBytes (word_bytes n x)
word_bytes-IsBytes zero x = tt
word_bytes-IsBytes (suc n) x = (omega arith, word_bytes-IsBytes n (x / 256))

pub word_bytes-bytes_word : (bs : List ℕ) → IsBytes bs → word_bytes (length bs) (bytes_word bs) ≡ bs
word_bytes-bytes_word [] h = refl
word_bytes-bytes_word (b ∷ bs) h = ground (arith, high, low, word_bytes-bytes_word bs h.1)
  where
    high : (b + 256 * bytes_word bs) / 256 ≡ bytes_word bs
    high = omega (arith, h.0)

    low : (b + 256 * bytes_word bs) % 256 ≡ b
    low = omega (arith, h.0)

pub swap32-swap32 : (x : ℕ) → x < 2 ^ 32 → swap32 (swap32 x) ≡ x
unfolding swap32
swap32-swap32 x h = omega arith

pub swap16-swap16 : (x : ℕ) → x < 2 ^ 16 → swap16 (swap16 x) ≡ x
unfolding swap16
swap16-swap16 x h = omega arith

-- `memcpy(mem + off, bs, length bs)`: what lies behind the bytes written stays.
unfoldable pub write_at : List ℕ → ℕ → List ℕ → List ℕ
write_at mem off bs = take off mem ++ (bs ++ drop (off + length bs) mem)

-- A copy that does not fit its object is undefined behaviour.
unfoldable pub memcpy : List ℕ → ℕ → List ℕ → Outcome (List ℕ)
memcpy mem off bs = if leb (off + length bs) (length mem) then ok (write_at mem off bs) else fault

pub memcpy_fits :
    (mem : List ℕ) (off : ℕ) (bs : List ℕ)
    → off + length bs ≤ length mem
    → memcpy mem off bs ≡ ok (write_at mem off bs)
unfolding memcpy
memcpy_fits mem off bs h = ground arith

pub length-write_at :
    (mem : List ℕ) (off : ℕ) (bs : List ℕ)
    → off + length bs ≤ length mem
    → length (write_at mem off bs) ≡ length mem
unfolding write_at
length-write_at mem off bs h = omega (
  arith,
  length-append (take off mem) (bs ++ drop (off + length bs) mem),
  length-append bs (drop (off + length bs) mem),
  length-take off mem,
  length-drop (off + length bs) mem,
)

-- What the memory holds up to the end of the bytes written.
pub take-write_at :
    (mem : List ℕ) (off : ℕ) (bs : List ℕ) (n : ℕ)
    → off + length bs ≤ length mem
    → n ≡ off + length bs
    → take n (write_at mem off bs) ≡ take off mem ++ bs
unfolding write_at
take-write_at mem off bs n h e = ground (
  arith,
  append_assoc (take off mem) bs (drop (off + length bs) mem),
  take-append n (take off mem ++ bs) (drop (off + length bs) mem),
  length-append (take off mem) bs,
  length-take off mem,
)

pub write_at-IsBytes :
    (mem : List ℕ) (off : ℕ) (bs : List ℕ)
    → IsBytes mem
    → IsBytes bs
    → IsBytes (write_at mem off bs)
unfolding write_at
write_at-IsBytes mem off bs hm hb =
    All-append _ (take off mem) _ (All-take _ off mem hm)
      (All-append _ bs _ hb (All-drop _ (off + length bs) mem hm))

-- Bytes stored in the memory of a `uint32_t`, behind the first `off`.
pub word_bytes-store :
    (x off : ℕ) (bs : List ℕ)
    → off + length bs ≤ 4
    → IsBytes bs
    → word_bytes 4 (bytes_word (write_at (word_bytes 4 x) off bs))
      ≡ write_at (word_bytes 4 x) off bs
word_bytes-store x off bs h b =
    subst (λ n. word_bytes n (bytes_word stored) ≡ stored)
      (length-write_at (word_bytes 4 x) off bs h)
      (word_bytes-bytes_word stored
        (write_at-IsBytes (word_bytes 4 x) off bs (word_bytes-IsBytes 4 x) b))
  where
    stored : List ℕ
    stored = write_at (word_bytes 4 x) off bs

-- The four bytes of `htonl(x)` in memory, read highest first.
pub bytes_word-reverse-swap32 :
    (x : ℕ) → x < 2 ^ 32 → bytes_word (reverse (word_bytes 4 (swap32 x))) ≡ x
unfolding swap32
bytes_word-reverse-swap32 x h = swap32-swap32 x h

-- A write to the front of the memory, and one right behind what is there.
pub write_at_front : (mem bs : List ℕ) → write_at mem 0 bs ≡ bs ++ drop (length bs) mem
unfolding write_at
write_at_front mem bs =
    let e : 0 + length bs ≡ length bs = omega arith in ap (λ (i : ℕ). bs ++ drop i mem) e

pub write_at_next :
    (n : ℕ) (front mem bs : List ℕ)
    → length front ≡ n
    → write_at (front ++ mem) n bs ≡ front ++ (bs ++ drop (length bs) mem)
unfolding write_at
write_at_next n front mem bs h =
    rw (take-append n front mem h, drop-append_add n (length bs) front mem h)

pub write_at_one :
    (x : ℕ) (mem bs : List ℕ) → write_at (x ∷ mem) 1 bs ≡ x ∷ (bs ++ drop (length bs) mem)
unfolding write_at
write_at_one x mem bs =
    let e : 1 + length bs ≡ suc (length bs) = omega arith in
    ap (λ (i : ℕ). x ∷ (bs ++ drop i (x ∷ mem))) e
