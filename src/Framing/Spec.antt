-- ===== src/Framing/Spec.antt =====
-- The framing protocol itself, byte by byte (readme.txt, "Protocolul de incadrare"): four bytes of
-- length, highest first, then so many bytes of packet. It knows nothing of buffers or of chunks.
use tema2_pc_client_server_t.Base.{
  ℕ, zero, suc, ◌+◌, ◌-◌, ◌<◌, ◌≤◌, ◌≡◌, refl, Option, none, some, List, [], ◌∷◌, ◌++◌, reverse,
  append-nil, append_assoc, arith, length, length-append, take, drop, length-take, take-append-drop,
  ltb, ◌==◌, if◌then◌else◌,
}
use tema2_pc_client_server_t.Base.Words.{bytes_word}

-- A part of the length, or `need` bytes to come behind those that are there.
pub data Pending : Type 0 where
  header : List ℕ → Pending
  body : ℕ → List ℕ → Pending

-- The packet that is being received, and those received, oldest first.
pub record View : Type 0 where
  pub pending : Pending
  pub packets : List (List ℕ)

abbrev pub limit : ℕ
limit = 65536

-- The length is known.
abbrev pub size_known : ℕ → List (List ℕ) → Option View
size_known n ps = if ltb limit n then none else some (record { pending = body n []; packets = ps })

abbrev pub feed_header : List ℕ → List (List ℕ) → ℕ → Option View
feed_header h ps b =
    if length h == 3
    then size_known (bytes_word (reverse (h ++ b ∷ []))) ps
    else some (record { pending = header (h ++ b ∷ []); packets = ps })

-- One byte more; `none` is a length above the limit. An empty packet is complete when the byte
-- behind its length comes.
abbrev pub feed : Pending → List (List ℕ) → ℕ → Option View
feed (header h) ps b = feed_header h ps b
feed (body zero got) ps b = feed_header [] (ps ++ got ∷ []) b
feed (body (suc zero) got) ps b =
    some (record { pending = header []; packets = ps ++ (got ++ b ∷ []) ∷ [] })
feed (body (suc (suc n)) got) ps b =
    some (record { pending = body (suc n) (got ++ b ∷ []); packets = ps })

abbrev pub next {ℓ} : {A : Type ℓ} → Option A → (A → Option A) → Option A
next none f = none
next (some a) f = f a

unfoldable pub feeds : List ℕ → View → Option View
feeds [] v = some v
feeds (b ∷ bs) v = next (feed v.pending v.packets b) (feeds bs)

next-next {ℓ} :
    {A : Type ℓ} (f g h : A → Option A)
    → ((a : A) → h a ≡ next (f a) g)
    → (o : Option A) → next o h ≡ next (next o f) g
next-next f g h e none = refl
next-next f g h e (some a) = e a

-- Chunks do not matter to it.
pub feeds-append : (xs ys : List ℕ) (v : View) → feeds (xs ++ ys) v ≡ next (feeds xs v) (feeds ys)
unfolding feeds
feeds-append [] ys v = refl
feeds-append (x ∷ xs) ys v = next-next _ _ _ (feeds-append xs ys) (feed v.pending v.packets x)

-- The rules by which blocks of bytes are fed.
pub feeds-header_part :
    (xs h : List ℕ) (ps : List (List ℕ))
    → length h + length xs < 4
    → feeds xs (record { pending = header h; packets = ps })
      ≡ some (record { pending = header (h ++ xs); packets = ps })
unfolding feeds
feeds-header_part [] h ps l = rw append-nil
feeds-header_part (x ∷ xs) h ps l = ground (
  arith,
  feeds-header_part xs (h ++ x ∷ []) ps,
  length-append h (x ∷ []),
  append_assoc h (x ∷ []) xs,
)

pub feeds-header_whole :
    (xs h : List ℕ) (ps : List (List ℕ))
    → length h + length xs ≡ 4
    → 0 < length xs
    → feeds xs (record { pending = header h; packets = ps })
      ≡ size_known (bytes_word (reverse (h ++ xs))) ps
unfolding feeds
feeds-header_whole [] h ps l k = absurd (omega arith)
feeds-header_whole (x ∷ []) h ps l k = ground (arith)
feeds-header_whole (x ∷ y ∷ xs) h ps l k = ground (
  arith,
  feeds-header_whole (y ∷ xs) (h ++ x ∷ []) ps,
  length-append h (x ∷ []),
  append_assoc h (x ∷ []) (y ∷ xs),
)

pub feeds-body_part :
    (xs got : List ℕ) (n : ℕ) (ps : List (List ℕ))
    → length xs < n
    → feeds xs (record { pending = body n got; packets = ps })
      ≡ some (record { pending = body (n - length xs) (got ++ xs); packets = ps })
unfolding feeds
feeds-body_part [] got n ps l = ground (arith, append-nil got)
feeds-body_part (x ∷ xs) got zero ps l = absurd (omega arith)
feeds-body_part (x ∷ xs) got (suc zero) ps l = absurd (omega arith)
feeds-body_part (x ∷ xs) got (suc (suc n)) ps l =
    ground (arith, feeds-body_part xs (got ++ x ∷ []) (suc n) ps, append_assoc got (x ∷ []) xs)

pub feeds-body_whole :
    (xs got : List ℕ) (n : ℕ) (ps : List (List ℕ))
    → length xs ≡ n
    → 0 < n
    → feeds xs (record { pending = body n got; packets = ps })
      ≡ some (record { pending = header []; packets = ps ++ (got ++ xs) ∷ [] })
unfolding feeds
feeds-body_whole xs got zero ps l k = absurd (omega arith)
feeds-body_whole [] got (suc n) ps l k = absurd (omega arith)
feeds-body_whole (x ∷ []) got (suc zero) ps l k = refl
feeds-body_whole (x ∷ []) got (suc (suc n)) ps l k = absurd (omega arith)
feeds-body_whole (x ∷ y ∷ xs) got (suc zero) ps l k = absurd (omega arith)
feeds-body_whole (x ∷ y ∷ xs) got (suc (suc n)) ps l k = ground (
  arith,
  feeds-body_whole (y ∷ xs) (got ++ x ∷ []) (suc n) ps,
  append_assoc got (x ∷ []) (y ∷ xs),
)

-- A packet that ends among the bytes, or with them.
pub feeds-body_end :
    (n : ℕ) (buf got : List ℕ) (ps : List (List ℕ))
    → n ≤ length buf
    → 0 < length buf
    → feeds buf (record { pending = body n got; packets = ps })
      ≡ feeds
          (drop n buf)
          (record { pending = header []; packets = ps ++ (got ++ take n buf) ∷ [] })
unfolding feeds
feeds-body_end n [] got ps h k = absurd (omega arith)
feeds-body_end zero (b ∷ bs) got ps h k = rw (append-nil got)
feeds-body_end (suc n) (b ∷ bs) got ps h k = ground (
  arith,
  take-append-drop n bs,
  length-take n bs,
  feeds-append (b ∷ take n bs) (drop n bs) (record { pending = body (suc n) got; packets = ps }),
  feeds-body_whole (b ∷ take n bs) got (suc n) ps,
)

-- A length that ends among the bytes, or with them.
pub feeds-header_end :
    (n : ℕ) (buf h : List ℕ) (ps : List (List ℕ))
    → n ≤ length buf
    → 0 < n
    → length h + n ≡ 4
    → feeds buf (record { pending = header h; packets = ps })
      ≡ next (size_known (bytes_word (reverse (h ++ take n buf))) ps) (feeds (drop n buf))
feeds-header_end n buf h ps l k e = ground (
  arith,
  take-append-drop n buf,
  length-take n buf,
  feeds-append (take n buf) (drop n buf) (record { pending = header h; packets = ps }),
  feeds-header_whole (take n buf) h ps,
)

pub next-eq-some {ℓ} :
    {A : Type ℓ} (o : Option A) (f : A → Option A) {w : A}
    → next o f ≡ some w
    → (a : A) × (o ≡ some a) × (f a ≡ some w)
next-eq-some none f h = cc
next-eq-some (some a) f h = (a, refl, h)
