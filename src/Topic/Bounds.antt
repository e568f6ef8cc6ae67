-- ===== src/Topic/Bounds.antt =====
-- How much `parse_topic_value_to_string` writes, and that its memory is enough.
use tema2_pc_client_server_t.Base.{
  ℕ, zero, suc, ◌-◌, ◌≤◌, ◌≡◌, refl, Bool-cases, inl, inr, List, [], ◌∷◌, ◌++◌, arith, length, take,
  drop, length-append, length-take, drop_all, append-nil, Outcome, ok, ◌==◌, ==_iff, if◌then◌else◌,
}
use tema2_pc_client_server_t.Base.Words.{memcpy_fits, write_at, write_at_front}
use tema2_pc_client_server_t.Base.CString.{c_str}
use tema2_pc_client_server_t.App.Display.{Doubles}
use tema2_pc_client_server_t.Topic.{
  data_type_of, data_of, size_of, snprintf, parse_topic_value_to_string,
}

-- The bytes that `str` has to have, by the data type.
unfoldable pub limit_of : List ℕ → ℕ
limit_of mem =
    let data_type = data_type_of mem in
    if data_type == 0
    then 12
    else if data_type == 1
    then 7
    else if data_type == 2
    then 13
    else if data_type == 3
    then size_of mem
    else 0

-- What lies behind the first `n` bytes is kept.
abbrev pub KeepsBehind : ℕ → List ℕ → Outcome (List ℕ) → Type 0
KeepsBehind n str run = (str' : List ℕ) × (run ≡ ok str') × (drop n str' ≡ drop n str)

drop-append_le :
    (n : ℕ) (xs ys : List ℕ) → length xs ≤ n → drop n (xs ++ drop (length xs) ys) ≡ drop n ys
drop-append_le n [] ys h = refl
drop-append_le zero (x ∷ xs) ys h = absurd (omega arith)
drop-append_le (suc n) (x ∷ xs) [] h = ground (arith, append-nil xs, drop_all n xs (omega arith))
drop-append_le (suc n) (x ∷ xs) (y ∷ ys) h = drop-append_le n xs ys (omega arith)

pub snprintf-KeepsBehind :
    (str : List ℕ) (n : ℕ) (text : List ℕ)
    → n ≤ length str
    → KeepsBehind n str (snprintf str n text)
unfolding snprintf
snprintf-KeepsBehind str zero text h = (str, refl, refl)
snprintf-KeepsBehind str (suc n) text h =
    let bs = take (suc n - 1) text ++ 0 ∷ [] in
    let l : length bs ≤ suc n =
      omega (arith, length-append (take (suc n - 1) text) (0 ∷ []), length-take (suc n - 1) text) in
    (
      write_at str 0 bs,
      ground (arith, memcpy_fits str 0 bs (omega (arith, l))),
      rw (write_at_front str bs) (drop-append_le (suc n) bs str l),
    )

-- For any data, `parse_topic_value_to_string` writes to the front of the memory at `str` only: 12
-- bytes at most for INT, 7 for SHORT_REAL, 13 for FLOAT, the `size_t` that `size` becomes for
-- STRING, and none for any other data type. If `str` has as many bytes, and the text of a STRING
-- ends within its object, there is no access out of bounds.
pub to_string-KeepsBehind :
    (d : Doubles) (mem str : List ℕ)
    → (data_type_of mem ≡ 3 → (text : List ℕ) × (c_str (data_of mem) ≡ ok text))
    → limit_of mem ≤ length str
    → KeepsBehind (limit_of mem) str (parse_topic_value_to_string d mem str)
unfolding parse_topic_value_to_string limit_of
to_string-KeepsBehind d mem str ends h = elim (Bool-cases (data_type_of mem == 0)) [
  | inl e ↦ rw e (snprintf-KeepsBehind str 12 _ (ground arith))
  | inr e0 ↦ elim (Bool-cases (data_type_of mem == 1)) [
    | inl e ↦ rw (e0, e) (snprintf-KeepsBehind str 7 _ (ground arith))
    | inr e1 ↦ elim (Bool-cases (data_type_of mem == 2)) [
      | inl e ↦ rw (e0, e1, e) (snprintf-KeepsBehind str 13 _ (ground arith))
      | inr e2 ↦ elim (Bool-cases (data_type_of mem == 3)) [
        | inl e ↦
            let (text, t) = ends ((==_iff (data_type_of mem) 3).0 e) in
            rw (e0, e1, e2, e, t) (snprintf-KeepsBehind str (size_of mem) text (ground arith))
        | inr e3 ↦ rw (e0, e1, e2, e3) (str, refl, refl)
      ]
    ]
  ]
]
