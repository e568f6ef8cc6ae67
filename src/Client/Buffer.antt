-- ===== src/Client/Buffer.antt =====
-- The client's buffer behind `fgets`.
use tema2_pc_client_server_t.Base.{
  ℕ, suc, ◌+◌, ◌-◌, ◌≤◌, ◌<◌, ◌≡◌, refl, sym, ◌∙◌, ap, false, List, [], ◌∷◌, ◌++◌, append_assoc,
  arith, length, length-append, drop, length-drop, All-append, ok, ◌==◌,
}
use tema2_pc_client_server_t.Base.Map.{int_key}
use tema2_pc_client_server_t.Base.Words.{
  memcpy, memcpy_fits, write_at, write_at_front, write_at_next, length-write_at,
}
use tema2_pc_client_server_t.Base.CString.{IsText, c_str, c_str_text, nuls, length-nuls}
use tema2_pc_client_server_t.Client.Main.{type_line}

module _ (text buffer : List ℕ) (t : IsText text) (l : length text < 254)
    (size : 256 ≤ length buffer) where
  abbrev pub cleared : List ℕ
  cleared = write_at buffer 0 (nuls 256)

  -- What is behind the NUL of `fgets`.
  abbrev pub rest : List ℕ
  rest = drop (length text + 2) cleared

  abbrev pub read_in : List ℕ
  read_in = text ++ 10 ∷ 0 ∷ rest

  length-cleared : length cleared ≡ length buffer
  length-cleared = length-write_at buffer 0 (nuls 256) (omega (arith, length-nuls 256))

  length-read_in : length read_in ≡ length buffer
  length-read_in = omega (
    arith,
    length-append text (10 ∷ 0 ∷ rest),
    length-drop (length text + 2) cleared,
    length-cleared,
  )

  fgets_lem : memcpy cleared 0 ((text ++ 10 ∷ []) ++ 0 ∷ []) ≡ ok read_in
  fgets_lem =
      memcpy_fits cleared 0 ((text ++ 10 ∷ []) ++ 0 ∷ []) (
        omega (
          arith,
          length-append (text ++ 10 ∷ []) (0 ∷ []),
          length-append text (10 ∷ []),
          length-cleared,
        ))
      ∙ ap ok (
          write_at_front cleared ((text ++ 10 ∷ []) ++ 0 ∷ [])
          ∙ rw
              (
                append_assoc text (10 ∷ []) (0 ∷ []),
                append_assoc text (10 ∷ 0 ∷ []) (drop (length (text ++ 10 ∷ 0 ∷ [])) cleared),
                length-append text (10 ∷ 0 ∷ []),
              )
              refl)

  strlen_lem : c_str read_in ≡ ok (text ++ 10 ∷ [])
  strlen_lem =
      ap c_str (sym (append_assoc text (10 ∷ []) (0 ∷ rest)))
      ∙ c_str_text (text ++ 10 ∷ []) rest
          (All-append (λ b. 0 < b) text (10 ∷ []) t (omega arith, tt))

  chop_lem : memcpy read_in (length text) (0 ∷ []) ≡ ok (text ++ 0 ∷ 0 ∷ rest)
  chop_lem =
      memcpy_fits read_in (length text) (0 ∷ []) (omega (arith, length-read_in))
      ∙ ap ok (write_at_next (length text) text (10 ∷ 0 ∷ rest) (0 ∷ []) refl)

  -- The buffer holds the line without its newline.
  pub type_line_lem : type_line (text ++ 10 ∷ []) buffer ≡ ok (text ++ 0 ∷ 0 ∷ rest)
  unfolding type_line
  type_line_lem =
      let n1 : length (text ++ 10 ∷ []) ≡ suc (length text) =
        omega (arith, length-append text (10 ∷ [])) in
      let full : (suc (length text) == 0) ≡ false = ground arith in
      let back : suc (length text) - 1 ≡ length text = omega arith in
      rw
        (
          memcpy_fits buffer 0 (nuls 256) (omega (arith, length-nuls 256)),
          n1,
          full,
          fgets_lem,
          strlen_lem,
          n1,
          full,
          back,
          chop_lem,
        )
        refl

  pub length-typed : length (text ++ 0 ∷ 0 ∷ rest) ≡ length buffer
  length-typed =
      omega (
        arith,
        length-read_in,
        length-append text (10 ∷ 0 ∷ rest),
        length-append text (0 ∷ 0 ∷ rest),
      )
