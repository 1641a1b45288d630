-- ===== src/Raster/Cover.antt =====
-- Which pixels the rectangles of core/raster.c change, and to what.
use instagram_on_nt.Prelude.{
  ℕ, zero, suc, ◌+◌, ◌*◌, ◌<◌, ◌≤◌, ◌≡◌, refl, sym, ap, ◌∙◌, arith, ◌==◌, ◌&&◌, Bool, true, false,
  List, ltb, leb, get_or, set, length, length-set, get_or-set_self, get_or-set_ne, Bool-cases, inl,
  inr,
}
use instagram_on_nt.Raster.Draw.{row_loop, rows_loop}

-- `a ≤ j < a + n`
abbrev pub between_ℕ : ℕ → ℕ → ℕ → Bool
between_ℕ a n j = leb a j && ltb j (a + n)

-- Rows of `stride` words do not overlap.
row_below : (y py stride : ℕ) → y < py → y * stride + stride ≤ py * stride
row_below y py stride h = grind arith

same_row :
    (x w stride y py px : ℕ)
    → x + w ≤ stride
    → px < stride
    → between_ℕ (y * stride + x) w (py * stride + px) ≡ true
    → y ≡ py
same_row x w stride y py px h k b =
    let lo : y < py → ⊥ = λ l. let m = row_below y py stride l in ground arith in
    let hi : py < y → ⊥ = λ l. let m = row_below py y stride l in ground arith in
    ground (arith, lo, hi)

module _ (f : ℕ → ℕ) where
  length-row_loop : (ps : List ℕ) (i n : ℕ) → length (row_loop f ps i n) ≡ length ps
  unfolding row_loop
  length-row_loop ps i zero = refl
  length-row_loop ps i (suc n) =
      length-row_loop (set ps i (f (get_or ps i 0))) (i + 1) n ∙ length-set ps i (f (get_or ps i 0))

  -- A word before or behind the row is kept.
  row_loop-outside :
      (ps : List ℕ) (i n j : ℕ)
      → between_ℕ i n j ≡ false
      → get_or (row_loop f ps i n) j 0 ≡ get_or ps j 0
  unfolding row_loop
  row_loop-outside ps i zero j h = refl
  row_loop-outside ps i (suc n) j h =
      let v = f (get_or ps i 0) in
      row_loop-outside (set ps i v) (i + 1) n j (ground arith)
      ∙ get_or-set_ne ps i j v 0 (λ e. absurd (ground arith))

  row_loop-inside :
      (ps : List ℕ) (i n j : ℕ)
      → between_ℕ i n j ≡ true
      → i + n ≤ length ps
      → get_or (row_loop f ps i n) j 0 ≡ f (get_or ps j 0)
  unfolding row_loop
  row_loop-inside ps i zero j h l = absurd (ground arith)
  row_loop-inside ps i (suc n) j h l =
      let v = f (get_or ps i 0) in
      elim (Bool-cases (i == j)) [
        | inl e ↦
            let q : i ≡ j = ground arith in
            row_loop-outside (set ps i v) (i + 1) n j (ground arith)
            ∙ ap (λ k. get_or (set ps i v) k 0) (sym q)
            ∙ get_or-set_self ps i v 0 (omega arith)
            ∙ ap (λ k. f (get_or ps k 0)) q
        | inr e ↦
            row_loop-inside (set ps i v) (i + 1) n j (ground arith)
              (omega (arith, length-set ps i v))
            ∙ ap f (get_or-set_ne ps i j v 0 (λ e'. absurd (ground arith)))
      ]

  length-rows_loop :
      (ps : List ℕ) (stride x y w h : ℕ) → length (rows_loop f ps stride x y w h) ≡ length ps
  unfolding rows_loop
  length-rows_loop ps stride x y w zero = refl
  length-rows_loop ps stride x y w (suc h) =
      length-rows_loop (row_loop f ps (y * stride + x) w) stride x (y + 1) w h
      ∙ length-row_loop ps (y * stride + x) w

  module _ (stride x w px py : ℕ) (fits : x + w ≤ stride) (column : px < stride) where
    row_miss : (y : ℕ) → (y ≡ py → ⊥) → between_ℕ (y * stride + x) w (py * stride + px) ≡ false
    row_miss y h = elim (Bool-cases (between_ℕ (y * stride + x) w (py * stride + px))) [
      | inl e ↦ absurd (h (same_row x w stride y py px fits column e))
      | inr e ↦ e
    ]

    row_column :
        (y : ℕ) → y ≡ py → between_ℕ (y * stride + x) w (py * stride + px) ≡ between_ℕ x w px
    row_column y e = let q = ap (λ k. k * stride) e in ground arith

    pub rows_loop-outside :
        (ps : List ℕ) (y h : ℕ)
        → (between_ℕ y h py && between_ℕ x w px) ≡ false
        → get_or (rows_loop f ps stride x y w h) (py * stride + px) 0
          ≡ get_or ps (py * stride + px) 0
    unfolding rows_loop
    rows_loop-outside ps y zero h = refl
    rows_loop-outside ps y (suc n) h =
        rows_loop-outside (row_loop f ps (y * stride + x) w) (y + 1) n (ground arith)
        ∙ row_loop-outside ps (y * stride + x) w (py * stride + px) (elim (Bool-cases (y == py)) [
          | inl e ↦ row_column y (ground arith) ∙ ground arith
          | inr e ↦ row_miss y (ground arith)
        ])

    below :
        (ps : List ℕ) (y n : ℕ)
        → (y + suc n) * stride ≤ length ps
        → (y + 1 + n) * stride ≤ length (row_loop f ps (y * stride + x) w)
    below ps y n l = let e = length-row_loop ps (y * stride + x) w in grind arith

    pub rows_loop-inside :
        (ps : List ℕ) (y h : ℕ)
        → between_ℕ y h py ≡ true
        → between_ℕ x w px ≡ true
        → (y + h) * stride ≤ length ps
        → get_or (rows_loop f ps stride x y w h) (py * stride + px) 0
          ≡ f (get_or ps (py * stride + px) 0)
    unfolding rows_loop
    rows_loop-inside ps y zero h k l = absurd (ground arith)
    rows_loop-inside ps y (suc n) h k l =
        let j = py * stride + px in
        let row = row_loop f ps (y * stride + x) w in
        let room : y * stride + stride ≤ length ps = grind arith in
        elim (Bool-cases (y == py)) [
          | inl e ↦
              rows_loop-outside row (y + 1) n (ground arith)
              ∙ row_loop-inside ps (y * stride + x) w j (row_column y (ground arith) ∙ k)
                  (omega arith)
          | inr e ↦
              rows_loop-inside row (y + 1) n (ground arith) k (below ps y n l)
              ∙ ap f (row_loop-outside ps (y * stride + x) w j (row_miss y (ground arith)))
        ]
