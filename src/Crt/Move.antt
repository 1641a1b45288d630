-- ===== src/Crt/Move.antt =====
-- memmove of pal/nt4_crt.c copies, whether its two ranges overlap or not.
use instagram_on_nt.Prelude.{
  ℕ, zero, suc, ◌+◌, ◌-◌, ◌<◌, ◌≤◌, ◌≡◌, sym, ap, ◌∙◌, arith, ◌==◌, ◌&&◌, List, ltb, leb,
  if◌then◌else◌, if_elim, get_or, set, length, length-set, get_or-set_self, get_or-set_ne,
  Bool-cases, inl, inr,
}
use instagram_on_nt.Crt.{copy_up, copy_down, memmove}

-- The byte at `j` after `n` bytes from `s` on have been copied to `d`.
abbrev pub moved : List ℕ → ℕ → ℕ → ℕ → ℕ → ℕ
moved m d s n j = if leb d j && ltb j (d + n) then get_or m (s + (j - d)) 0 else get_or m j 0

write :
    (m : List ℕ) (i v j : ℕ)
    → i < length m
    → get_or (set m i v) j 0 ≡ (if i == j then v else get_or m j 0)
write m i v j h = elim (Bool-cases (i == j)) [
  | inl e ↦
      let q : i ≡ j = ground arith in
      ap (λ k. get_or (set m i v) k 0) (sym q)
      ∙ get_or-set_self m i v 0 h
      ∙ ap (λ b. if b then v else get_or m j 0) (sym e)
  | inr e ↦
      get_or-set_ne m i j v 0 (λ q. absurd (ground arith))
      ∙ ap (λ b. if b then v else get_or m j 0) (sym e)
]

copy_up-moved :
    (m : List ℕ) (d s n j : ℕ)
    → d ≤ s
    → d + n ≤ length m
    → get_or (copy_up m d s n) j 0 ≡ moved m d s n j
unfolding copy_up
copy_up-moved m d s zero j h k = ground arith
copy_up-moved m d s (suc n) j h k =
    let v = get_or m s 0 in
    let ih =
      copy_up-moved (set m d v) (d + 1) (s + 1) n j (omega arith)
        (omega (arith, length-set m d v)) in
    let w = write m d v j (omega arith) in
    let u = write m d v (s + 1 + (j - (d + 1))) (omega arith) in ih ∙ ground (arith, w, u)

copy_down-moved :
    (m : List ℕ) (d s n j : ℕ)
    → s ≤ d
    → d + n ≤ length m
    → get_or (copy_down m d s n) j 0 ≡ moved m d s n j
unfolding copy_down
copy_down-moved m d s zero j h k = ground arith
copy_down-moved m d s (suc n) j h k =
    let v = get_or m (s + n) 0 in
    let ih = copy_down-moved (set m (d + n) v) d s n j h (omega (arith, length-set m (d + n) v)) in
    let w = write m (d + n) v j (omega arith) in
    let u = write m (d + n) v (s + (j - d)) (omega arith) in ih ∙ ground (arith, w, u)

-- If the target range lies in memory, memmove leaves at each address what stood at the matching address of
-- the source before the call, if the address lies in the target range, and what stood there before
-- otherwise, however the two ranges overlap.
pub memmove-moved :
    (m : List ℕ) (dst src n j : ℕ)
    → dst + n ≤ length m
    → get_or (memmove m dst src n) j 0 ≡ moved m dst src n j
unfolding memmove
memmove-moved m dst src n j h =
    if_elim (λ t. get_or t j 0 ≡ moved m dst src n j) (ltb dst src)
      (λ e. copy_up-moved m dst src n j (ground arith) h)
      (λ e. copy_down-moved m dst src n j (ground arith) h)
