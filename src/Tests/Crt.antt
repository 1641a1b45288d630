-- ===== src/Tests/Crt.antt =====
-- Runs of pal/nt4_crt.c, and its properties at concrete memory and strings.
use instagram_on_nt.Prelude.{ℕ, ◌≡◌, ◌↔◌, refl, arith, List, [], ◌∷◌, some, get_or, codes}
use instagram_on_nt.Prelude.Int.{pos}
use instagram_on_nt.Crt.{memmove, copy_up, copy_down, strcmp, strstr, starts_with}
use instagram_on_nt.Crt.Move.{moved, memmove-moved}
use instagram_on_nt.Crt.Compare.{no_nul, strcmp_iff}

abbrev memory : List ℕ
memory = 1 ∷ 2 ∷ 3 ∷ 4 ∷ 5 ∷ []

-- Three bytes, moved up by one over themselves.
memmove_lem : memmove memory 1 0 3 ≡ 1 ∷ 1 ∷ 2 ∷ 3 ∷ 5 ∷ []
unfolding memmove copy_up copy_down
memmove_lem = refl

memmove-moved_example : get_or (memmove memory 1 0 3) 2 0 ≡ moved memory 1 0 3 2
memmove-moved_example = memmove-moved memory 1 0 3 2 (omega arith)

strstr_lem : strstr (codes "a\r\nb") (codes "\r\n") ≡ some (codes "\r\nb")
unfolding strstr starts_with
strstr_lem = refl

strcmp_iff_example : (strcmp (codes "id") (codes "id") ≡ pos 0) ↔ (codes "id" ≡ codes "id")
unfolding no_nul
strcmp_iff_example = strcmp_iff (codes "id") (codes "id") refl refl
