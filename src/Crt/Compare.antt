-- ===== src/Crt/Compare.antt =====
-- strcmp of pal/nt4_crt.c decides whether two strings are the same.
use instagram_on_nt.Prelude.{ℕ, ◌≡◌, refl, arith, ◌==◌, ◌&&◌, not, Bool, true, List, [], ◌∷◌, ◌↔◌}
use instagram_on_nt.Prelude.Int.{pos, ◌-ℤ◌}
use mathlib.Core.Path.{subst}
use instagram_on_nt.Crt.{strcmp}

-- The bytes of a string are not NUL.
unfoldable pub no_nul : List ℕ → Bool
no_nul [] = true
no_nul (c ∷ s) = not (c == 0) && no_nul s

strcmp-eq : (a b : List ℕ) → no_nul a ≡ true → no_nul b ≡ true → strcmp a b ≡ pos 0 → a ≡ b
unfolding strcmp no_nul ◌-ℤ◌
strcmp-eq [] [] p q e = refl
strcmp-eq [] (b ∷ t) p q e = absurd (ground arith)
strcmp-eq (a ∷ s) [] p q e = absurd (ground arith)
strcmp-eq (a ∷ s) (b ∷ t) p q e = ground (arith, strcmp-eq s t)

strcmp_self : (a : List ℕ) → strcmp a a ≡ pos 0
unfolding strcmp
strcmp_self [] = refl
strcmp_self (a ∷ s) = ground (arith, strcmp_self s)

-- On two strings, strcmp returns 0 exactly if they have the same bytes.
pub strcmp_iff : (a b : List ℕ) → no_nul a ≡ true → no_nul b ≡ true → (strcmp a b ≡ pos 0) ↔ (a ≡ b)
strcmp_iff a b p q = (strcmp-eq a b p q, λ e. subst (λ c. strcmp a c ≡ pos 0) e (strcmp_self a))
