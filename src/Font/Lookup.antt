-- ===== src/Font/Lookup.antt =====
-- hangul_lookup of core/font.c on a sorted table.
use instagram_on_nt.Prelude.{
  ℕ, zero, suc, ◌+◌, ◌-◌, ◌/◌, ◌<◌, ◌≤◌, ◌≡◌, ap, arith, ◌==◌, List, Option, none, some, ltb, leb,
  if_elim, get_or, length, ◌↔◌,
}
use mathlib.Core.Path.{subst}
use instagram_on_nt.Font.{lookup_loop, hangul_lookup}

-- The code points ascend.
abbrev pub Ascends : List ℕ → Type 0
Ascends table = (i j : ℕ) → i < j → j < length table → get_or table i 0 < get_or table j 0

-- What a search in `lo` .. `end` may return.
abbrev Found : List ℕ → ℕ → ℕ → Option ℕ → Type 0
Found table cp end none = Unit {0}
Found table cp end (some i) = (i < end) × (get_or table i 0 ≡ cp)

module _ (table : List ℕ) (cp : ℕ) where
  wider : (a b : ℕ) (o : Option ℕ) → a ≤ b → Found table cp a o → Found table cp b o
  wider a b none h f = tt
  wider a b (some i) h f = let l = f.0 in (omega arith, f.1)

  lookup_loop-Found : (fuel lo end : ℕ) → Found table cp end (lookup_loop fuel table cp lo end)
  unfolding lookup_loop
  lookup_loop-Found zero lo end = tt
  lookup_loop-Found (suc fuel) lo end =
      let mid = (lo + (end - 1)) / 2 in
      if_elim (Found table cp end) (leb end lo) (λ _. tt)
        (λ e.
          if_elim (Found table cp end) (get_or table mid 0 == cp)
            (λ q. (ground arith, ground arith))
            (λ _.
              if_elim (Found table cp end) (ltb (get_or table mid 0) cp)
                (λ _. lookup_loop-Found fuel (mid + 1) end)
                (λ _.
                  wider mid end (lookup_loop fuel table cp lo mid) (ground arith)
                    (lookup_loop-Found fuel lo mid))))

  module _ (up : Ascends table) (j : ℕ) (here : get_or table j 0 ≡ cp) where
    -- An index whose word is smaller stands before `j`, and one whose word is larger behind it.
    smaller : (m : ℕ) → j < length table → m < length table → get_or table m 0 < cp → m < j
    smaller m l k h = let u = up j m in ground (arith, here, u)

    larger : (m : ℕ) → j < length table → m < length table → cp < get_or table m 0 → j < m
    larger m l k h = let u = up m j in ground (arith, here, u)

    same : (m : ℕ) → j < length table → m < length table → get_or table m 0 ≡ cp → m ≡ j
    same m l k h = let u = up m j in let v = up j m in ground (arith, here, u, v)

    lookup_loop-finds :
        (fuel lo end : ℕ)
        → end ≤ length table
        → end < lo + fuel
        → lo ≤ j
        → j < end
        → lookup_loop fuel table cp lo end ≡ some j
    unfolding lookup_loop
    lookup_loop-finds zero lo end h k a b = absurd (omega arith)
    lookup_loop-finds (suc fuel) lo end h k a b =
        let mid = (lo + (end - 1)) / 2 in
        let l : j < length table = omega arith in
        let m : mid < length table = omega arith in
        if_elim (λ o. o ≡ some j) (leb end lo) (λ e. absurd (ground arith))
          (λ e.
            if_elim (λ o. o ≡ some j) (get_or table mid 0 == cp)
              (λ q. ap some (same mid l m (ground arith)))
              (λ q.
                if_elim (λ o. o ≡ some j) (ltb (get_or table mid 0) cp)
                  (λ t.
                    let u = smaller mid l m (ground arith) in
                    lookup_loop-finds fuel (mid + 1) end h (omega arith) (omega arith) b)
                  (λ t.
                    let u = larger mid l m (ground arith) in
                    lookup_loop-finds fuel lo mid (omega arith) (omega arith) a u)))

Found-at :
    (table : List ℕ) (cp i : ℕ) (o : Option ℕ)
    → o ≡ some i
    → Found table cp (length table) o
    → Found table cp (length table) (some i)
Found-at table cp i o e f = subst (Found table cp (length table)) e f

-- In an ascending table, hangul_lookup returns an index exactly if the code point stands there.
pub hangul_lookup_iff :
    (table : List ℕ) (cp i : ℕ)
    → Ascends table
    → (hangul_lookup table cp ≡ some i) ↔ ((i < length table) × (get_or table i 0 ≡ cp))
unfolding hangul_lookup
hangul_lookup_iff table cp i up = (
  λ e. Found-at table cp i _ e (lookup_loop-Found table cp (length table + 1) 0 (length table)),
  λ h.
      lookup_loop-finds table cp up i h.1 (length table + 1) 0 (length table) (omega arith)
        (omega arith) (omega arith) h.0,
)
