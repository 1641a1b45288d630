-- ===== src/Crt.antt =====
-- pal/nt4_crt.c: memory and string primitives. A pointer into memory is an index; a C string is the
-- list of the bytes in front of its NUL.
pub mod Move
pub mod Compare
use instagram_on_nt.Prelude.{
  ℕ, zero, suc, ◌+◌, ◌%◌, ◌==◌, Bool, true, false, List, [], ◌∷◌, Option, none, some, ltb,
  if◌then◌else◌, get_or, set,
}
use instagram_on_nt.Prelude.Int.{ℤ, pos, ◌-ℤ◌}

-- `while (n--) *d++ = *s++`
unfoldable pub copy_up : List ℕ → ℕ → ℕ → ℕ → List ℕ
copy_up m d s zero = m
copy_up m d s (suc n) = copy_up (set m d (get_or m s 0)) (d + 1) (s + 1) n

-- `while (n--) *--d = *--s` from behind the last byte.
unfoldable pub copy_down : List ℕ → ℕ → ℕ → ℕ → List ℕ
copy_down m d s zero = m
copy_down m d s (suc n) = copy_down (set m (d + n) (get_or m (s + n) 0)) d s n

unfoldable pub memcpy : List ℕ → ℕ → ℕ → ℕ → List ℕ
unfolding copy_up
memcpy m dst src n = copy_up m dst src n

unfoldable pub memmove : List ℕ → ℕ → ℕ → ℕ → List ℕ
unfolding copy_up copy_down
memmove m dst src n = if ltb dst src then copy_up m dst src n else copy_down m dst src n

unfoldable pub memset : List ℕ → ℕ → ℕ → ℕ → List ℕ
memset m dst c zero = m
memset m dst c (suc n) = memset (set m dst (c % 256)) (dst + 1) c n

unfoldable pub memcmp : List ℕ → ℕ → ℕ → ℕ → ℤ
memcmp m a b zero = pos 0
memcmp m a b (suc n) =
    let x = get_or m a 0 in
    let y = get_or m b 0 in
    let rest = memcmp m (a + 1) (b + 1) n in if x == y then rest else pos x -ℤ pos y

unfoldable pub strlen : List ℕ → ℕ
strlen [] = 0
strlen (c ∷ s) = strlen s + 1

unfoldable pub strcmp : List ℕ → List ℕ → ℤ
strcmp [] [] = pos 0
strcmp [] (b ∷ t) = pos 0 -ℤ pos b
strcmp (a ∷ s) [] = pos a
strcmp (a ∷ s) (b ∷ t) = if a == b then strcmp s t else pos a -ℤ pos b

unfoldable pub strncmp : List ℕ → List ℕ → ℕ → ℤ
strncmp a b zero = pos 0
strncmp [] [] (suc n) = pos 0
strncmp [] (b ∷ t) (suc n) = pos 0 -ℤ pos b
strncmp (a ∷ s) [] (suc n) = pos a
strncmp (a ∷ s) (b ∷ t) (suc n) = if a == b then strncmp s t n else pos a -ℤ pos b

-- The text from the byte `c` on; a search for 0 finds the text's end.
unfoldable pub strchr : List ℕ → ℕ → Option (List ℕ)
strchr [] c = if c == 0 then some [] else none
strchr (a ∷ s) c = if a == c then some (a ∷ s) else strchr s c

-- The needle stands at the front of the text.
unfoldable pub starts_with : List ℕ → List ℕ → Bool
starts_with [] h = true
starts_with (n ∷ needle) [] = false
starts_with (n ∷ needle) (h ∷ hay) = if h == n then starts_with needle hay else false

-- The text from the needle on.
unfoldable pub strstr : List ℕ → List ℕ → Option (List ℕ)
unfolding starts_with
strstr hay [] = some hay
strstr [] (n ∷ needle) = none
strstr (h ∷ hay) (n ∷ needle) =
    if starts_with (n ∷ needle) (h ∷ hay) then some (h ∷ hay) else strstr hay (n ∷ needle)
