-- ===== src/Https.antt =====
-- https_split_url of net/https_get.c, on the string routines of pal/nt4_crt.c.
pub mod Urls
pub mod Exchange
pub mod Reading
pub mod Answers
use instagram_on_nt.Prelude.{
  ℕ, ◌+◌, ◌-◌, ◌==◌, ◌||◌, Bool, List, [], ◌∷◌, ◌++◌, Option, none, some, leb, if◌then◌else◌,
  length, take, drop, codes,
}
use instagram_on_nt.Prelude.Int.{ℤ, pos, eqb_ℤ}
use instagram_on_nt.Crt.{strncmp, strchr, strlen}

-- What `p` is after the scheme; none is the return of -1.
unfoldable pub skip_scheme : List ℕ → Option (List ℕ)
unfolding strncmp
skip_scheme url =
    if eqb_ℤ (strncmp url (codes "https://") 8) (pos 0)
    then some (drop 8 url)
    else if eqb_ℤ (strncmp url (codes "http://") 7) (pos 0)
    then some (drop 7 url)
    else none

-- `slash - p`, or the rest of the string.
abbrev pub host_length : List ℕ → Option (List ℕ) → ℕ
host_length p none = strlen p
host_length p (some slash) = strlen p - strlen slash

abbrev pub path_from : Option (List ℕ) → List ℕ
path_from none = codes "/"
path_from (some slash) = slash

-- The host and the path; none is the result -1.
unfoldable pub split_at : List ℕ → ℕ → Option (List ℕ × List ℕ)
unfolding strchr strlen
split_at p host_cap =
    let slash = strchr p b'/' in
    let hlen = host_length p slash in
    if hlen == 0 || leb host_cap hlen then none else some (take hlen p, path_from slash)

abbrev pub split_rest : Option (List ℕ) → ℕ → Option (List ℕ × List ℕ)
split_rest none host_cap = none
split_rest (some p) host_cap = split_at p host_cap

unfoldable pub https_split_url : List ℕ → ℕ → Option (List ℕ × List ℕ)
unfolding skip_scheme split_at
https_split_url url host_cap = split_rest (skip_scheme url) host_cap
