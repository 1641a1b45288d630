-- ===== src/Https/Urls.antt =====
-- https_split_url of net/https_get.c takes a URL apart.
use instagram_on_nt.Prelude.{
  ℕ, ◌<◌, ◌≡◌, refl, ap, arith, ◌==◌, ◌&&◌, not, Bool, true, false, List, [], ◌∷◌, ◌++◌, some, leb,
  length, take, codes, length-append,
}
use instagram_on_nt.Prelude.Int.{◌-ℤ◌}
use instagram_on_nt.Crt.{strncmp, strchr, strlen}
use instagram_on_nt.Https.{skip_scheme, host_length, split_at, https_split_url}

-- No byte of the text is a slash.
unfoldable pub no_slash : List ℕ → Bool
no_slash [] = true
no_slash (c ∷ s) = not (c == b'/') && no_slash s

strlen-length : (s : List ℕ) → strlen s ≡ length s
unfolding strlen
strlen-length [] = refl
strlen-length (c ∷ s) = omega (arith, strlen-length s)

strchr-slash :
    (host path : List ℕ)
    → no_slash host ≡ true
    → strchr (host ++ b'/' ∷ path) b'/' ≡ some (b'/' ∷ path)
unfolding strchr no_slash
strchr-slash [] path h = refl
strchr-slash (c ∷ host) path h =
    let ih = strchr-slash host path (ground arith) in
    let a : (c == 47) ≡ false = ground arith in rw (a, ih)

take-front : (s t : List ℕ) → take (length s) (s ++ t) ≡ s
take-front [] t = refl
take-front (c ∷ s) t = ap (◌∷◌ c) (take-front s t)

host_length-slash :
    (host path : List ℕ) → host_length (host ++ b'/' ∷ path) (some (b'/' ∷ path)) ≡ length host
host_length-slash host path = omega (
  arith,
  strlen-length (host ++ b'/' ∷ path),
  strlen-length (b'/' ∷ path),
  length-append host (b'/' ∷ path),
)

split_at-host :
    (host path : List ℕ) (host_cap : ℕ)
    → no_slash host ≡ true
    → 0 < length host
    → length host < host_cap
    → split_at (host ++ b'/' ∷ path) host_cap ≡ some (host, b'/' ∷ path)
unfolding split_at
split_at-host host path host_cap h k l =
    let e = strchr-slash host path h in
    let n = host_length-slash host path in
    let a : (length host == 0) ≡ false = ground arith in
    let b : leb host_cap (length host) ≡ false = ground arith in
    rw (e, n, a, b, take-front host (b'/' ∷ path))

-- A URL of either scheme, with a host that is not empty, has no slash and is shorter than the host
-- buffer, and a path that starts with a slash, is split into that host and that path.
pub https_split_url-split :
    (host path : List ℕ) (host_cap : ℕ)
    → no_slash host ≡ true
    → 0 < length host
    → length host < host_cap
    → (https_split_url (codes "https://" ++ (host ++ b'/' ∷ path)) host_cap
        ≡ some (host, b'/' ∷ path))
      × (https_split_url (codes "http://" ++ (host ++ b'/' ∷ path)) host_cap
          ≡ some (host, b'/' ∷ path))
unfolding https_split_url skip_scheme strncmp ◌-ℤ◌
https_split_url-split host path host_cap h k l =
    (split_at-host host path host_cap h k l, split_at-host host path host_cap h k l)
