-- ===== src/Tests/Https.antt =====
-- A run of https_split_url of net/https_get.c, and its property at a concrete URL.
use instagram_on_nt.Prelude.{◌≡◌, refl, arith, ◌∷◌, ◌++◌, some, codes}
use instagram_on_nt.Prelude.Int.{◌-ℤ◌}
use instagram_on_nt.Crt.{strncmp, strchr, strlen}
use instagram_on_nt.Https.{https_split_url, skip_scheme, split_at}
use instagram_on_nt.Https.Urls.{no_slash, https_split_url-split}

bare_host : https_split_url (codes "http://a.b") 64 ≡ some (codes "a.b", codes "/")
unfolding https_split_url skip_scheme split_at strncmp strchr strlen ◌-ℤ◌
bare_host = refl

https_split_url-split_example :
    (https_split_url (codes "https://" ++ (codes "a.b" ++ b'/' ∷ codes "p/q")) 64
      ≡ some (codes "a.b", b'/' ∷ codes "p/q"))
    × (https_split_url (codes "http://" ++ (codes "a.b" ++ b'/' ∷ codes "p/q")) 64
        ≡ some (codes "a.b", b'/' ∷ codes "p/q"))
unfolding no_slash
https_split_url-split_example =
    https_split_url-split (codes "a.b") (codes "p/q") 64 refl (omega arith) (omega arith)
