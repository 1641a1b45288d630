-- ===== src/Private/Headers.antt =====
-- ig_build_headers of net/ig_private.c keeps its bounds and asks for no compression.
use instagram_on_nt.Prelude.{
  ℕ, ◌+◌, ◌≤◌, ◌≡◌, refl, arith, true, false, ◌||◌, List, [], ◌∷◌, ◌++◌, ltb, if_elim, length,
  length-append, length-map, length-take, take, map, codes,
}
use instagram_on_nt.Http.{HttpHeader}
use instagram_on_nt.Private.{Fresh, same_name, static_header, fresh_headers, ig_build_headers}

-- A header that asks for an encoding of the body asks for none.
abbrev pub AsksIdentity : HttpHeader → Type 0
AsksIdentity h = same_name h.name (codes "Accept-Encoding") ≡ true → h.value ≡ codes "identity"

abbrev pub AllAskIdentity : List HttpHeader → Type 0
AllAskIdentity [] = Unit {0}
AllAskIdentity (h ∷ hs) = AsksIdentity h × AllAskIdentity hs

static_header-AsksIdentity : (h : HttpHeader) → AsksIdentity (static_header h)
unfolding static_header
static_header-AsksIdentity h =
    if_elim AsksIdentity (same_name h.name (codes "Accept-Encoding")) (λ e k. refl)
      (λ e k. absurd (ground arith))

static-AllAskIdentity : (hs : List HttpHeader) → AllAskIdentity (map static_header hs)
static-AllAskIdentity [] = tt
static-AllAskIdentity (h ∷ hs) = (static_header-AsksIdentity h, static-AllAskIdentity hs)

fresh-AllAskIdentity : (f : Fresh) → AllAskIdentity (fresh_headers f)
unfolding fresh_headers same_name
fresh-AllAskIdentity f = (
  λ e. ground arith,
  (
    λ e. ground arith,
    (
      λ e. ground arith,
      (λ e. ground arith, (λ e. ground arith, (λ e. ground arith, (λ e. ground arith, tt)))),
    ),
  ),
)

append-AllAskIdentity :
    (hs ks : List HttpHeader) → AllAskIdentity hs → AllAskIdentity ks → AllAskIdentity (hs ++ ks)
append-AllAskIdentity [] ks a b = b
append-AllAskIdentity (h ∷ hs) ks a b = (a.0, append-AllAskIdentity hs ks a.1 b)

length-fresh_headers : (f : Fresh) → length (fresh_headers f) ≡ 7
unfolding fresh_headers
length-fresh_headers f = refl

-- The two tests against the room there is.
room_tests :
    (scratch_cap out_cap n : ℕ)
    → n + 7 ≤ out_cap
    → 224 ≤ scratch_cap
    → (ltb scratch_cap 224 || ltb out_cap (n + 7)) ≡ true
    → ⊥
room_tests scratch_cap out_cap n h k e = ground arith

room_left :
    (scratch_cap out_cap n : ℕ)
    → (ltb scratch_cap 224 || ltb out_cap (n + 7)) ≡ false
    → n + 7 ≤ out_cap
room_left scratch_cap out_cap n e = ground arith

-- ig_build_headers writes at most `out_cap` headers, and all of the session's and its own seven if
-- there is room for them and for their values; none of them asks for an encoding other than identity.
pub ig_build_headers-Bounded :
    (session : List HttpHeader) (f : Fresh) (out_cap scratch_cap : ℕ)
    → let hs = ig_build_headers session f out_cap scratch_cap in
      (length hs ≤ out_cap)
      × (length session + 7 ≤ out_cap → 224 ≤ scratch_cap → length hs ≡ length session + 7)
      × AllAskIdentity hs
unfolding ig_build_headers
ig_build_headers-Bounded session f out_cap scratch_cap =
    let static = map static_header (take out_cap session) in
    let n = length-map (take out_cap session) static_header in
    let t = length-take out_cap session in
    let a = length-append static (fresh_headers f) in
    let l = length-fresh_headers f in
    let ids = static-AllAskIdentity (take out_cap session) in
    if_elim
      (λ (hs : List HttpHeader).
        (length hs ≤ out_cap)
        × (length session + 7 ≤ out_cap → 224 ≤ scratch_cap → length hs ≡ length session + 7)
        × AllAskIdentity hs)
      (ltb scratch_cap 224 || ltb out_cap (length static + 7))
      (λ e. (
        omega (arith, n, t),
        λ p q. absurd (room_tests scratch_cap out_cap (length static) (omega (arith, n, t)) q e),
        ids,
      ))
      (λ e. (
        omega (arith, a, l, room_left scratch_cap out_cap (length static) e),
        λ p q. omega (arith, n, t, a, l),
        append-AllAskIdentity static (fresh_headers f) ids (fresh-AllAskIdentity f),
      ))
