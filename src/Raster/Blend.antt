-- ===== src/Raster/Blend.antt =====
-- The rounded blend of core/raster.c stays within its two colours.
use instagram_on_nt.Prelude.{
  ℕ, ◌+◌, ◌-◌, ◌*◌, ◌/◌, ◌%◌, ◌<◌, ◌≤◌, ◌≡◌, ap, ◌∙◌, ==_iff, arith, ◌==◌, if_elim, min, max,
}
use instagram_on_nt.Raster.{ras_argb, ras_a, ras_r, ras_g, ras_b}
use instagram_on_nt.Raster.Draw.{mix, blend_over}

le_mul : (m s a : ℕ) → m ≤ s → m * a ≤ s * a
le_mul m s a p = grind arith

mul_split : (m a i : ℕ) → a + i ≡ 255 → m * a + m * i ≡ m * 255
mul_split m a i e = let q = ap (λ k. m * k) e in grind arith

-- `s * a + d * i` lies between 255 times the smaller and the larger.
weighted-low : (s d a i m : ℕ) → a + i ≡ 255 → m ≤ s → m ≤ d → m * 255 ≤ s * a + d * i
weighted-low s d a i m e p q = omega (arith, le_mul m s a p, le_mul m d i q, mul_split m a i e)

weighted-high : (s d a i m : ℕ) → a + i ≡ 255 → s ≤ m → d ≤ m → s * a + d * i ≤ m * 255
weighted-high s d a i m e p q = omega (arith, le_mul s m a p, le_mul d m i q, mul_split m a i e)

-- A channel is between the two bounds.
abbrev pub Within : ℕ → ℕ → ℕ → Type 0
Within a b v = (min a b ≤ v) × (v ≤ max a b)

mix-Within : (s sa d : ℕ) → sa ≤ 255 → Within s d (mix s sa d (255 - sa))
unfolding mix
mix-Within s sa d h =
    let lo = weighted-low s d sa (255 - sa) (min s d) (omega arith) (omega arith) (omega arith) in
    let hi = weighted-high s d sa (255 - sa) (max s d) (omega arith) (omega arith) (omega arith) in
    (omega (arith, lo), omega (arith, hi))

unpack_argb :
    (a r g b : ℕ)
    → a < 256
    → r < 256
    → g < 256
    → b < 256
    → (ras_a (ras_argb a r g b) ≡ a)
      × (ras_r (ras_argb a r g b) ≡ r)
      × (ras_g (ras_argb a r g b) ≡ g)
      × (ras_b (ras_argb a r g b) ≡ b)
unfolding ras_argb ras_a ras_r ras_g ras_b
unpack_argb a r g b h i j k = (omega arith, omega arith, omega arith, omega arith)

-- The same, for a byte that is stored in a channel.
stored-Within : (s d v : ℕ) → s < 256 → d < 256 → Within s d v → Within s d (v % 256)
stored-Within s d v p q h = let a = h.0 in let b = h.1 in (omega arith, omega arith)

-- What a blend promises of the word it returns.
pub record Blended (dst src out : ℕ) : Type 0 where
  pub red : Within (ras_r src) (ras_r dst) (ras_r out)
  pub green : Within (ras_g src) (ras_g dst) (ras_g out)
  pub blue : Within (ras_b src) (ras_b dst) (ras_b out)
  pub opaque : ras_a dst ≡ 255 → ras_a out ≡ 255

byte_lt : (p : ℕ) → (ras_a p < 256) × (ras_r p < 256) × (ras_g p < 256) × (ras_b p < 256)
unfolding ras_a ras_r ras_g ras_b
byte_lt p = (omega arith, omega arith, omega arith, omega arith)

keep_Within : (s d : ℕ) → Within s d d
keep_Within s d = (omega arith, omega arith)

take_Within : (s d : ℕ) → Within s d s
take_Within s d = (omega arith, omega arith)

Within-stored :
    (s d sa out : ℕ)
    → s < 256
    → d < 256
    → sa ≤ 255
    → out ≡ mix s sa d (255 - sa) % 256
    → Within s d out
Within-stored s d sa out p q h e =
    let w = stored-Within s d (mix s sa d (255 - sa)) p q (mix-Within s sa d h) in
    let a = w.0 in let b = w.1 in (omega arith, omega arith)

full_alpha :
    (sa da : ℕ) → sa ≤ 255 → da ≡ 255 → min 255 (sa + (da * (255 - sa) + 127) / 255) % 256 ≡ 255
full_alpha sa da h e = rw e (omega arith)

-- Each colour channel of a blend lies between the channels of its two pixels, and a blend onto an
-- opaque pixel is opaque.
pub blend_over-Blended : (dst src : ℕ) → Blended dst src (blend_over dst src)
unfolding blend_over
blend_over-Blended dst src =
    let s = byte_lt src in
    let d = byte_lt dst in
    let sa = ras_a src in
    let ia = 255 - sa in
    let small : sa ≤ 255 = omega (arith, s.0) in
    if_elim (Blended dst src) (sa == 0)
      (λ _. record {
        red = keep_Within _ _;
        green = keep_Within _ _;
        blue = keep_Within _ _;
        opaque = λ e. e;
      })
      (λ _.
        if_elim (Blended dst src) (sa == 255)
          (λ e. record {
            red = take_Within _ _;
            green = take_Within _ _;
            blue = take_Within _ _;
            opaque = λ _. (==_iff sa 255).0 e;
          })
          (λ _.
            let a = min 255 (sa + (ras_a dst * ia + 127) / 255) % 256 in
            let r = mix (ras_r src) sa (ras_r dst) ia % 256 in
            let g = mix (ras_g src) sa (ras_g dst) ia % 256 in
            let b = mix (ras_b src) sa (ras_b dst) ia % 256 in
            let u = unpack_argb a r g b (omega arith) (omega arith) (omega arith) (omega arith) in
            record {
              red = Within-stored (ras_r src) (ras_r dst) sa _ s.1 d.1 small u.1;
              green = Within-stored (ras_g src) (ras_g dst) sa _ s.2 d.2 small u.2;
              blue = Within-stored (ras_b src) (ras_b dst) sa _ s.3 d.3 small u.3;
              opaque = λ e. u.0 ∙ full_alpha sa (ras_a dst) small e;
            }))
