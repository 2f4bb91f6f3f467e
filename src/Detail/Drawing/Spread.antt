-- ===== src/Detail/Drawing/Spread.antt =====
-- Where the arrows of a node begin, side by side.
use native.Mathlib.Nat.{add-mul, mul_comm, mul_left_comm, mul-le-mul_right, mul-lt-mul_of_pos_right}
use jobrunner.Prelude.{ℕ, suc, ◌+◌, ◌-◌, ◌*◌, ◌≤◌, ◌<◌, min, true, ◌≡◌, refl, ap, ◌∙◌, ltb, arith}
use jobrunner.Detail.Drawing.{node_width, spread_of, offset}

spread_many : (m : ℕ) → spread_of (suc (suc m)) ≡ min 120 ((m + 1) * 25)
spread_many m = omega arith

abbrev numerator : ℕ → ℕ → ℕ
numerator index count = (node_width - spread_of count) * (count - 1) + index * (2 * spread_of count)

offset_many :
    (index count : ℕ)
    → 1 < count
    → offset index count ≡ record { num = numerator index count; den = 2 * (count - 1) }
unfolding offset
offset_many index count h = let several : ltb 1 count ≡ true = ground arith in rw several refl

upper :
    (spread gaps j : ℕ)
    → spread ≤ 120
    → j ≤ gaps
    → (node_width - spread) * gaps + j * (2 * spread) ≤ 180 * (2 * gaps)
upper spread gaps j h k =
    let most : j * (2 * spread) ≤ gaps * (2 * spread) = mul-le-mul_right (2 * spread) k in
    let whole : (node_width - spread) + spread ≡ node_width = omega arith in
    let parts = add-mul (node_width - spread) spread gaps in
    let all : (node_width - spread + spread) * gaps ≡ node_width * gaps =
      ap (λ n. n * gaps) whole in
    let twice : gaps * (2 * spread) ≡ 2 * (spread * gaps) =
      mul_left_comm gaps 2 spread ∙ ap (λ n. 2 * n) (mul_comm gaps spread) in
    let bounded : spread * gaps ≤ 120 * gaps = mul-le-mul_right gaps h in
    omega (arith, most, parts, all, twice, bounded)

-- With more than one arrow at a node, each arrow begins to the right of the one before it, over the
-- same denominator, and all of them lie within 60 pixels of the center of the node, which is 240
-- wide.
pub offset_spread :
    (i j count : ℕ)
    → i < j
    → j < count
    → ((offset i count).den ≡ (offset j count).den)
      × ((offset i count).num < (offset j count).num)
      × (60 * (offset i count).den ≤ (offset i count).num)
      × ((offset j count).num ≤ 180 * (offset j count).den)
offset_spread i j count h k =
    let spread = spread_of count in
    let gaps = count - 1 in
    let center : 120 ≤ node_width - spread = omega arith in
    let positive : 0 < 2 * spread = omega arith in
    rw (offset_many i count (omega arith), offset_many j count (omega arith))
      (
        refl,
        omega (arith, mul-lt-mul_of_pos_right h positive),
        omega (arith, mul-le-mul_right gaps center),
        upper spread gaps j (omega arith) (omega arith),
      )
