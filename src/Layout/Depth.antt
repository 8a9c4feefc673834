-- ===== src/Layout/Depth.antt =====
-- The depth of the PPRF and the tags that it leaves room for.
use secure_deletion.Common.{
  ℕ, zero, suc, ◌+◌, ◌/◌, ◌%◌, ◌^◌, ◌≤◌, ◌<◌, ◌≡◌, arith, ◌==◌, pow_double, pow_add_one, u32_mod,
  Bool-cases, inl, inr,
}
use secure_deletion.Layout.{digits_from, bit_length32, depth_for}

-- As many binary digits as `digits_from` counts suffice for the number.
digits_from_bounds : (n x : ℕ) → x < 2 ^ n → (x < 2 ^ digits_from n x) × (digits_from n x ≤ n)
unfolding digits_from
digits_from_bounds zero x h = (h, omega arith)
digits_from_bounds (suc n) x h = elim (Bool-cases (x == 0)) [
  | inl e ↦ rw e (ground arith)
  | inr e ↦
      let ih = digits_from_bounds n (x / 2) (omega (arith, pow_double n)) in
      rw e (omega (arith, pow_add_one (digits_from n (x / 2)), ih))
]

bit_length32_bounds : (x : ℕ) → x < 2 ^ 32 → (x < 2 ^ bit_length32 x) × (bit_length32 x ≤ 32)
unfolding bit_length32
bit_length32_bounds x h = let e : x % u32_mod ≡ x = omega arith in rw e (digits_from_bounds 32 x h)

-- The depth that `do_create` chooses is at most 32 and gives more leaves than the sectors of the
-- key table and the refresh interval together, when those are below 2^32.
depth_for-room :
    (interval table : ℕ)
    → table + interval < 2 ^ 32
    → (table + interval < 2 ^ depth_for interval table) × (depth_for interval table ≤ 32)
unfolding depth_for
depth_for-room interval table h =
    let b = bit_length32_bounds (table + interval) h in
    let e : bit_length32 (table + interval) % 256 ≡ bit_length32 (table + interval) =
      omega (arith, b) in
    rw e b
