-- ===== src/PprfTree/Bits.antt =====
-- The leading bits of a 64-bit tag.
use native.Mathlib.Nat.{div-div-eq-div-mul, pow-suc, mul-div_cancel, mod-eq_of_lt, div-eq_of_lt}
use secure_deletion.Common.{
  ℕ, suc, ◌+◌, ◌-◌, ◌*◌, ◌/◌, ◌%◌, ◌^◌, ◌<◌, ◌≤◌, ◌≡◌, ◌∙◌, ap, sym, arith, Bool, ◌==◌,
  if◌then◌else◌, shl64, u64_mod, pow_pos, pow_add,
}
use secure_deletion.PprfTree.{check_bit_is_set}

-- The first `k` bits of a tag, as a number.
pub prefix : (tag k : ℕ) → ℕ
prefix tag k = tag / 2 ^ (64 - k)

abbrev pub bit : Bool → ℕ
bit b = if b then 1 else 0

half_shift : (tag n : ℕ) → tag / 2 ^ suc n ≡ tag / 2 ^ n / 2
half_shift tag n = ap (λ k. tag / k) (pow-suc 2 n) ∙ sym (div-div-eq-div-mul tag (2 ^ n) 2)

bit-mod : (x : ℕ) → bit (x % 2 == 1) ≡ x % 2
bit-mod x = ground arith

-- One more bit of the prefix is the bit that the walk tests.
pub prefix-suc :
    (tag k : ℕ) → k < 64 → prefix tag (k + 1) ≡ 2 * prefix tag k + bit (check_bit_is_set tag k)
unfolding prefix
prefix-suc tag k h =
    let e : 64 - k ≡ suc (63 - k) = omega arith in
    let e' : 64 - (k + 1) ≡ 63 - k = omega arith in
    rw (e, e', half_shift tag (63 - k), bit-mod (tag / 2 ^ (63 - k))) (omega arith)

pub prefix-zero : (tag : ℕ) → tag < u64_mod → prefix tag 0 ≡ 0
unfolding prefix
prefix-zero tag h = div-eq_of_lt h

-- The shift of `evaluate_at_tag` and `puncture_at_tag` moves a tag to the top of its word, where
-- its first `pprf_depth` bits are the tag.
module _ (tag pprf_depth : ℕ) (deep : pprf_depth ≤ 64) (fits : tag < 2 ^ pprf_depth) where
  shifted_fits : tag * 2 ^ (64 - pprf_depth) < u64_mod
  shifted_fits =
      let e : pprf_depth + (64 - pprf_depth) ≡ 64 = omega arith in
      let split : u64_mod ≡ 2 ^ pprf_depth * 2 ^ (64 - pprf_depth) =
        rw e at (pow_add pprf_depth (64 - pprf_depth)) in
      let p = pow_pos (64 - pprf_depth) in rw split (grind arith)

  shl64-eq : shl64 tag (64 - pprf_depth) ≡ tag * 2 ^ (64 - pprf_depth)
  shl64-eq = mod-eq_of_lt shifted_fits

  pub shl64-lt : shl64 tag (64 - pprf_depth) < u64_mod
  shl64-lt = rw shl64-eq shifted_fits

  pub prefix-shl64 : prefix (shl64 tag (64 - pprf_depth)) pprf_depth ≡ tag
  unfolding prefix
  prefix-shl64 = rw shl64-eq (mul-div_cancel tag (pow_pos (64 - pprf_depth)))
