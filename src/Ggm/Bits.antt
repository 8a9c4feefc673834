-- ===== src/Ggm/Bits.antt =====
-- Setting and testing the bits of a buffer.
use native.Mathlib.Nat.{div-div-eq-div-mul}
use secure_deletion.Common.{
  ℕ, zero, suc, ◌/◌, ◌%◌, ◌^◌, ◌≤◌, ◌≡◌, arith, Bool, true, false, ◌==◌, if◌then◌else◌, ap, sym,
  ◌∙◌, pow_double, Bool-cases, ℕ-cases, inl, inr,
}
use secure_deletion.Ggm.Labels.{
  Bstr, bit_of, with_bit, without_bit, check_bit_is_set, set_bit_in_buf,
}

pub bit_of-suc : (b k : ℕ) → bit_of b (suc k) ≡ bit_of (b / 2) k
bit_of-suc b k =
    ap (λ p. b / p % 2 == 1) (pow_double k)
    ∙ ap (λ q. q % 2 == 1) (sym (div-div-eq-div-mul b 2 (2 ^ k)))

-- A byte whose bit `k` is set is at least `2 ^ k`.
bit_of-le : (b k : ℕ) → bit_of b k ≡ true → 2 ^ k ≤ b
bit_of-le b zero e = ground arith
bit_of-le b (suc k) e = omega (arith, pow_double k, bit_of-le (b / 2) k (sym (bit_of-suc b k) ∙ e))

with_bit-half : (b k : ℕ) → with_bit b (suc k) / 2 ≡ with_bit (b / 2) k
with_bit-half b k = elim (Bool-cases (bit_of (b / 2) k)) [
  | inl e ↦ rw (bit_of-suc b k, e)
  | inr e ↦ rw (bit_of-suc b k, e) (omega (arith, pow_double k))
]

without_bit-half : (b k : ℕ) → without_bit b (suc k) / 2 ≡ without_bit (b / 2) k
without_bit-half b k = elim (Bool-cases (bit_of (b / 2) k)) [
  | inl e ↦ rw (bit_of-suc b k, e) (omega (arith, pow_double k))
  | inr e ↦ rw (bit_of-suc b k, e)
]

with_bit-even : (b k : ℕ) → with_bit b (suc k) % 2 ≡ b % 2
with_bit-even b k = elim (Bool-cases (bit_of b (suc k))) [
  | inl e ↦ rw e
  | inr e ↦ rw e (omega (arith, pow_double k))
]

without_bit-even : (b k : ℕ) → without_bit b (suc k) % 2 ≡ b % 2
without_bit-even b k = elim (Bool-cases (bit_of b (suc k))) [
  | inl e ↦ rw e (omega (arith, pow_double k, bit_of-le b (suc k) e))
  | inr e ↦ rw e
]

bit_of-with_bit : (b k j : ℕ) → bit_of (with_bit b k) j ≡ (if k == j then true else bit_of b j)
bit_of-with_bit b zero zero = ground arith
bit_of-with_bit b zero (suc j) =
    let half : with_bit b 0 / 2 ≡ b / 2 = ground arith in
    let t : (0 == suc j) ≡ false = ground arith in
    rw t (bit_of-suc (with_bit b 0) j ∙ ap (λ x. bit_of x j) half ∙ sym (bit_of-suc b j))
bit_of-with_bit b (suc k) zero = ground (arith, with_bit-even b k)
bit_of-with_bit b (suc k) (suc j) =
    bit_of-suc (with_bit b (suc k)) j
    ∙ ap (λ x. bit_of x j) (with_bit-half b k)
    ∙ bit_of-with_bit (b / 2) k j
    ∙ rw (bit_of-suc b j) (ground arith)

bit_of-without_bit :
    (b k j : ℕ) → bit_of (without_bit b k) j ≡ (if k == j then false else bit_of b j)
bit_of-without_bit b zero zero = ground arith
bit_of-without_bit b zero (suc j) =
    let half : without_bit b 0 / 2 ≡ b / 2 = ground arith in
    let t : (0 == suc j) ≡ false = ground arith in
    rw t (bit_of-suc (without_bit b 0) j ∙ ap (λ x. bit_of x j) half ∙ sym (bit_of-suc b j))
bit_of-without_bit b (suc k) zero = ground (arith, without_bit-even b k)
bit_of-without_bit b (suc k) (suc j) =
    bit_of-suc (without_bit b (suc k)) j
    ∙ ap (λ x. bit_of x j) (without_bit-half b k)
    ∙ bit_of-without_bit (b / 2) k j
    ∙ rw (bit_of-suc b j) (ground arith)

-- What a test finds after a write.
pub check-set :
    (b : Bstr) (i j : ℕ) (v : Bool)
    → check_bit_is_set (set_bit_in_buf b i v) j ≡ (if i == j then v else check_bit_is_set b j)
unfolding check_bit_is_set set_bit_in_buf
check-set b i j true = elim (ℕ-cases (j / 8) (i / 8)) [
  | inl e ↦
      let t : (j / 8 == i / 8) ≡ true = ground arith in
      let s : (i == j) ≡ (i % 8 == j % 8) = ground arith in
      rw (t, s) (bit_of-with_bit (b (j / 8)) (i % 8) (j % 8))
  | inr n ↦
      let t : (j / 8 == i / 8) ≡ false = ground arith in
      let s : (i == j) ≡ false = ground arith in rw (t, s)
]
check-set b i j false = elim (ℕ-cases (j / 8) (i / 8)) [
  | inl e ↦
      let t : (j / 8 == i / 8) ≡ true = ground arith in
      let s : (i == j) ≡ (i % 8 == j % 8) = ground arith in
      rw (t, s) (bit_of-without_bit (b (j / 8)) (i % 8) (j % 8))
  | inr n ↦
      let t : (j / 8 == i / 8) ≡ false = ground arith in
      let s : (i == j) ≡ false = ground arith in rw (t, s)
]
