-- ===== src/Ggm/Tags.antt =====
-- The labels of tags, and `puncture_at_tag` and `evaluate_at_tag` through them.
use secure_deletion.Common.{
  ℕ, zero, suc, ◌+◌, ◌-◌, ◌/◌, ◌%◌, ◌^◌, ◌≤◌, ◌<◌, ◌≡◌, ◌≢◌, refl, arith, Bool, true, false, ◌==◌,
  if◌then◌else◌, ltb, List, ap, sym, ◌∙◌, inl, inr, some, ℕ-cases, pow_double,
}
use secure_deletion.Ggm.{PprfKey, KeyArray, puncture_at_tag, evaluate_at_tag}
use secure_deletion.Ggm.Labels.{
  Bstr, bit_of, check_bit_is_set, set_bit_in_buf, label_rounds, init_node_label_from_long,
}
use secure_deletion.Ggm.Bits.{check-set, bit_of-suc}
use secure_deletion.Ggm.Rank.{IsOrdered}
use secure_deletion.Ggm.Sorting.{Sorts}
use secure_deletion.Ggm.Lookup.{linear_search}
use secure_deletion.Ggm.Others.{Differ}
use secure_deletion.Ggm.Puncture.{evaluate-puncture_ne}

module _ (wide : ℕ → ℕ → Bool) (val depth : ℕ) (small : depth ≤ 31) where
  -- The rounds write the bits from the last one down.
  label_rounds-check :
      (n idx : ℕ) (b : Bstr) (j : ℕ)
      → idx + n ≡ depth
      → j < depth
      → check_bit_is_set (label_rounds wide n idx b val depth) j
        ≡ (if ltb j n then bit_of val (depth - 1 - j) else check_bit_is_set b j)
  unfolding label_rounds
  label_rounds-check zero idx b j e h = ground arith
  label_rounds-check (suc n) idx b j e h =
      let at : ℕ = depth - 1 - idx in
      let bit : Bool = if ltb idx 31 then bit_of val idx else wide idx val in
      let narrow : bit ≡ bit_of val idx = let t : ltb idx 31 ≡ true = ground arith in rw t in
      label_rounds-check n (idx + 1) (set_bit_in_buf b at bit) j (omega arith) h
      ∙ elim (ℕ-cases at j) [
        | inl here ↦
            let t : ltb j n ≡ false = ground arith in
            let t' : ltb j (suc n) ≡ true = ground arith in
            let s : (at == j) ≡ true = ground arith in
            let back : idx ≡ depth - 1 - j = omega arith in
            rw (t, t') (check-set b at j bit ∙ rw s (narrow ∙ ap (bit_of val) back))
        | inr there ↦
            let t : ltb j n ≡ ltb j (suc n) = ground arith in
            let s : (at == j) ≡ false = ground arith in
            let kept : check_bit_is_set (set_bit_in_buf b at bit) j ≡ check_bit_is_set b j =
              check-set b at j bit ∙ rw s in
            rw (t, kept)
      ]

  -- The label of a tag has the tag's bits, the highest first.
  label-check :
      (b : Bstr) (j : ℕ)
      → j < depth
      → check_bit_is_set (init_node_label_from_long wide b val depth).bstr j
        ≡ bit_of val (depth - 1 - j)
  unfolding init_node_label_from_long
  label-check b j h =
      let t : ltb j depth ≡ true = ground arith in
      label_rounds-check depth 0 b j (omega arith) h ∙ rw t

-- Two numbers of `d` bits that are not equal differ in a bit.
differing_bit :
    (d x y : ℕ) → x < 2 ^ d → y < 2 ^ d → x ≢ y → (i : ℕ) × (i < d) × (bit_of x i ≢ bit_of y i)
differing_bit zero x y h k ne = absurd (ne (omega arith))
differing_bit (suc d) x y h k ne = elim (ℕ-cases (x % 2) (y % 2)) [
  | inl e ↦
      let r =
        differing_bit d (x / 2) (y / 2) (omega (arith, pow_double d)) (omega (arith, pow_double d))
          (λ q. ne (omega arith)) in
      (suc r.0, omega (arith, r.1), λ q. r.2 (sym (bit_of-suc x r.0) ∙ q ∙ bit_of-suc y r.0))
  | inr n ↦ (0, omega arith, λ q. n (ground arith))
]

module _ (wide : ℕ → ℕ → Bool) (pprf_depth : ℕ) (small : pprf_depth ≤ 31) where
  label-depth :
      (b : Bstr) (tag : ℕ) → (init_node_label_from_long wide b tag pprf_depth).depth ≡ pprf_depth
  unfolding init_node_label_from_long
  label-depth b tag = refl

  -- Different tags have labels that differ, whatever the labels held before.
  label-Differ :
      (b c : Bstr) (x y : ℕ)
      → x < 2 ^ pprf_depth
      → y < 2 ^ pprf_depth
      → x ≢ y
      → Differ pprf_depth
          (init_node_label_from_long wide b x pprf_depth)
          (init_node_label_from_long wide c y pprf_depth)
  label-Differ b c x y h k ne =
      let r = differing_bit pprf_depth x y h k ne in
      let at : ℕ = pprf_depth - 1 - r.0 in
      let back : pprf_depth - 1 - at ≡ r.0 = omega (arith, r.1) in
      (
        at,
        omega (arith, r.1),
        λ q. r.2 (
            ap (bit_of x) (sym back)
            ∙ sym (label-check wide x pprf_depth small b at (omega (arith, r.1)))
            ∙ q
            ∙ label-check wide y pprf_depth small c at (omega (arith, r.1))
            ∙ ap (bit_of y) back),
      )

  module _ (prg : List ℕ → List ℕ × List ℕ) (sort : List PprfKey → List PprfKey)
      (sorts : Sorts sort) where
    -- On a sorted array, with a depth of at most 31 and the linear search, `puncture_at_tag` leaves
    -- the result of `evaluate_at_tag` at every other tag of that depth as it was.
    pub evaluate_at_tag-puncture_ne :
        (b c : Bstr) (room : Bool) (m m' : KeyArray) (tag other : ℕ)
        → IsOrdered m.keys
        → tag < 2 ^ pprf_depth
        → other < 2 ^ pprf_depth
        → other ≢ tag
        → puncture_at_tag prg linear_search pprf_depth sort wide b room m tag ≡ some m'
        → evaluate_at_tag prg linear_search pprf_depth wide c m'.keys other
          ≡ evaluate_at_tag prg linear_search pprf_depth wide c m.keys other
    unfolding puncture_at_tag evaluate_at_tag
    evaluate_at_tag-puncture_ne b c room m m' tag other o h k ne done =
        evaluate-puncture_ne prg pprf_depth sort sorts room
          (init_node_label_from_long wide b tag pprf_depth) (label-depth b tag) m o m' done
          (init_node_label_from_long wide c other pprf_depth) (label-depth c other)
          (label-Differ c b other tag k h ne)
