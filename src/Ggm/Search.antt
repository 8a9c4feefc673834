-- ===== src/Ggm/Search.antt =====
-- The linear and the binary search of a sorted array find the same.
use Prim.Native.Nat.{Ordering}
use mathlib.Core.Option
use secure_deletion.Common.{
  ℕ, zero, suc, ◌+◌, ◌-◌, ◌/◌, ◌≤◌, ◌<◌, ◌≡◌, ◌≢◌, refl, arith, Option, none, some, true, not,
  false, ◌&&◌, ◌==◌, if◌then◌else◌, ltb, leb, List, [], ◌∷◌, length, All, ap, sym, ◌∙◌, inl, inr,
  ℕ-cases,
}
use secure_deletion.Ggm.{
  PprfKey, PrefixResult, linear_round, linear_from, find_linear, get_elem?, not_below,
  at_least_zero, advance, halve, probed, bsearch_result, find_bsearch,
}
use secure_deletion.Ggm.Labels.{NodeLabel, PrefixKind, strict, equal, apart, is_prefix}
use secure_deletion.Ggm.Order.{bits, lex, Before, compare-lex}
use secure_deletion.Ggm.Prefixes.{lex-Before}
use secure_deletion.Ggm.Rank.{
  IsOrdered, below_first, Ordering-cases, at_least-ne, rank, rank-below, rank-above, rank-le,
  is_prefix-apart, linear-none, rank_zero-NotPrefix, before-NotPrefix,
}

module _ (lbl : NodeLabel) where
  -- The result of a test of the key before a rank.
  abbrev result_at : (i : ℕ) → List PprfKey → (r : ℕ) → Option PrefixResult
  result_at i ks zero = some (record { exact = false; index = i + length ks })
  result_at i ks (suc m) =
      Option.map (λ k. probed (i + m) (i + length ks) (is_prefix lbl k.lbl)) (get_elem? ks m)

  probed-linear :
      (k : PprfKey) (ks : List PprfKey) (i n : ℕ) (kind : PrefixKind)
      → is_prefix lbl k.lbl ≡ kind
      → linear_from lbl (i + 1) ks ≡ record { exact = false; index = n }
      → linear_from lbl i (k ∷ ks) ≡ probed i n kind
  unfolding linear_from
  probed-linear k ks i n strict e f = ap (λ q. linear_round i q (linear_from lbl (i + 1) ks)) e
  probed-linear k ks i n equal e f = ap (λ q. linear_round i q (linear_from lbl (i + 1) ks)) e
  probed-linear k ks i n apart e f = ap (λ q. linear_round i q (linear_from lbl (i + 1) ks)) e ∙ f

  result_at-shift :
      (k : PprfKey) (ks : List PprfKey) (i r : ℕ)
      → r ≢ 0
      → result_at (i + 1) ks r ≡ result_at i (k ∷ ks) (suc r)
  result_at-shift k ks i zero nz = absurd (nz refl)
  result_at-shift k ks i (suc m) nz =
      let e : i + 1 + m ≡ i + suc m = omega arith in
      let f : i + 1 + length ks ≡ i + suc (length ks) = omega arith in rw (e, f)

  linear_from-rank :
      (ks : List PprfKey) (i : ℕ)
      → IsOrdered ks
      → some (linear_from lbl i ks) ≡ result_at i ks (rank lbl ks)
  unfolding linear_from
  linear_from-rank [] i o = ap some (linear-none lbl [] i tt)
  linear_from-rank (k ∷ ks) i (h, o) = elim (Ordering-cases (lex (bits lbl) (bits k.lbl))) [
    | inl b ↦ rw (rank-below lbl k ks b) (
        ap some (
          linear-none lbl (k ∷ ks) i
            (rank_zero-NotPrefix lbl (k ∷ ks) (h, o) (rank-below lbl k ks b))))
    | inr a ↦ elim (ℕ-cases (rank lbl ks) 0) [
      | inl z ↦
          rw (rank-above lbl k ks a, z)
            (ap some (
                probed-linear k ks i (i + suc (length ks)) (is_prefix lbl k.lbl) refl (
                  linear-none lbl ks (i + 1) (rank_zero-NotPrefix lbl ks o z)
                  ∙ ap (λ n. record { exact = false; index = n }) (omega arith)))
              ∙ ap (λ n. some (probed n (i + suc (length ks)) (is_prefix lbl k.lbl))) (omega arith))
      | inr nz ↦ rw (rank-above lbl k ks a) (
          ap some (
            ap (λ q. linear_round i q (linear_from lbl (i + 1) ks))
              (is_prefix-apart lbl k (before-NotPrefix lbl k ks h nz)))
          ∙ linear_from-rank ks (i + 1) o
          ∙ result_at-shift k ks i (rank lbl ks) nz)
    ]
  ]

  -- A key is not above `lbl` exactly when it stands before the rank.
  above-not_below :
      (ks : List PprfKey) (j : ℕ)
      → All (λ k. lex (bits lbl) (bits k.lbl) ≡ Ordering.lt) ks
      → not_below lbl (get_elem? ks j) ≡ false
  above-not_below [] j h = refl
  above-not_below (k ∷ ks) zero (h, hs) = ap at_least_zero (compare-lex lbl k.lbl ∙ h)
  above-not_below (k ∷ ks) (suc j) (h, hs) = above-not_below ks j hs

  above-all :
      (k : PprfKey) (ks : List PprfKey)
      → lex (bits lbl) (bits k.lbl) ≡ Ordering.lt
      → All (λ j. Before (bits k.lbl) (bits j.lbl)) ks
      → All (λ j. lex (bits lbl) (bits j.lbl) ≡ Ordering.lt) ks
  above-all k [] e h = tt
  above-all k (j ∷ js) e (h, hs) =
      (lex-Before (bits lbl) (bits k.lbl) (bits j.lbl) e h, above-all k js e hs)

  not_below-rank :
      (ks : List PprfKey) (j : ℕ)
      → IsOrdered ks
      → not_below lbl (get_elem? ks j) ≡ ltb j (rank lbl ks)
  not_below-rank [] j o = ground arith
  not_below-rank (k ∷ ks) j (h, o) = elim (Ordering-cases (lex (bits lbl) (bits k.lbl))) [
    | inl b ↦
        above-not_below (k ∷ ks) j (b, above-all k ks b h)
        ∙ rw (rank-below lbl k ks b) (ground arith)
    | inr a ↦ rw (rank-above lbl k ks a) (later k ks j a (λ i. not_below-rank ks i o))
  ]
    where
      later :
          (k : PprfKey) (ks : List PprfKey) (j : ℕ)
          → lex (bits lbl) (bits k.lbl) ≢ Ordering.lt
          → ((i : ℕ) → not_below lbl (get_elem? ks i) ≡ ltb i (rank lbl ks))
          → not_below lbl (get_elem? (k ∷ ks) j) ≡ ltb j (suc (rank lbl ks))
      later k ks zero a ih =
          ap at_least_zero (compare-lex lbl k.lbl) ∙ at_least-ne _ a ∙ ground arith
      later k ks (suc i) a ih = ih i ∙ ground arith

  -- The inner loop stops at most a step before the rank.
  advance-rank :
      (ks : List PprfKey)
      → IsOrdered ks
      → (f step p : ℕ) → 1 ≤ step
      → p ≤ rank lbl ks
      → rank lbl ks ≤ p + f
      → (advance f ks lbl step p ≤ rank lbl ks) × (rank lbl ks < advance f ks lbl step p + step)
  unfolding advance
  advance-rank ks o zero step p s below enough = omega arith
  advance-rank ks o (suc f) step p s below enough =
      let t = not_below-rank ks (p + step - 1) o in
      let len = rank-le lbl ks in
      elim (ℕ-cases (p + step - rank lbl ks) 0) [
        | inl go ↦
            let a : leb (p + step) (length ks) ≡ true = ground arith in
            let b : ltb (p + step - 1) (rank lbl ks) ≡ true = ground arith in
            rw (a, t, b) (advance-rank ks o f step (p + step) s (omega arith) (omega arith))
        | inr stop ↦
            let b : ltb (p + step - 1) (rank lbl ks) ≡ false = ground arith in
            let c : (leb (p + step) (length ks) && not_below lbl (get_elem? ks (p + step - 1)))
                ≡ false =
              ground arith in
            rw c (below, omega arith)
      ]

  -- The loops end at the rank: the last steps are single ones.
  halve-rank :
      (ks : List PprfKey)
      → IsOrdered ks
      → (f step p : ℕ) → 1 ≤ step
      → step ≤ f
      → p ≤ rank lbl ks
      → halve f ks lbl step p ≡ rank lbl ks
  unfolding halve
  halve-rank ks o zero step p s enough below = absurd (omega arith)
  halve-rank ks o (suc f) step p s enough below =
      let q : ℕ = advance (length ks) ks lbl step p in
      let near = advance-rank ks o (length ks) step p s below (omega (arith, rank-le lbl ks)) in
      let go : (step == 0) ≡ false = ground arith in
      elim (ℕ-cases step 1) [
        | inl one ↦ rw go (halve_zero f ks (step / 2) q (omega arith) ∙ omega (arith, near, one))
        | inr more ↦ rw go (halve-rank ks o f (step / 2) q (omega arith) (omega arith) near.0)
      ]
    where
      halve_zero : (f : ℕ) (ks : List PprfKey) (step p : ℕ) → step ≡ 0 → halve f ks lbl step p ≡ p
      halve_zero zero ks step p e = refl
      halve_zero (suc f) ks step p e = let t : (step == 0) ≡ true = ground arith in rw t

  bsearch_result-rank :
      (ks : List PprfKey)
      → IsOrdered ks
      → (r : ℕ) → rank lbl ks ≡ r
      → bsearch_result ks lbl r ≡ (if below_first lbl ks then none else some (find_linear ks lbl))
  bsearch_result-rank [] o zero e = refl
  bsearch_result-rank [] o (suc r) e = absurd (omega arith)
  bsearch_result-rank (k ∷ ks) o r e =
      let first : not_below lbl (some k) ≡ ltb 0 r = not_below-rank (k ∷ ks) 0 o ∙ ap (ltb 0) e in
      let found = linear_from-rank (k ∷ ks) 0 o in
      rw first (at_rank (k ∷ ks) r (found ∙ ap (result_at 0 (k ∷ ks)) e))
    where
      at_rank :
          (ks : List PprfKey) (r : ℕ)
          → some (find_linear ks lbl) ≡ result_at 0 ks r
          → bsearch_result ks lbl r ≡ (if not (ltb 0 r) then none else some (find_linear ks lbl))
      at_rank ks zero f = refl
      at_rank ks (suc m) f =
          let t : ltb 0 (suc m) ≡ true = ground arith in
          let index : m ≡ 0 + m = omega arith in
          let count : length ks ≡ 0 + length ks = omega arith in
          rw t (
            ap (λ n. Option.map (λ k. probed n (length ks) (is_prefix lbl k.lbl)) (get_elem? ks m))
              index
            ∙ ap (λ n. Option.map (λ k. probed (0 + m) n (is_prefix lbl k.lbl)) (get_elem? ks m))
                count
            ∙ sym f)

-- In an array whose labels are sorted and no prefixes of one another, the binary search finds what
-- the linear search finds, unless the label is below the first one or the array is empty: then it
-- reads before the array (none here). The fuel of its loops, the number of keys, is enough.
pub find_bsearch-linear :
    (keys : List PprfKey) (lbl : NodeLabel)
    → IsOrdered keys
    → find_bsearch keys lbl ≡ (if below_first lbl keys then none else some (find_linear keys lbl))
unfolding find_bsearch
find_bsearch-linear [] lbl o = refl
find_bsearch-linear (k ∷ ks) lbl o =
    let n : ℕ = suc (length ks) in
    ap (bsearch_result (k ∷ ks) lbl)
      (halve-rank lbl (k ∷ ks) o n n 0 (omega arith) (omega arith) (omega arith))
    ∙ bsearch_result-rank lbl (k ∷ ks) o (rank lbl (k ∷ ks)) refl
