-- ===== src/Ggm/Exact.antt =====
-- `puncture` of a label that a key of the array has itself.
use mathlib.Core.Path.{subst}
use secure_deletion.Common.{
  ℕ, ◌-◌, ◌≡◌, refl, arith, Bool, true, false, List, [], ◌∷◌, Any, length, ap, sym, ◌∙◌, inl, inr,
  some,
}
use secure_deletion.Ggm.{PprfKey, KeyArray, find_linear, evaluate, puncture, probed, walk}
use secure_deletion.Ggm.Labels.{NodeLabel, equal, is_prefix}
use secure_deletion.Ggm.Order.{bits, prefix_kind, IsPrefix, is_prefix-kind}
use secure_deletion.Ggm.Rank.{IsOrdered}
use secure_deletion.Ggm.Sorting.{Sorts}
use secure_deletion.Ggm.Lookup.{linear_search, First, first_of-Any, First-linear, evaluate-First}
use secure_deletion.Ggm.Puncture.{puncture-IsOrdered, exact-same}

IsPrefix-refl : (l : List Bool) → IsPrefix l l
IsPrefix-refl [] = tt
IsPrefix-refl (true ∷ l) = IsPrefix-refl l
IsPrefix-refl (false ∷ l) = IsPrefix-refl l

prefix_kind-same : (l : List Bool) → prefix_kind l l ≡ equal
prefix_kind-same [] = refl
prefix_kind-same (true ∷ l) = prefix_kind-same l
prefix_kind-same (false ∷ l) = prefix_kind-same l

module _ (lbl : NodeLabel) (v : List ℕ) where
  -- A key of the array has the label, and this value.
  abbrev pub IsKey : PprfKey → Type 0
  IsKey j = (j.lbl ≡ lbl) × (j.key ≡ v)

  IsKey-prefix :
      (keys : List PprfKey)
      → Any IsKey keys
      → Any (λ j. IsPrefix (bits lbl) (bits j.lbl) × IsKey j) keys
  IsKey-prefix [] a = a
  IsKey-prefix (k ∷ ks) (inl is) =
      inl (subst (λ l. IsPrefix (bits lbl) (bits l)) (sym is.0) (IsPrefix-refl (bits lbl)), is)
  IsKey-prefix (k ∷ ks) (inr a) = inr (IsKey-prefix ks a)

  First-IsKey :
      (keys : List PprfKey) → IsOrdered keys → Any IsKey keys → (f : First lbl keys) × IsKey f.root
  First-IsKey keys o a = first_of-Any lbl keys IsKey o (IsKey-prefix keys a)

  find_linear-exact :
      (keys : List PprfKey) → IsOrdered keys → Any IsKey keys → (find_linear keys lbl).exact ≡ true
  find_linear-exact keys o a =
      let (f, is) = First-IsKey keys o a in
      ap (λ r. r.exact) (First-linear lbl keys f)
      ∙ ap (λ k. (probed (length f.pre) (length f.pre) k).exact)
          (ap (is_prefix lbl) is.0 ∙ is_prefix-kind lbl lbl ∙ prefix_kind-same (bits lbl))

  evaluate-key :
      (prg : List ℕ → List ℕ × List ℕ) (pprf_depth : ℕ) (keys : List PprfKey)
      → lbl.depth ≡ pprf_depth
      → IsOrdered keys
      → Any IsKey keys
      → evaluate prg linear_search pprf_depth keys lbl ≡ some (some v)
  unfolding walk
  evaluate-key prg pprf_depth keys full o a =
      let (f, is) = First-IsKey keys o a in
      let none_left : pprf_depth - f.root.lbl.depth ≡ 0 =
        ap (λ l. pprf_depth - l.depth) is.0 ∙ omega (arith, full) in
      evaluate-First lbl prg pprf_depth keys f
      ∙ ap (λ n. some (some (walk prg lbl n f.root.lbl.depth f.root.key))) none_left
      ∙ ap (λ x. some (some x)) (walk-zero f.root.lbl.depth f.root.key ∙ is.1)
    where
      walk-zero : (depth : ℕ) (key : List ℕ) → walk prg lbl 0 depth key ≡ key
      walk-zero depth key = refl

module _ (prg : List ℕ → List ℕ × List ℕ) (pprf_depth : ℕ) (sort : List PprfKey → List PprfKey)
    (sorts : Sorts sort) (room : Bool) (lbl : NodeLabel) (full : lbl.depth ≡ pprf_depth) where
  -- On a sorted array with the linear search, when one of the keys has the label itself, a label of the
  -- full depth, as a puncture of the label's neighbour leaves it, a puncture of that label does not delete
  -- it: it succeeds, and evaluate still gives the value of that very key.
  pub puncture-exact :
      (m : KeyArray) (v : List ℕ)
      → IsOrdered m.keys
      → Any (IsKey lbl v) m.keys
      → (m' : KeyArray) × (puncture prg linear_search pprf_depth sort room m lbl ≡ some m')
        × (evaluate prg linear_search pprf_depth m'.keys lbl ≡ some (some v))
  puncture-exact m v o a =
      let (m', done, o') = puncture-IsOrdered prg pprf_depth sort sorts room lbl full m o in
      let same =
        exact-same prg pprf_depth sort sorts room lbl full m o m' done
          (find_linear-exact lbl v m.keys o a) in
      (
        m',
        done,
        ap (λ x. evaluate prg linear_search pprf_depth x.keys lbl) same
            ∙ evaluate-key lbl v prg pprf_depth m.keys full o a,
      )
