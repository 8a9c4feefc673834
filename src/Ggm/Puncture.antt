-- ===== src/Ggm/Puncture.antt =====
-- `puncture`: the order of the array, and the value at every label afterwards.
use mathlib.Core.Path.{subst}
use secure_deletion.Common.{
  ℕ, suc, ◌+◌, ◌≡◌, refl, arith, Bool, true, false, if◌then◌else◌, List, ◌∷◌, ◌++◌, All, length, ap,
  sym, ◌∙◌, inl, inr, some, ltb, Bool-cases,
}
use secure_deletion.Ggm.{
  PprfKey, KeyArray, find_linear, evaluate, puncture, puncture_key, expand_master_key, insert_keys,
  take, drop, max_depth,
}
use secure_deletion.Ggm.Labels.{NodeLabel}
use secure_deletion.Ggm.Rank.{IsOrdered, NotPrefix, linear-none}
use secure_deletion.Ggm.Sorting.{Sorts}
use secure_deletion.Ggm.Lookup.{
  linear_search, First, first_of, First-index, First-root, NotPrefix-root, take-middle, drop-middle,
}
use secure_deletion.Ggm.Splice.{spliced, path, spliced-IsOrdered}
use secure_deletion.Ggm.Others.{Differ, evaluate-spliced}

true-ne-false : true ≡ false → ⊥
true-ne-false e = cc

module _ (prg : List ℕ → List ℕ × List ℕ) (pprf_depth : ℕ) (sort : List PprfKey → List PprfKey)
    (sorts : Sorts sort) (room : Bool) (lbl : NodeLabel) (full : lbl.depth ≡ pprf_depth) where
  insert_keys-keys :
      (m : KeyArray) (i : ℕ) (new : List PprfKey)
      → (insert_keys prg linear_search pprf_depth sort room m i new).keys
        ≡ take i m.keys ++ (new ++ drop (i + 1) m.keys)
  insert_keys-keys m i new =
      let keys = take i m.keys ++ (new ++ drop (i + 1) m.keys) in
      grown-keys (record m { keys = keys }) (ltb m.max_count (length keys + max_depth)) room
    where
      grown-keys :
          (n : KeyArray) (full room : Bool)
          → (if full then expand_master_key prg linear_search pprf_depth sort room n else n).keys
            ≡ n.keys
      grown-keys n true true = refl
      grown-keys n true false = refl
      grown-keys n false room = refl

  replaced-keys :
      (m : KeyArray) (o : IsOrdered m.keys) (f : First lbl m.keys)
      → (insert_keys prg linear_search pprf_depth sort room m
          (find_linear m.keys lbl).index
          (sort (path prg pprf_depth sort sorts lbl full m.keys o f))).keys
        ≡ spliced prg pprf_depth sort sorts lbl full m.keys o f
  replaced-keys m o f =
      let new = sort (path prg pprf_depth sort sorts lbl full m.keys o f) in
      let next : length f.pre + 1 ≡ suc (length f.pre) = omega arith in
      insert_keys-keys m (find_linear m.keys lbl).index new
      ∙ ap (λ i. take i m.keys ++ (new ++ drop (i + 1) m.keys)) (First-index lbl m.keys f)
      ∙ ap (λ ks. take (length f.pre) ks ++ (new ++ drop (length f.pre + 1) ks)) f.split
      ∙ ap (λ ks. ks ++ (new ++ drop (length f.pre + 1) (f.pre ++ (f.root ∷ f.post))))
          (take-middle f.root f.post f.pre)
      ∙ ap (λ i. f.pre ++ (new ++ drop i (f.pre ++ (f.root ∷ f.post)))) next
      ∙ ap (λ ks. f.pre ++ (new ++ ks)) (drop-middle f.root f.post f.pre)

  -- What `puncture` does: nothing, when no key is a prefix of the label or a key has the label; and
  -- else the neighbours of the path take the place of the prefix.
  data Outcome (m : KeyArray) (o : IsOrdered m.keys) : Type 0 where
    missing :
        All (NotPrefix lbl) m.keys
        → puncture prg linear_search pprf_depth sort room m lbl ≡ some m
        → Outcome m o
    present :
        First lbl m.keys
        → (find_linear m.keys lbl).exact ≡ true
        → puncture prg linear_search pprf_depth sort room m lbl ≡ some m
        → Outcome m o
    replaced :
        (f : First lbl m.keys) (m' : KeyArray)
        → (find_linear m.keys lbl).exact ≡ false
        → puncture prg linear_search pprf_depth sort room m lbl ≡ some m'
        → m'.keys ≡ spliced prg pprf_depth sort sorts lbl full m.keys o f
        → Outcome m o

  outcome : (m : KeyArray) (o : IsOrdered m.keys) → Outcome m o
  unfolding puncture
  outcome m o = elim (first_of lbl m.keys) [
    | inl h ↦ missing h (
        ap
          (λ k.
            some (
              puncture_key prg linear_search pprf_depth sort room m lbl (find_linear m.keys lbl) k))
          (NotPrefix-root lbl m.keys h))
    | inr f ↦ elim (Bool-cases (find_linear m.keys lbl).exact) [
      | inl e ↦ present f e (
          ap
            (λ k. some (
              puncture_key prg linear_search pprf_depth sort room m lbl (find_linear m.keys lbl) k))
            (First-root lbl m.keys f)
          ∙ rw e)
      | inr e ↦
          replaced f
            (insert_keys prg linear_search pprf_depth sort room m (find_linear m.keys lbl).index
              (sort (path prg pprf_depth sort sorts lbl full m.keys o f)))
            e
            (ap
                (λ k. some (
                  puncture_key prg linear_search pprf_depth sort room m lbl (find_linear m.keys lbl)
                    k))
                (First-root lbl m.keys f)
              ∙ rw e)
            (replaced-keys m o f)
    ]
  ]

  some_eq : {a b : KeyArray} → some a ≡ some b → a ≡ b
  some_eq e = cc

  module _ (m : KeyArray) (o : IsOrdered m.keys) where
    -- On a sorted array with the linear search, a puncture succeeds and leaves a sorted array: no label
    -- is a prefix of another, and each stands before the next. The kernel's `sort` is taken to
    -- give a sorted permutation; the label punctured has the full depth.
    pub puncture-IsOrdered :
        (m' : KeyArray) × (puncture prg linear_search pprf_depth sort room m lbl ≡ some m')
        × IsOrdered m'.keys
    puncture-IsOrdered = elim (outcome m o) [
      | missing h e ↦ (m, e, o)
      | present f x e ↦ (m, e, o)
      | replaced f m' x e k ↦ (
        m',
        e,
        subst IsOrdered (sym k) (spliced-IsOrdered prg pprf_depth sort sorts lbl full m.keys o f),
      )
    ]

    module _ (m' : KeyArray)
        (done : puncture prg linear_search pprf_depth sort room m lbl ≡ some m') where
      -- A puncture of a sorted array leaves the result of evaluate at every other label of the full
      -- depth as it was, also the result -1.
      pub evaluate-puncture_ne :
          (other : NodeLabel)
          → other.depth ≡ pprf_depth
          → Differ pprf_depth other lbl
          → evaluate prg linear_search pprf_depth m'.keys other
            ≡ evaluate prg linear_search pprf_depth m.keys other
      evaluate-puncture_ne other full' differ =
          let at = λ (ks : List PprfKey). evaluate prg linear_search pprf_depth ks other in
          elim (outcome m o) [
            | missing h e ↦ ap (λ x. at x.keys) (some_eq (sym done ∙ e))
            | present f x e ↦ ap (λ x. at x.keys) (some_eq (sym done ∙ e))
            | replaced f n x e k ↦
                ap (λ x. at x.keys) (some_eq (sym done ∙ e))
                ∙ ap at k
                ∙ evaluate-spliced prg pprf_depth sort sorts lbl full m.keys o f other full' differ
          ]

      -- When the search finds a key with the label itself, nothing changes.
      pub exact-same : (find_linear m.keys lbl).exact ≡ true → m' ≡ m
      exact-same exact = elim (outcome m o) [
        | missing h e ↦
            absurd (true-ne-false (sym exact ∙ ap (λ r. r.exact) (linear-none lbl m.keys 0 h)))
        | present f x e ↦ some_eq (sym done ∙ e)
        | replaced f n x e k ↦ absurd (true-ne-false (sym exact ∙ x))
      ]
