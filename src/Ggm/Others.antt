-- ===== src/Ggm/Others.antt =====
-- The values at the other labels, after the neighbours of a path have replaced a key.
use mathlib.Core.Path.{subst}
use native.Mathlib.Decide.{dec_lt}
use secure_deletion.Common.{
  ℕ, ◌-◌, ◌≤◌, ◌<◌, ◌≡◌, ◌≢◌, refl, arith, List, ◌∷◌, ◌++◌, All, Any, All-append, All-split,
  All-imp, Any-append_left, Any-append_right, Any-split, sym, ◌∙◌, ◌⊎◌, inl, inr,
}
use secure_deletion.Ggm.{PprfKey, evaluate}
use secure_deletion.Ggm.Labels.{NodeLabel, check_bit_is_set}
use secure_deletion.Ggm.Order.{bits, IsPrefix}
use secure_deletion.Ggm.Prefixes.{IsPrefix-trans}
use secure_deletion.Ggm.Rank.{IsOrdered, NotPrefix}
use secure_deletion.Ggm.Agree.{Agree, IsPrefix-Agree}
use secure_deletion.Ggm.Neighbors.{neighbors-walk}
use secure_deletion.Ggm.Sorting.{Sorts, Any-perm}
use secure_deletion.Ggm.Lookup.{
  linear_search, First, first_of, value, evaluate-NotPrefix, evaluate-First, evaluate-Any,
}
use secure_deletion.Ggm.Splice.{spliced, path, path-root, spliced-IsOrdered}

-- Two labels differ in some bit below a depth.
abbrev pub Differ : (pprf_depth : ℕ) → NodeLabel → NodeLabel → Type 0
Differ pprf_depth a b =
    (at : ℕ) × (at < pprf_depth) × (check_bit_is_set a.bstr at ≢ check_bit_is_set b.bstr at)

lt-cases : (a b : ℕ) → (a < b) ⊎ (b ≤ a)
lt-cases a b = elim (dec_lt a b) [ yes h ↦ inl h | no h ↦ inr (omega arith) ]

module _ (prg : List ℕ → List ℕ × List ℕ) (pprf_depth : ℕ) (sort : List PprfKey → List PprfKey)
    (sorts : Sorts sort) (lbl : NodeLabel) (full : lbl.depth ≡ pprf_depth) where
  module _ (keys : List PprfKey) (o : IsOrdered keys) (f : First lbl keys) (other : NodeLabel)
      (full' : other.depth ≡ pprf_depth) (differ : Differ pprf_depth other lbl) where
    abbrev after : List PprfKey
    after = spliced prg pprf_depth sort sorts lbl full keys o f

    abbrev old_part : PprfKey → List ℕ
    old_part = value other prg pprf_depth

    -- Where the old key gives a value, one of the new keys gives it.
    root-path :
        (v : List ℕ)
        → IsPrefix (bits other) (bits f.root.lbl)
        → old_part f.root ≡ v
        → Any
            (λ k. IsPrefix (bits other) (bits k.lbl) × (old_part k ≡ v))
            (sort (path prg pprf_depth sort sorts lbl full keys o f))
    root-path v p e =
        let mine = IsPrefix-Agree other f.root.lbl p in
        let theirs = IsPrefix-Agree lbl f.root.lbl f.here in
        let below : Agree other.bstr lbl.bstr 0 f.root.lbl.depth =
          λ k u w. mine.1 k u w ∙ sym (theirs.1 k u w) in
        let late : f.root.lbl.depth ≤ differ.0 = elim (lt-cases differ.0 f.root.lbl.depth) [
          | inl h ↦ absurd (differ.2 (below differ.0 (omega arith) h))
          | inr h ↦ h
        ] in
        Any-perm _ (sorts (path prg pprf_depth sort sorts lbl full keys o f)).0 (
          neighbors-walk prg lbl other pprf_depth full' (pprf_depth - f.root.lbl.depth)
            f.root.lbl.depth f.root.key v differ.0 (omega (arith, theirs.0)) late
            (omega (arith, theirs.0, differ.1)) below differ.2 e)

    Any-after :
        (v : List ℕ)
        → Any (λ k. IsPrefix (bits other) (bits k.lbl) × (old_part k ≡ v)) keys
        → Any (λ k. IsPrefix (bits other) (bits k.lbl) × (old_part k ≡ v)) after
    Any-after v a =
        let P = λ (k : PprfKey). IsPrefix (bits other) (bits k.lbl) × (old_part k ≡ v) in
        let new = sort (path prg pprf_depth sort sorts lbl full keys o f) in
        elim (Any-split P f.pre (f.root ∷ f.post) (subst (Any P) f.split a)) [
          | inl h ↦ Any-append_left P f.pre (new ++ f.post) h
          | inr (inl h) ↦
              Any-append_right P f.pre (new ++ f.post)
                (Any-append_left P new f.post (root-path v h.0 h.1))
          | inr (inr h) ↦ Any-append_right P f.pre (new ++ f.post) (Any-append_right P new f.post h)
        ]

    NotPrefix-after : All (NotPrefix other) keys → All (NotPrefix other) after
    NotPrefix-after h =
        let new = sort (path prg pprf_depth sort sorts lbl full keys o f) in
        let parts =
          All-split (NotPrefix other) f.pre (f.root ∷ f.post)
            (subst (All (NotPrefix other)) f.split h) in
        All-append (NotPrefix other) f.pre (new ++ f.post) parts.0 (
          All-append (NotPrefix other) new f.post
            (All-imp (λ s. IsPrefix (bits s.lbl) (bits f.root.lbl)) (NotPrefix other) new
              (λ s p q. parts.1.0 (IsPrefix-trans (bits other) (bits s.lbl) (bits f.root.lbl) q p))
              (path-root prg pprf_depth sort sorts lbl full keys o f))
            parts.1.1)

    pub evaluate-spliced :
        evaluate prg linear_search pprf_depth after other
        ≡ evaluate prg linear_search pprf_depth keys other
    evaluate-spliced = elim (first_of other keys) [
      | inl h ↦
          evaluate-NotPrefix other prg pprf_depth after (NotPrefix-after h)
          ∙ sym (evaluate-NotPrefix other prg pprf_depth keys h)
      | inr g ↦
          evaluate-Any other prg pprf_depth after (old_part g.root)
            (spliced-IsOrdered prg pprf_depth sort sorts lbl full keys o f)
            (Any-after (old_part g.root) (
              subst (Any _) (sym g.split) (
                Any-append_right
                  (λ k. IsPrefix (bits other) (bits k.lbl) × (old_part k ≡ old_part g.root)) g.pre
                  (g.root ∷ g.post) (inl (g.here, refl)))))
          ∙ sym (evaluate-First other prg pprf_depth keys g)
    ]
