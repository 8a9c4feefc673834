-- ===== src/Ggm/Splice.antt =====
-- An array with the neighbours of a path in the place of the key above it.
use mathlib.Core.Path.{subst}
use secure_deletion.Common.{
  ℕ, ◌-◌, ◌≤◌, ◌≡◌, ◌≢◌, arith, not, Bool, Bool-cases, List, [], ◌∷◌, ◌++◌, All, All-append,
  All-split, All-imp, ◌∙◌, inl, inr,
}
use secure_deletion.Ggm.{PprfKey, neighbors}
use secure_deletion.Ggm.Labels.{NodeLabel, check_bit_is_set}
use secure_deletion.Ggm.Order.{bits, IsPrefix, Before}
use secure_deletion.Ggm.Prefixes.{Before-prefix_left, Before-prefix_right, Before-irrefl_right}
use secure_deletion.Ggm.Rank.{IsOrdered, NotPrefix}
use secure_deletion.Ggm.Agree.{Agree, Agree-IsPrefix, IsPrefix-Agree}
use secure_deletion.Ggm.Neighbors.{Leaves, neighbors-Leaves, neighbors-AreApart}
use secure_deletion.Ggm.Sorting.{Sorts, All-perm, AreApart-perm, AreApart-IsOrdered}
use secure_deletion.Ggm.Lookup.{First}

-- The keys of an array stand before those of another.
abbrev pub AllBefore : List PprfKey → List PprfKey → Type 0
AllBefore xs ys = All (λ x. All (λ y. Before (bits x.lbl) (bits y.lbl)) ys) xs

pub IsOrdered-append :
    (xs ys : List PprfKey) → IsOrdered xs → IsOrdered ys → AllBefore xs ys → IsOrdered (xs ++ ys)
IsOrdered-append [] ys o p h = p
IsOrdered-append (x ∷ xs) ys (o, os) p (h, hs) =
    (All-append (λ y. Before (bits x.lbl) (bits y.lbl)) xs ys o h, IsOrdered-append xs ys os p hs)

pub IsOrdered-split :
    (xs ys : List PprfKey) → IsOrdered (xs ++ ys) → IsOrdered xs × IsOrdered ys × AllBefore xs ys
IsOrdered-split [] ys o = (tt, o, tt)
IsOrdered-split (x ∷ xs) ys (o, os) =
    let r = IsOrdered-split xs ys os in
    let h = All-split (λ y. Before (bits x.lbl) (bits y.lbl)) xs ys o in
    ((h.0, r.0), r.1, (h.1, r.2))

module _ (prg : List ℕ → List ℕ × List ℕ) (pprf_depth : ℕ) (sort : List PprfKey → List PprfKey)
    (sorts : Sorts sort) (lbl : NodeLabel) (full : lbl.depth ≡ pprf_depth) (keys : List PprfKey)
    (o : IsOrdered keys) (f : First lbl keys) where
  open f use {pre, root, post}

  abbrev pub path : List PprfKey
  path = neighbors prg lbl (pprf_depth - root.lbl.depth) root.lbl.depth root.key

  -- The array after a puncture.
  abbrev pub spliced : List PprfKey
  spliced = pre ++ (sort path ++ post)

  shared : (root.lbl.depth ≤ lbl.depth) × Agree lbl.bstr root.lbl.bstr 0 root.lbl.depth
  shared = IsPrefix-Agree lbl root.lbl f.here

  sorted_path : (P : PprfKey → Type 0) → All P path → All P (sort path)
  sorted_path P = All-perm P (sorts path).0

  path-Leaves : All (Leaves lbl root.lbl.depth pprf_depth) path
  path-Leaves =
      neighbors-Leaves prg lbl (pprf_depth - root.lbl.depth) root.lbl.depth root.key pprf_depth
        (omega (arith, shared.0))

  -- The new keys begin with the label of the old one, and none is a prefix of `lbl`.
  pub path-root : All (λ s. IsPrefix (bits s.lbl) (bits root.lbl)) (sort path)
  path-root = sorted_path _ (
      All-imp (Leaves lbl root.lbl.depth pprf_depth) _ path
        (λ s q.
          Agree-IsPrefix s.lbl root.lbl (omega (arith, q.1, q.3))
            (λ i u v. q.4 i u (omega (arith, q.1)) ∙ shared.1 i u v))
        path-Leaves)

  not-ne : (b : Bool) → b ≢ not b
  not-ne b e = elim (Bool-cases b) [ inl t ↦ cc | inr t ↦ cc ]

  pub path-NotPrefix : All (NotPrefix lbl) (sort path)
  path-NotPrefix = sorted_path (NotPrefix lbl) (
      All-imp (Leaves lbl root.lbl.depth pprf_depth) (NotPrefix lbl) path
        (λ s q p.
          not-ne (check_bit_is_set lbl.bstr q.0)
            ((IsPrefix-Agree lbl s.lbl p).1 q.0 (omega arith) (omega (arith, q.3)) ∙ q.5))
        path-Leaves)

  parts : IsOrdered pre × IsOrdered (root ∷ post) × AllBefore pre (root ∷ post)
  parts = IsOrdered-split pre (root ∷ post) (subst IsOrdered f.split o)

  pub spliced-IsOrdered : IsOrdered spliced
  spliced-IsOrdered =
      IsOrdered-append pre (sort path ++ post) parts.0
        (IsOrdered-append (sort path) post
          (AreApart-IsOrdered (sort path)
            (AreApart-perm (sorts path).0
              (neighbors-AreApart prg lbl (pprf_depth - root.lbl.depth) root.lbl.depth root.key))
            (sorts path).1)
          parts.1.1
          (All-imp (λ s. IsPrefix (bits s.lbl) (bits root.lbl)) _ (sort path)
            (λ s p.
              All-imp (λ y. Before (bits root.lbl) (bits y.lbl)) _ post
                (λ y h. Before-prefix_left (bits root.lbl) (bits y.lbl) (bits s.lbl) h p) parts.1.0)
            path-root))
        (All-imp (λ x. All (λ y. Before (bits x.lbl) (bits y.lbl)) (root ∷ post)) _ pre
          (λ x h.
            All-append (λ y. Before (bits x.lbl) (bits y.lbl)) (sort path) post
              (All-imp (λ s. IsPrefix (bits s.lbl) (bits root.lbl)) _ (sort path)
                (λ s p. Before-prefix_right (bits x.lbl) (bits root.lbl) (bits s.lbl) h.0 p)
                path-root)
              h.1)
          parts.2)

  -- `lbl` has no prefix any more.
  pub spliced-NotPrefix : All (NotPrefix lbl) spliced
  spliced-NotPrefix = All-append (NotPrefix lbl) pre (sort path ++ post) f.before (
      All-append (NotPrefix lbl) (sort path) post path-NotPrefix (
        All-imp (λ y. Before (bits root.lbl) (bits y.lbl)) (NotPrefix lbl) post
          (λ y h p.
            Before-irrefl_right (bits y.lbl) (bits lbl)
              (Before-prefix_left (bits root.lbl) (bits y.lbl) (bits lbl) h f.here) p)
          parts.1.0))
