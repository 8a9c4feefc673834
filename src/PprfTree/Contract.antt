-- ===== src/PprfTree/Contract.antt =====
-- What `puncture_at_tag` and `evaluate_at_tag` promise of a well-formed key.
use secure_deletion.Common.{
  ℕ, ◌+◌, ◌-◌, ◌*◌, ◌^◌, ◌≤◌, ◌<◌, ◌≡◌, ◌≢◌, ◌∙◌, ap, sym, Option, none, some, arith, shl64,
  u32_mod, inl, inr, ℕ-cases,
}
use mathlib.Core.Path.{subst}
use secure_deletion.PprfTree.{
  Block, pprf_puncture, Nodes, Pprf, find_key, evaluate, evaluate_at_tag, evaluate_found,
  puncture_at_tag, evaluate_loop, zero_block,
}
use secure_deletion.PprfTree.Bits.{prefix, shl64-lt, prefix-shl64}
use secure_deletion.PprfTree.Shape.{IsTree}
use secure_deletion.PprfTree.Descent.{evaluate-descend}
use secure_deletion.PprfTree.Dig.{puncture_loop-size}
use secure_deletion.PprfTree.Fresh.{puncture_loop-last}
use secure_deletion.PprfTree.Puncture.{
  some_eq, Found, find_key-Found, root_along, opened, dug, puncture-dug, dug-same,
}
use secure_deletion.PprfTree.Erased.{IsErased, Cleared, puncture_loop-IsErased, opened-IsErased}
use secure_deletion.PprfTree.Walks.{other_walk, other_find, dug-find, dug-IsLabelled}

-- The search for a tag ends in a punctured node, at the full depth.
abbrev pub IsPunctured : (pprf_depth : ℕ) → Nodes → (tag : ℕ) → Type 0
IsPunctured pprf_depth m tag =
    (last : ℕ) × (find_key m pprf_depth (shl64 tag (64 - pprf_depth)) ≡ (some last, pprf_depth))
    × ((m last).type ≡ pprf_puncture)

-- At a punctured tag of a key with cleared cells `evaluate_at_tag` gives zeros.
pub evaluate-IsPunctured :
    (prg : Block → Block × Block) (pprf_depth : ℕ) (m : Nodes) (size tag : ℕ)
    → IsErased m size
    → IsPunctured pprf_depth m tag
    → evaluate_at_tag prg m pprf_depth tag ≡ some zero_block
unfolding evaluate_at_tag evaluate evaluate_loop
evaluate-IsPunctured prg pprf_depth m size tag erased (last, at, kind) =
    let none_left : pprf_depth - pprf_depth ≡ 0 = omega arith in
    ap (evaluate_found prg m pprf_depth (shl64 tag (64 - pprf_depth))) at
    ∙ rw none_left (ap some (subst (λ k. Cleared k (m last).v) kind (erased.cleared last)))

module _ (prg : Block → Block × Block) (pprf_depth : ℕ) (deep : pprf_depth ≤ 64) (p : Pprf)
    (tree : IsTree pprf_depth p) (tag : ℕ) (fits : tag < 2 ^ pprf_depth) where
  abbrev shifted : ℕ
  shifted = shl64 tag (64 - pprf_depth)

  abbrev found : Found pprf_depth p tree.0 shifted
  found = find_key-Found pprf_depth p tree.0 tree.1 deep shifted (shl64-lt tag pprf_depth deep fits)

  -- When the key is a tree of a depth of at most 64 and the tag fits that depth, `evaluate_at_tag`
  -- never returns -1 (none here), also when the tag was punctured.
  evaluate_at_tag-ne_none : evaluate_at_tag prg p.nodes pprf_depth tag ≢ none
  unfolding evaluate_at_tag evaluate
  evaluate_at_tag-ne_none e =
      absurd (no (sym (ap (evaluate_found prg p.nodes pprf_depth shifted) found.result) ∙ e))
    where
      no : {b : Block} → some b ≡ none → ⊥
      no w = cc

  apart :
      (other : ℕ)
      → other < 2 ^ pprf_depth
      → other ≢ tag
      → prefix (shl64 other (64 - pprf_depth)) pprf_depth ≢ prefix shifted pprf_depth
  apart other fits' ne e =
      ne
        (sym (prefix-shl64 other pprf_depth deep fits') ∙ e ∙ prefix-shl64 tag pprf_depth deep fits)

  module _ (small : p.size + 2 * pprf_depth < u32_mod) where
    abbrev after : Pprf
    after = (puncture_at_tag prg p pprf_depth tag).1

    abbrev result : Pprf
    result = dug pprf_depth p tree.0 tree.1 deep prg shifted found small

    puncture_at_tag-dug : puncture_at_tag prg p pprf_depth tag ≡ (some found.node, result)
    unfolding puncture_at_tag
    puncture_at_tag-dug = puncture-dug pprf_depth p tree.0 tree.1 deep prg shifted found small

    after-eq : after ≡ result
    after-eq = ap (λ k. k.1) puncture_at_tag-dug

    -- When the key is a tree of a depth of at most 64, the tag fits that depth, and 2 * pprf_depth
    -- more nodes stay below 2^32, `puncture_at_tag` leaves a tree of that depth.
    pub puncture_at_tag-IsTree : IsTree pprf_depth after
    puncture_at_tag-IsTree =
        subst (IsTree pprf_depth) (sym after-eq)
          (_, dug-IsLabelled pprf_depth p tree.0 tree.1 deep prg shifted found small)

    -- When the key is a tree of a depth of at most 64, the tag fits that depth, and 2 * pprf_depth
    -- more nodes stay below 2^32, `puncture_at_tag` does not shrink the key, and adds at most 2 *
    -- pprf_depth nodes: the bound by which `holepunch_persist_unlink` decides to refresh instead.
    pub puncture_at_tag-size : (p.size ≤ after.size) × (after.size ≤ p.size + 2 * pprf_depth)
    puncture_at_tag-size =
        let k =
          puncture_loop-size prg shifted (pprf_depth - found.depth)
            (opened pprf_depth p tree.0 tree.1 deep prg shifted found small) p.size found.node
            found.depth (p.nodes found.node).v (omega (arith, found.shallow)) in
        let e : after.size ≡ p.size + 2 * (pprf_depth - found.depth) =
          ap (λ q. q.size) after-eq ∙ k in
        omega (arith, found.shallow)

    -- When the key is a tree of a depth of at most 64, the tag fits that depth, and 2 * pprf_depth
    -- more nodes stay below 2^32, `puncture_at_tag` succeeds, and the index that it returns is of
    -- an old node, the only old node that it changes.
    pub puncture_at_tag-writes :
        (index : ℕ) × ((puncture_at_tag prg p pprf_depth tag).0 ≡ some index)
        × (index < p.size)
        × ((i : ℕ) → i < p.size → i ≢ index → after.nodes i ≡ p.nodes i)
    puncture_at_tag-writes = (
      found.node,
      ap (λ k. k.0) puncture_at_tag-dug,
      found.within,
      λ i h ne.
          ap (λ k. k.1.nodes i) puncture_at_tag-dug
          ∙ dug-same pprf_depth p tree.0 tree.1 deep prg shifted found small i h ne,
    )

    -- When the key is a tree of a depth of at most 64, the tag fits that depth, and 2 * pprf_depth
    -- more nodes stay below 2^32, the search for the tag ends, after `puncture_at_tag`, at the full
    -- depth in a node of the type pprf_puncture.
    pub puncture_at_tag-IsPunctured : IsPunctured pprf_depth after.nodes tag
    puncture_at_tag-IsPunctured =
        subst (λ q. IsPunctured pprf_depth q.nodes tag) (sym after-eq)
          (
            _,
            dug-find pprf_depth p tree.0 tree.1 deep prg shifted found small
                (shl64-lt tag pprf_depth deep fits),
            puncture_loop-last prg shifted (pprf_depth - found.depth)
                (opened pprf_depth p tree.0 tree.1 deep prg shifted found small) p.size found.node
                found.depth (p.nodes found.node).v found.within (omega (arith, found.shallow)),
          )

    -- A puncture leaves every cell but the leaves without a byte of a key.
    pub puncture_at_tag-IsErased : IsErased p.nodes p.size → IsErased after.nodes after.size
    puncture_at_tag-IsErased erased =
        subst (λ q. IsErased q.nodes q.size) (sym after-eq)
          (puncture_loop-IsErased prg shifted (pprf_depth - found.depth)
            (opened pprf_depth p tree.0 tree.1 deep prg shifted found small) p.size found.node
            found.depth (p.nodes found.node).v found.within (omega (arith, found.shallow))
            (ground arith) (ground arith)
            (opened-IsErased p.nodes p.size found.node found.within erased))

    -- What was punctured stays punctured.
    module _ (other : ℕ) (fits' : other < 2 ^ pprf_depth)
        (was : IsPunctured pprf_depth p.nodes other) where
      abbrev theirs : Found pprf_depth p tree.0 (shl64 other (64 - pprf_depth))
      theirs =
          find_key-Found pprf_depth p tree.0 tree.1 deep (shl64 other (64 - pprf_depth))
            (shl64-lt other pprf_depth deep fits')

      same_find : ◌≡◌ {A = Option ℕ × ℕ} (some was.0, pprf_depth) (some theirs.node, theirs.depth)
      same_find = sym was.1 ∙ theirs.result

      last-node : was.0 ≡ theirs.node
      last-node = some_eq (ap (λ k. k.0) same_find)

      full : theirs.depth ≡ pprf_depth
      full = sym (ap (λ k. k.1) same_find)

      last-ne : other ≢ tag → was.0 ≢ found.node
      last-ne ne q =
          let same = sym theirs.label ∙ ap tree.0 (sym last-node) ∙ ap tree.0 q ∙ found.label in
          let depths : found.depth ≡ pprf_depth = sym (ap (λ k. k.depth) same) ∙ full in
          absurd (
            apart other fits' ne (
              sym (ap (prefix (shl64 other (64 - pprf_depth))) full)
              ∙ ap (λ k. k.bits) same
              ∙ ap (prefix shifted) depths))

      keep : other ≢ tag → IsPunctured pprf_depth result.nodes other
      unfolding find_key
      keep ne = (
        was.0,
        other_find pprf_depth p tree.0 tree.1 deep prg shifted found small
            (shl64 other (64 - pprf_depth)) pprf_depth 0 0 was.0 pprf_depth (omega arith)
            (root_along pprf_depth p tree.0 tree.1 deep (shl64 other (64 - pprf_depth))
              (shl64-lt other pprf_depth deep fits'))
            tree.1.nonempty (last-ne ne) was.1,
        ap (λ k. k.type)
              (dug-same pprf_depth p tree.0 tree.1 deep prg shifted found small was.0
                (rw last-node theirs.within) (last-ne ne))
            ∙ was.2,
      )

      -- When the key is a tree of a depth of at most 64, the tag fits that depth, and 2 *
      -- pprf_depth more nodes stay below 2^32, a tag of that depth whose search ended, at the full
      -- depth, in a node of the type pprf_puncture still has such a search after `puncture_at_tag`,
      -- for this tag or another.
      pub IsPunctured-puncture : IsPunctured pprf_depth after.nodes other
      IsPunctured-puncture = elim (ℕ-cases other tag) [
        | inl e ↦ rw e puncture_at_tag-IsPunctured
        | inr ne ↦ subst (λ q. IsPunctured pprf_depth q.nodes other) (sym after-eq) (keep ne)
      ]

    module _ (other : ℕ) (fits' : other < 2 ^ pprf_depth) (ne : other ≢ tag) where
      -- When the key is a tree of a depth of at most 64, the tag fits that depth, and 2 *
      -- pprf_depth more nodes stay below 2^32, `puncture_at_tag` leaves the value of
      -- `evaluate_at_tag` at every other tag of that depth as it was.
      pub evaluate-puncture_ne :
          evaluate_at_tag prg after.nodes pprf_depth other
          ≡ evaluate_at_tag prg p.nodes pprf_depth other
      unfolding evaluate_at_tag
      evaluate-puncture_ne =
          ap (λ k. evaluate prg k.1.nodes pprf_depth (shl64 other (64 - pprf_depth)))
            puncture_at_tag-dug
          ∙ evaluate-descend prg _ pprf_depth _
          ∙ other_walk pprf_depth p tree.0 tree.1 deep prg shifted found small
              (shl64 other (64 - pprf_depth)) (apart other fits' ne) pprf_depth 0 0 (omega arith)
              (root_along pprf_depth p tree.0 tree.1 deep _ (shl64-lt other pprf_depth deep fits'))
              (tree.1.nonempty)
          ∙ sym (evaluate-descend prg p.nodes pprf_depth _)
