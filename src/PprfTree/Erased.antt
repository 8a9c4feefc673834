-- ===== src/PprfTree/Erased.antt =====
-- What the punctures leave in the cells that are no leaf: no byte of a key but in the two indices.
use mathlib.Core.Path.{subst}
use secure_deletion.Common.{
  ℕ, zero, suc, ◌+◌, ◌*◌, ◌≤◌, ◌<◌, ◌≡◌, ◌≢◌, refl, ap, sym, ◌∙◌, arith, ◌==◌, true, false, inl,
  inr, ℕ-cases, u32_mod,
}
use secure_deletion.PprfTree.{
  Block, NodeType, pprf_internal, pprf_keyleaf, pprf_puncture, Nodes, zero_block, set_type, set_key,
  selected, puncture_round, puncture_loop,
}
use secure_deletion.PprfTree.Dig.{puncture_loop-suc}

-- An internal node has two indices and zeros, a punctured one zeros.
abbrev pub Cleared : NodeType → Block → Type 0
Cleared pprf_keyleaf b = Unit
Cleared pprf_internal b = b.rest ≡ zero_block.rest
Cleared pprf_puncture b = b ≡ zero_block

-- Every cell that is no leaf is cleared, and the cells past the used part are zero.
pub record IsErased (m : Nodes) (size : ℕ) : Type 0 where
  pub cleared : (i : ℕ) → Cleared (m i).type (m i).v
  pub unused : (i : ℕ) → size ≤ i → (m i).v ≡ zero_block

module _ (prg : Block → Block × Block) (tag : ℕ) where
  round-unused :
      (m : Nodes) (size root depth : ℕ) (b : Block) (i : ℕ)
      → root < size
      → size + 1 ≤ i
      → (puncture_round prg m size root tag depth b i).v ≡ (m i).v
  round-unused m size root depth b i h le = ground arith

  round-else :
      (m : Nodes) (size root depth : ℕ) (b : Block) (i : ℕ)
      → root < size
      → root ≢ i
      → size ≢ i
      → size + 1 ≢ i
      → puncture_round prg m size root tag depth b i ≡ m i
  round-else m size root depth b i h ne ne' ne'' = ground arith

  round-root :
      (m : Nodes) (size root depth : ℕ) (b : Block)
      → root < size
      → ((puncture_round prg m size root tag depth b root).v.rest ≡ (m root).v.rest)
        × ((puncture_round prg m size root tag depth b root).type ≡ (m root).type)
  round-root m size root depth b h = (ground arith, ground arith)

  round-leaf :
      (m : Nodes) (size root depth : ℕ) (b : Block)
      → (puncture_round prg m size root tag depth b size).type ≡ pprf_keyleaf
  round-leaf m size root depth b = ground arith

  round-new :
      (m : Nodes) (size root depth : ℕ) (b : Block)
      → (puncture_round prg m size root tag depth b (size + 1)).type ≡ pprf_internal
  round-new m size root depth b = ground arith

  Cleared-at :
      (m r : Nodes) (i : ℕ) → r i ≡ m i → Cleared (m i).type (m i).v → Cleared (r i).type (r i).v
  Cleared-at m r i e h = subst (λ k. Cleared k.type k.v) (sym e) h

  -- A round from a cleared internal node leaves the cells cleared.
  round-IsErased :
      (m : Nodes) (size root depth : ℕ) (b : Block)
      → root < size
      → (m root).v ≡ zero_block
      → (m root).type ≡ pprf_internal
      → IsErased m size
      → IsErased (puncture_round prg m size root tag depth b) (size + 2)
  round-IsErased m size root depth b h z t erased =
      let r = puncture_round prg m size root tag depth b in
      record {
        cleared = λ i. elim (ℕ-cases root i) [
          | inl e ↦
              let (same, kind) = round-root m size root depth b h in
              subst (λ j. Cleared (r j).type (r j).v) e
                (subst (λ k. Cleared k (r root).v) (sym (kind ∙ t)) (same ∙ ap (λ v. v.rest) z))
          | inr ne ↦ elim (ℕ-cases size i) [
            | inl e ↦
                subst (λ j. Cleared (r j).type (r j).v) e
                  (subst (λ k. Cleared k (r size).v) (sym (round-leaf m size root depth b)) tt)
            | inr ne' ↦ elim (ℕ-cases (size + 1) i) [
              | inl e ↦
                  subst (λ j. Cleared (r j).type (r j).v) e
                    (subst (λ k. Cleared k (r (size + 1)).v) (sym (round-new m size root depth b))
                      (ap (λ v. v.rest)
                        (round-unused m size root depth b (size + 1) h (omega arith)
                          ∙ erased.unused (size + 1) (omega arith))))
              | inr ne'' ↦
                  Cleared-at m r i (round-else m size root depth b i h ne ne' ne'')
                    (erased.cleared i)
            ]
          ]
        ];
        unused = λ i le.
            round-unused m size root depth b i h (omega arith) ∙ erased.unused i (omega arith);
      }

  last-IsErased :
      (m : Nodes) (size root : ℕ)
      → root < size
      → (m root).v ≡ zero_block
      → IsErased m size
      → IsErased (set_type m root pprf_puncture) size
  last-IsErased m size root h z erased = record {
    cleared = λ i. elim (ℕ-cases root i) [
      | inl e ↦ let s : (root == i) ≡ true = ground arith in rw s z
      | inr ne ↦ let s : (root == i) ≡ false = ground arith in rw s (erased.cleared i)
    ];
    unused = λ i le. let s : (root == i) ≡ false = ground arith in rw s (erased.unused i le);
  }

  pub puncture_loop-IsErased :
      (n : ℕ) (m : Nodes) (size root depth : ℕ) (b : Block)
      → root < size
      → size + 2 * n < u32_mod
      → (m root).v ≡ zero_block
      → (m root).type ≡ pprf_internal
      → IsErased m size
      → IsErased
          (puncture_loop prg n m size root tag depth b).nodes
          (puncture_loop prg n m size root tag depth b).size
  puncture_loop-IsErased zero m size root depth b h small z t erased =
      unfold puncture_loop in last-IsErased m size root h z erased
  puncture_loop-IsErased (suc n) m size root depth b h small z t erased =
      rw (puncture_loop-suc prg tag n m size root depth b (omega arith)) (
        puncture_loop-IsErased n (puncture_round prg m size root tag depth b) (size + 2) (size + 1)
          (depth + 1) (selected prg tag depth b) (omega arith) (omega arith)
          (round-unused m size root depth b (size + 1) h (omega arith)
            ∙ erased.unused (size + 1) (omega arith))
          (round-new m size root depth b) (round-IsErased m size root depth b h z t erased))

-- What `puncture` does to the node that it finds before its loop.
pub opened-IsErased :
    (m : Nodes) (size root : ℕ)
    → root < size
    → IsErased m size
    → IsErased (set_type (set_key m root zero_block) root pprf_internal) size
opened-IsErased m size root h erased = record {
  cleared = λ i. elim (ℕ-cases root i) [
    | inl e ↦
        let s : (root == i) ≡ true = ground arith in
        let s' : (root == root) ≡ true = ground arith in rw (s, s') refl
    | inr ne ↦ let s : (root == i) ≡ false = ground arith in rw s (erased.cleared i)
  ];
  unused = λ i le. let s : (root == i) ≡ false = ground arith in rw s (erased.unused i le);
}
