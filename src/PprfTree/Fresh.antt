-- ===== src/PprfTree/Fresh.antt =====
-- The nodes that the loop of `puncture` lays out: walks of other tags find the keys that they
-- would have derived, the walk of the punctured tag ends in a punctured node.
use secure_deletion.Common.{
  ℕ, zero, suc, ◌+◌, ◌*◌, ◌≤◌, ◌<◌, ◌≡◌, refl, ◌≢◌, ◌⊎◌, inl, inr, ◌∙◌, ap, sym, Bool, true, false,
  not, some, arith, if◌then◌else◌, u32_mod,
}
use secure_deletion.PprfTree.{
  Block, pprf_internal, pprf_keyleaf, pprf_puncture, Nodes, check_bit_is_set, find_from, selected,
  evaluate_loop, puncture_round, puncture_loop,
}
use secure_deletion.PprfTree.Bits.{prefix, prefix-suc}
use secure_deletion.PprfTree.Descent.{
  next, find_from-zero, find_from-internal, descend, descend-internal, descend-keyleaf,
}
use secure_deletion.PprfTree.Dig.{IsRound, round_lem, puncture_loop-suc, puncture_loop-round}

sides : (c d : Bool) → (c ≡ d) ⊎ (c ≡ not d)
sides true true = inl refl
sides true false = inr refl
sides false true = inr refl
sides false false = inl refl

same_prefix :
    (tag other depth : ℕ)
    → depth < 64
    → prefix other depth ≡ prefix tag depth
    → check_bit_is_set other depth ≡ check_bit_is_set tag depth
    → prefix other (depth + 1) ≡ prefix tag (depth + 1)
same_prefix tag other depth h e c =
    prefix-suc other depth h ∙ rw (c, e) (sym (prefix-suc tag depth h))

-- The node at which the loop ends.
abbrev pub last_node : (n size root : ℕ) → ℕ
last_node zero size root = root
last_node (suc n) size root = size + 2 * n + 1

last_node-step : (n size : ℕ) → last_node n (size + 2) (size + 1) ≡ size + 2 * n + 1
last_node-step zero size = omega arith
last_node-step (suc n) size = omega arith

module _ (prg : Block → Block × Block) (tag : ℕ) where
  -- The state after the loop, by its first round.
  module _ (n : ℕ) (m : Nodes) (size root depth : ℕ) (b : Block) (h : root < size)
      (small : size + 2 * suc n < u32_mod) where
    abbrev after : Nodes
    after = (puncture_loop prg (suc n) m size root tag depth b).nodes

    abbrev r : IsRound prg tag m (puncture_round prg m size root tag depth b) size root depth b
    r = round_lem prg tag m size root depth b h (omega arith)

    after-eq : (i : ℕ) → i < size + 1 → after i ≡ puncture_round prg m size root tag depth b i
    after-eq = puncture_loop-round prg tag n m size root depth b h small

    after-suc :
        after
        ≡ (puncture_loop prg n
            (puncture_round prg m size root tag depth b)
            (size + 2)
            (size + 1)
            tag
            (depth + 1)
            (selected prg tag depth b)).nodes
    after-suc = ap (λ k. k.nodes) (puncture_loop-suc prg tag n m size root depth b (omega arith))

    after-root : after root ≡ puncture_round prg m size root tag depth b root
    after-root = after-eq root (omega arith)

    after-root_type : (after root).type ≡ (m root).type
    after-root_type = ap (λ k. k.type) after-root ∙ r.root_type

    next-same :
        (other : ℕ)
        → check_bit_is_set other depth ≡ check_bit_is_set tag depth
        → next after other depth root ≡ size + 1
    next-same other c = ground (arith, after-root, r.il, r.ir)

    next-other :
        (other : ℕ)
        → check_bit_is_set other depth ≡ not (check_bit_is_set tag depth)
        → next after other depth root ≡ size
    next-other other c = ground (arith, after-root, r.il, r.ir)

    after-leaf_type : (after size).type ≡ pprf_keyleaf
    after-leaf_type = ap (λ k. k.type) (after-eq size (omega arith)) ∙ r.leaf_type

    after-leaf_key :
        (other : ℕ)
        → check_bit_is_set other depth ≡ not (check_bit_is_set tag depth)
        → (after size).v ≡ selected prg other depth b
    after-leaf_key other c = ap (λ k. k.v) (after-eq size (omega arith)) ∙ r.leaf_key ∙ ground arith

  -- A tag that shares the prefix of the loop's root, but not all of the punctured tag, evaluates
  -- from that root as it would have from the root's key.
  pub puncture_loop-descend :
      (n : ℕ) (m : Nodes) (size root depth : ℕ) (b : Block)
      → root < size
      → size + 2 * n < u32_mod
      → depth + n ≤ 64
      → (m root).type ≡ pprf_internal
      → (other : ℕ) → prefix other depth ≡ prefix tag depth
      → prefix other (depth + n) ≢ prefix tag (depth + n)
      → descend prg (puncture_loop prg n m size root tag depth b).nodes n other depth root
        ≡ some (evaluate_loop prg n other depth b)
  unfolding evaluate_loop
  puncture_loop-descend zero m size root depth b h small deep t other e ne =
      let z : depth + 0 ≡ depth = omega arith in absurd (ne (rw z e))
  puncture_loop-descend (suc n) m size root depth b h small deep t other e ne =
      descend-internal prg (after n m size root depth b h small) n other depth root
        (after-root_type n m size root depth b h small ∙ t)
      ∙ elim (sides (check_bit_is_set other depth) (check_bit_is_set tag depth)) [
        | inl c ↦
            let s : depth + suc n ≡ depth + 1 + n = omega arith in
            let r = round_lem prg tag m size root depth b h (omega arith) in
            rw (next-same n m size root depth b h small other c) (
              ap (λ k. descend prg k n other (depth + 1) (size + 1))
                (after-suc n m size root depth b h small)
              ∙ puncture_loop-descend n (puncture_round prg m size root tag depth b) (size + 2)
                  (size + 1) (depth + 1) (selected prg tag depth b) (omega arith) (omega arith)
                  (omega arith) r.new_type other (same_prefix tag other depth (omega arith) e c)
                  (rw s at ne)
              ∙ ap
                  (λ k.
                    some
                      (evaluate_loop prg n other (depth + 1) (if k then (prg b).1 else (prg b).0)))
                  (sym c))
        | inr c ↦ rw (next-other n m size root depth b h small other c) (
            descend-keyleaf prg (after n m size root depth b h small) n other (depth + 1) size
              (after-leaf_type n m size root depth b h small)
            ∙ ap (λ k. some (evaluate_loop prg n other (depth + 1) k))
                (after-leaf_key n m size root depth b h small other c))
      ]

  -- The walk of the punctured tag comes out at that node, at the full depth.
  pub puncture_loop-find :
      (n : ℕ) (m : Nodes) (size root depth : ℕ) (b : Block)
      → root < size
      → size + 2 * n < u32_mod
      → (m root).type ≡ pprf_internal
      → find_from (puncture_loop prg n m size root tag depth b).nodes n tag depth root
        ≡ (some (last_node n size root), depth + n)
  puncture_loop-find zero m size root depth b h small t =
      let z : depth + 0 ≡ depth = omega arith in
      rw z (find_from-zero (puncture_loop prg 0 m size root tag depth b).nodes tag depth root)
  puncture_loop-find (suc n) m size root depth b h small t =
      let r = round_lem prg tag m size root depth b h (omega arith) in
      let s : depth + 1 + n ≡ depth + suc n = omega arith in
      find_from-internal (after n m size root depth b h small) n tag depth root
        (after-root_type n m size root depth b h small ∙ t)
      ∙ rw (next-same n m size root depth b h small tag refl) (
          ap (λ k. find_from k n tag (depth + 1) (size + 1))
            (after-suc n m size root depth b h small)
          ∙ puncture_loop-find n (puncture_round prg m size root tag depth b) (size + 2) (size + 1)
              (depth + 1) (selected prg tag depth b) (omega arith) (omega arith) r.new_type
          ∙ rw (last_node-step n size, s))

  pub puncture_loop-last :
      (n : ℕ) (m : Nodes) (size root depth : ℕ) (b : Block)
      → root < size
      → size + 2 * n < u32_mod
      → ((puncture_loop prg n m size root tag depth b).nodes (last_node n size root)).type
        ≡ pprf_puncture
  puncture_loop-last zero m size root depth b h small = unfold puncture_loop in ground arith
  puncture_loop-last (suc n) m size root depth b h small =
      rw (after-suc n m size root depth b h small, ← last_node-step n size)
        (puncture_loop-last n (puncture_round prg m size root tag depth b) (size + 2) (size + 1)
          (depth + 1) (selected prg tag depth b) (omega arith) (omega arith))
