-- ===== src/PprfTree/Dig.antt =====
-- What the loop of `puncture` writes: one round, and the nodes that it leaves alone.
use native.Mathlib.Nat.{mod-eq_of_lt}
use secure_deletion.Common.{
  ℕ, zero, suc, ◌+◌, ◌*◌, ◌<◌, ◌≡◌, ◌≢◌, ◌∙◌, ap, arith, if◌then◌else◌, u32_mod, add32,
}
use secure_deletion.PprfTree.{
  Block, pprf_internal, pprf_keyleaf, Nodes, check_bit_is_set, selected, sibling, puncture_round,
  puncture_loop,
}

module _ (prg : Block → Block × Block) (tag : ℕ) where
  -- One round, from a node `root` of the used part: the child on the tag's side is the new root,
  -- the other child is a leaf with the sibling key.
  pub record IsRound (m r : Nodes) (size root depth : ℕ) (b : Block) : Type 0 where
    pub same : (i : ℕ) → i < size → i ≢ root → r i ≡ m i
    pub root_type : (r root).type ≡ (m root).type
    pub il : (r root).v.il ≡ (if check_bit_is_set tag depth then size else size + 1)
    pub ir : (r root).v.ir ≡ (if check_bit_is_set tag depth then size + 1 else size)
    pub leaf_type : (r size).type ≡ pprf_keyleaf
    pub leaf_key : (r size).v ≡ sibling prg tag depth b
    pub new_type : (r (size + 1)).type ≡ pprf_internal

  pub round_lem :
      (m : Nodes) (size root depth : ℕ) (b : Block)
      → root < size
      → size + 2 < u32_mod
      → IsRound m (puncture_round prg m size root tag depth b) size root depth b
  round_lem m size root depth b h small = record {
    same = ground arith;
    root_type = ground arith;
    il = ground arith;
    ir = ground arith;
    leaf_type = ground arith;
    leaf_key = ground arith;
    new_type = ground arith;
  }

  pub puncture_loop-suc :
      (n : ℕ) (m : Nodes) (size root depth : ℕ) (b : Block)
      → size + 2 < u32_mod
      → puncture_loop prg (suc n) m size root tag depth b
        ≡ puncture_loop prg n
            (puncture_round prg m size root tag depth b)
            (size + 2)
            (size + 1)
            tag
            (depth + 1)
            (selected prg tag depth b)
  unfolding puncture_loop
  puncture_loop-suc n m size root depth b small =
      let e : add32 size 2 ≡ size + 2 = mod-eq_of_lt small in
      ap
        (λ k.
          puncture_loop prg n (puncture_round prg m size root tag depth b) k (size + 1) tag
            (depth + 1) (selected prg tag depth b))
        e

  pub puncture_loop-size :
      (n : ℕ) (m : Nodes) (size root depth : ℕ) (b : Block)
      → size + 2 * n < u32_mod
      → (puncture_loop prg n m size root tag depth b).size ≡ size + 2 * n
  puncture_loop-size zero m size root depth b small = unfold puncture_loop in omega arith
  puncture_loop-size (suc n) m size root depth b small =
      rw (puncture_loop-suc n m size root depth b (omega arith)) (
        puncture_loop-size n (puncture_round prg m size root tag depth b) (size + 2) (size + 1)
          (depth + 1) (selected prg tag depth b) (omega arith)
        ∙ omega arith)

  -- The loop writes only to its root and past the used part.
  pub puncture_loop-same :
      (n : ℕ) (m : Nodes) (size root depth : ℕ) (b : Block)
      → root < size
      → size + 2 * n < u32_mod
      → (i : ℕ) → i < size
      → i ≢ root
      → (puncture_loop prg n m size root tag depth b).nodes i ≡ m i
  puncture_loop-same zero m size root depth b h small i lt ne = unfold puncture_loop in ground arith
  puncture_loop-same (suc n) m size root depth b h small i lt ne =
      let r = round_lem m size root depth b h (omega arith) in
      rw (puncture_loop-suc n m size root depth b (omega arith)) (
        puncture_loop-same n (puncture_round prg m size root tag depth b) (size + 2) (size + 1)
          (depth + 1) (selected prg tag depth b) (omega arith) (omega arith) i (omega arith)
          (omega arith)
        ∙ r.same i lt ne)

  -- After the first round its root and leaf are left alone.
  pub puncture_loop-round :
      (n : ℕ) (m : Nodes) (size root depth : ℕ) (b : Block)
      → root < size
      → size + 2 * suc n < u32_mod
      → (i : ℕ) → i < size + 1
      → (puncture_loop prg (suc n) m size root tag depth b).nodes i
        ≡ puncture_round prg m size root tag depth b i
  puncture_loop-round n m size root depth b h small i lt =
      rw (puncture_loop-suc n m size root depth b (omega arith)) (
        puncture_loop-same n (puncture_round prg m size root tag depth b) (size + 2) (size + 1)
          (depth + 1) (selected prg tag depth b) (omega arith) (omega arith) i (omega arith)
          (omega arith))
