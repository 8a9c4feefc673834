-- ===== src/PprfTree/Sequence.antt =====
-- A fresh key and any number of punctures of it, against the key tree of Goldreich, Goldwasser
-- and Micali.
use secure_deletion.Common.{
  ℕ, zero, suc, ◌+◌, ◌-◌, ◌*◌, ◌/◌, ◌%◌, ◌^◌, ◌≤◌, ◌<◌, ◌≡◌, refl, ◌∙◌, ap, inl, inr, true, false,
  ℕ-cases, List, [], ◌∷◌, some, Bool, arith, if◌then◌else◌, ◌==◌, shl64, u32_mod, length, All, In,
}
use secure_deletion.PprfTree.{
  Block, pprf_keyleaf, Pprf, init_master_key, check_bit_is_set, selected, evaluate_loop,
  evaluate_at_tag, puncture_at_tag, zero_block,
}
use secure_deletion.PprfTree.Bits.{prefix, prefix-suc, prefix-shl64}
use secure_deletion.PprfTree.Shape.{IsTree}
use secure_deletion.PprfTree.Descent.{descend-keyleaf, evaluate-descend}
use secure_deletion.PprfTree.Erased.{IsErased, Cleared}
use secure_deletion.PprfTree.Contract.{
  puncture_at_tag-IsErased, evaluate-IsPunctured, IsPunctured, puncture_at_tag-IsTree,
  puncture_at_tag-size, puncture_at_tag-IsPunctured, IsPunctured-puncture, evaluate-puncture_ne,
}

-- Tags of `pprf_depth` bits.
abbrev pub AreTags : (pprf_depth : ℕ) → List ℕ → Type 0
AreTags pprf_depth = All (λ t. t < 2 ^ pprf_depth)

module _ (prg : Block → Block × Block) where
  -- The key of the node at `depth` that the number `tag` names: the root's key, then at each level
  -- the half of the generator's output that the next bit selects.
  pub node_key : (depth tag : ℕ) → Block → Block
  node_key zero tag b = b
  node_key (suc depth) tag b =
      if tag % 2 == 1
      then (prg (node_key depth (tag / 2) b)).1
      else (prg (node_key depth (tag / 2) b)).0

  abbrev pick : Bool → Block → Block
  pick c b = if c then (prg b).1 else (prg b).0

  key_step :
      (tag depth : ℕ) (b : Block)
      → depth < 64
      → selected prg tag depth (node_key depth (prefix tag depth) b)
        ≡ node_key (suc depth) (prefix tag (depth + 1)) b
  unfolding node_key
  key_step tag depth b h =
      let e = prefix-suc tag depth h in
      let high : prefix tag (depth + 1) / 2 ≡ prefix tag depth = ground arith in
      let low : (prefix tag (depth + 1) % 2 == 1) ≡ check_bit_is_set tag depth = ground arith in
      rw (high, low)

  evaluate_loop-node_key :
      (n tag depth : ℕ) (b : Block)
      → depth + n ≤ 64
      → evaluate_loop prg n tag depth (node_key depth (prefix tag depth) b)
        ≡ node_key (depth + n) (prefix tag (depth + n)) b
  unfolding evaluate_loop
  evaluate_loop-node_key zero tag depth b h = let e : depth + 0 ≡ depth = omega arith in rw e
  evaluate_loop-node_key (suc n) tag depth b h =
      let e : depth + suc n ≡ depth + 1 + n = omega arith in
      let k : suc depth ≡ depth + 1 = omega arith in
      rw e (
        ap (evaluate_loop prg n tag (depth + 1))
          (key_step tag depth b (omega arith) ∙ ap (λ d. node_key d (prefix tag (depth + 1)) b) k)
        ∙ evaluate_loop-node_key n tag (depth + 1) b (omega arith))

  -- The punctures of a list of tags, the first one first.
  pub punctures : (pprf_depth : ℕ) → List ℕ → Pprf → Pprf
  punctures pprf_depth [] p = p
  punctures pprf_depth (t ∷ ts) p = punctures pprf_depth ts (puncture_at_tag prg p pprf_depth t).1

  evaluate_loop-root :
      (n tag : ℕ) (b : Block) → n ≤ 64 → evaluate_loop prg n tag 0 b ≡ node_key n (prefix tag n) b
  unfolding node_key
  evaluate_loop-root n tag b h =
      let e : 0 + n ≡ n = omega arith in rw e at (evaluate_loop-node_key n tag 0 b (omega arith))

  module _ (pprf_depth : ℕ) (deep : pprf_depth ≤ 64) where
    fresh_node : (b : Block) (i : ℕ) → i < 1 → ((init_master_key b).nodes i).type ≡ pprf_keyleaf
    unfolding init_master_key
    fresh_node b i h = ground arith

    -- A fresh master key is a tree, for every depth up to 64.
    pub init_master_key-IsTree : (b : Block) → IsTree pprf_depth (init_master_key b)
    unfolding init_master_key
    init_master_key-IsTree b = (
      λ _. record { depth = 0; bits = 0 },
      record {
        nonempty = omega arith;
        root = refl;
        node = λ i h. rw (fresh_node b i h) (omega arith);
      },
    )

    -- A fresh master key evaluates, at every tag of `pprf_depth` bits, to the key of that leaf in the
    -- tree of Goldreich, Goldwasser and Micali, for every depth up to 64.
    evaluate-init :
        (b : Block) (tag : ℕ)
        → tag < 2 ^ pprf_depth
        → evaluate_at_tag prg (init_master_key b).nodes pprf_depth tag
          ≡ some (node_key pprf_depth tag b)
    unfolding evaluate_at_tag init_master_key
    evaluate-init b tag fits =
        let t : ℕ = shl64 tag (64 - pprf_depth) in
        evaluate-descend prg (init_master_key b).nodes pprf_depth t
        ∙ descend-keyleaf prg (init_master_key b).nodes pprf_depth t 0 0
            (fresh_node b 0 (omega arith))
        ∙ ap some (
            evaluate_loop-root pprf_depth t b deep
            ∙ ap (λ k. node_key pprf_depth k b) (prefix-shl64 tag pprf_depth deep fits))

    -- Evaluation at a tag that none of the punctures names is not changed by them.
    evaluate-punctures_ne :
        (ts : List ℕ) (p : Pprf)
        → IsTree pprf_depth p
        → AreTags pprf_depth ts
        → p.size + 2 * pprf_depth * length ts < u32_mod
        → (tag : ℕ) → tag < 2 ^ pprf_depth
        → ¬ In tag ts
        → evaluate_at_tag prg (punctures pprf_depth ts p).nodes pprf_depth tag
          ≡ evaluate_at_tag prg p.nodes pprf_depth tag
    unfolding punctures
    evaluate-punctures_ne [] p tree are small tag fits out = refl
    evaluate-punctures_ne (t ∷ ts) p tree (is, are) small tag fits out =
        let safe : p.size + 2 * pprf_depth < u32_mod = omega arith in
        let p' = (puncture_at_tag prg p pprf_depth t).1 in
        evaluate-punctures_ne ts p' (puncture_at_tag-IsTree prg pprf_depth deep p tree t is safe)
          are (omega (arith, (puncture_at_tag-size prg pprf_depth deep p tree t is safe).1)) tag
          fits (λ w. out (inr w))
        ∙ evaluate-puncture_ne prg pprf_depth deep p tree t is safe tag fits (λ e. out (inl e))

    IsPunctured-punctures :
        (ts : List ℕ) (p : Pprf)
        → IsTree pprf_depth p
        → AreTags pprf_depth ts
        → p.size + 2 * pprf_depth * length ts < u32_mod
        → (tag : ℕ) → tag < 2 ^ pprf_depth
        → IsPunctured pprf_depth p.nodes tag
        → IsPunctured pprf_depth (punctures pprf_depth ts p).nodes tag
    unfolding punctures
    IsPunctured-punctures [] p tree are small tag fits was = was
    IsPunctured-punctures (t ∷ ts) p tree (is, are) small tag fits was =
        let safe : p.size + 2 * pprf_depth < u32_mod = omega arith in
        let p' = (puncture_at_tag prg p pprf_depth t).1 in
        IsPunctured-punctures ts p' (puncture_at_tag-IsTree prg pprf_depth deep p tree t is safe)
          are (omega (arith, (puncture_at_tag-size prg pprf_depth deep p tree t is safe).1)) tag
          fits (IsPunctured-puncture prg pprf_depth deep p tree t is safe tag fits was)

    punctures-IsPunctured :
        (ts : List ℕ) (p : Pprf)
        → IsTree pprf_depth p
        → AreTags pprf_depth ts
        → p.size + 2 * pprf_depth * length ts < u32_mod
        → (tag : ℕ) → tag < 2 ^ pprf_depth
        → In tag ts
        → IsPunctured pprf_depth (punctures pprf_depth ts p).nodes tag
    unfolding punctures
    punctures-IsPunctured [] p tree are small tag fits at = absurd at
    punctures-IsPunctured (t ∷ ts) p tree (is, are) small tag fits (inl e) =
        let safe : p.size + 2 * pprf_depth < u32_mod = omega arith in
        let p' = (puncture_at_tag prg p pprf_depth t).1 in
        IsPunctured-punctures ts p' (puncture_at_tag-IsTree prg pprf_depth deep p tree t is safe)
          are (omega (arith, (puncture_at_tag-size prg pprf_depth deep p tree t is safe).1)) tag
          fits (rw e (puncture_at_tag-IsPunctured prg pprf_depth deep p tree t is safe))
    punctures-IsPunctured (t ∷ ts) p tree (is, are) small tag fits (inr at) =
        let safe : p.size + 2 * pprf_depth < u32_mod = omega arith in
        let p' = (puncture_at_tag prg p pprf_depth t).1 in
        punctures-IsPunctured ts p' (puncture_at_tag-IsTree prg pprf_depth deep p tree t is safe)
          are (omega (arith, (puncture_at_tag-size prg pprf_depth deep p tree t is safe).1)) tag
          fits at

    init_master_key-IsErased :
        (b : Block) → IsErased (init_master_key b).nodes (init_master_key b).size
    unfolding init_master_key
    init_master_key-IsErased b = record {
      cleared = λ i. elim (ℕ-cases 0 i) [
        | inl e ↦ let s : (0 == i) ≡ true = ground arith in rw s tt
        | inr ne ↦ let s : (0 == i) ≡ false = ground arith in rw s refl
      ];
      unused = λ i le. let s : (0 == i) ≡ false = ground arith in rw s refl;
    }

    punctures-IsErased :
        (ts : List ℕ) (p : Pprf)
        → IsTree pprf_depth p
        → AreTags pprf_depth ts
        → p.size + 2 * pprf_depth * length ts < u32_mod
        → IsErased p.nodes p.size
        → IsErased (punctures pprf_depth ts p).nodes (punctures pprf_depth ts p).size
    unfolding punctures
    punctures-IsErased [] p tree are small erased = erased
    punctures-IsErased (t ∷ ts) p tree (is, are) small erased =
        let safe : p.size + 2 * pprf_depth < u32_mod = omega arith in
        let p' = (puncture_at_tag prg p pprf_depth t).1 in
        punctures-IsErased ts p' (puncture_at_tag-IsTree prg pprf_depth deep p tree t is safe) are
          (omega (arith, (puncture_at_tag-size prg pprf_depth deep p tree t is safe).1))
          (puncture_at_tag-IsErased prg pprf_depth deep p tree t is safe erased)

    -- A fresh key after any punctures.
    module _ (random : Block) (ts : List ℕ) (are : AreTags pprf_depth ts)
        (small : 1 + 2 * pprf_depth * length ts < u32_mod) (tag : ℕ)
        (fits : tag < 2 ^ pprf_depth) where
      abbrev key : Pprf
      key = punctures pprf_depth ts (init_master_key random)

      fresh_small : (init_master_key random).size + 2 * pprf_depth * length ts < u32_mod
      unfolding init_master_key
      fresh_small = small

      -- After the punctures of any list of tags of `pprf_depth` bits, as many as leave the number of
      -- nodes below 2^32, a fresh key of a depth up to 64 still evaluates at every tag that is not in
      -- the list to the key of that leaf in the tree of Goldreich, Goldwasser and Micali.
      pub evaluate-punctures :
          ¬ In tag ts
          → evaluate_at_tag prg key.nodes pprf_depth tag ≡ some (node_key pprf_depth tag random)
      evaluate-punctures out =
          evaluate-punctures_ne ts (init_master_key random) (init_master_key-IsTree random) are
            fresh_small tag fits out
          ∙ evaluate-init random tag fits

      -- After the punctures of any list of tags of `pprf_depth` bits, as many as leave the number
      -- of nodes below 2^32, on a fresh key of a depth up to 64, the keys are gone: at every tag of the
      -- list `evaluate_at_tag` gives 32 zero bytes (and not -1), since the search ends, at the full
      -- depth, in a node of the type pprf_puncture that is zero; and a node that is no leaf has no
      -- byte of a key: zeros, or two indices and zeros.
      pub find-punctures :
          In tag ts
          → (evaluate_at_tag prg key.nodes pprf_depth tag ≡ some zero_block)
            × IsPunctured pprf_depth key.nodes tag
            × ((i : ℕ) → Cleared (key.nodes i).type (key.nodes i).v)
      find-punctures at =
          let erased =
            punctures-IsErased ts (init_master_key random) (init_master_key-IsTree random) are
              fresh_small (init_master_key-IsErased random) in
          let gone =
            punctures-IsPunctured ts (init_master_key random) (init_master_key-IsTree random) are
              fresh_small tag fits at in
          (
            evaluate-IsPunctured prg pprf_depth key.nodes key.size tag erased gone,
            gone,
            erased.cleared,
          )
