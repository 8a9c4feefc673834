-- ===== src/PprfTree/Relabel.antt =====
-- The loop of `puncture` keeps the shape: it labels the nodes that it lays out.
use secure_deletion.Common.{
  ℕ, zero, suc, ◌+◌, ◌*◌, ◌≤◌, ◌<◌, ◌≡◌, refl, ◌≢◌, inl, inr, ◌∙◌, ap, not, arith, if◌then◌else◌,
  ◌==◌, u32_mod, ℕ-cases, Bool-cases,
}
use secure_deletion.PprfTree.{
  Block, NodeType, pprf_internal, pprf_keyleaf, pprf_puncture, Keynode, Nodes, set_type,
  check_bit_is_set, selected, puncture_round, puncture_loop,
}
use secure_deletion.PprfTree.Bits.{prefix-suc}
use secure_deletion.PprfTree.Shape.{Label, child, along, Fits, IsLabelled}
use secure_deletion.PprfTree.Dig.{IsRound, round_lem, puncture_loop-suc}

-- A node keeps fitting while the used part grows and the old labels stay.
pub Fits-grow :
    (pprf_depth size size' : ℕ) (lab lab' : ℕ → Label)
    → size ≤ size'
    → ((i : ℕ) → i < size → lab' i ≡ lab i)
    → (l : Label) (v : Block) (t : NodeType) → Fits pprf_depth size lab l v t
    → Fits pprf_depth size' lab' l v t
Fits-grow pprf_depth size size' lab lab' le same l v pprf_internal f =
    (f.0, omega arith, omega arith, same v.il f.1 ∙ f.3, same v.ir f.2 ∙ f.4)
Fits-grow pprf_depth size size' lab lab' le same l v pprf_keyleaf f = f
Fits-grow pprf_depth size size' lab lab' le same l v pprf_puncture f = f

module _ (pprf_depth size : ℕ) (lab : ℕ → Label) where
  pub Fits-cong :
      (l l' : Label) (k k' : Keynode)
      → l' ≡ l
      → k' ≡ k
      → Fits pprf_depth size lab l k.v k.type
      → Fits pprf_depth size lab l' k'.v k'.type
  Fits-cong l l' k k' e f x = rw (e, f) x

  Fits-internal :
      (l l' : Label) (v : Block) (t : NodeType)
      → l' ≡ l
      → t ≡ pprf_internal
      → Fits pprf_depth size lab l v pprf_internal
      → Fits pprf_depth size lab l' v t
  Fits-internal l l' v t e f x = rw (e, f) x

  Fits-leaf :
      (l : Label) (v : Block) (t : NodeType)
      → t ≡ pprf_keyleaf
      → l.depth ≤ pprf_depth
      → Fits pprf_depth size lab l v t
  Fits-leaf l v t f x = rw f x

  Fits-punctured :
      (l : Label) (v : Block) (t : NodeType)
      → t ≡ pprf_puncture
      → l.depth ≡ pprf_depth
      → Fits pprf_depth size lab l v t
  Fits-punctured l v t f x = rw f x

module _ (prg : Block → Block × Block) (tag pprf_depth : ℕ) (deep : pprf_depth ≤ 64) where
  -- The labels of the two nodes of a round.
  abbrev label_round : (size depth : ℕ) → (ℕ → Label) → ℕ → Label
  label_round size depth lab i =
      if i == size
      then child (along tag depth) (not (check_bit_is_set tag depth))
      else if i == size + 1
      then along tag (depth + 1)
      else lab i

  pub relabel : (n size depth : ℕ) → (ℕ → Label) → ℕ → Label
  relabel zero size depth lab = lab
  relabel (suc n) size depth lab = relabel n (size + 2) (depth + 1) (label_round size depth lab)

  pub relabel-same :
      (n size depth : ℕ) (lab : ℕ → Label) (i : ℕ) → i < size → relabel n size depth lab i ≡ lab i
  unfolding relabel
  relabel-same zero size depth lab i h = refl
  relabel-same (suc n) size depth lab i h =
      relabel-same n (size + 2) (depth + 1) (label_round size depth lab) i (omega arith)
      ∙ ground arith

  -- The shape while the loop runs: every node but its root fits.
  pub record IsOpen (m : Nodes) (size root depth : ℕ) (lab : ℕ → Label) : Type 0 where
    pub inside : root < size
    pub first : lab 0 ≡ record { depth = 0; bits = 0 }
    pub open_type : (m root).type ≡ pprf_internal
    pub open_label : lab root ≡ along tag depth
    pub node : (i : ℕ) → i < size → i ≢ root → Fits pprf_depth size lab (lab i) (m i).v (m i).type

  module _ (m : Nodes) (size root depth : ℕ) (b : Block) (lab : ℕ → Label)
      (is : IsOpen m size root depth lab) (small : size + 2 < u32_mod)
      (below : depth < pprf_depth) where
    abbrev m' : Nodes
    m' = puncture_round prg m size root tag depth b

    abbrev lab' : ℕ → Label
    lab' = label_round size depth lab

    abbrev r : IsRound prg tag m m' size root depth b
    r = round_lem prg tag m size root depth b is.inside small

    lab'-same : (i : ℕ) → i < size → lab' i ≡ lab i
    lab'-same i h = ground arith

    lab'-leaf : lab' size ≡ child (along tag depth) (not (check_bit_is_set tag depth))
    lab'-leaf = ground arith

    lab'-new : lab' (size + 1) ≡ child (along tag depth) (check_bit_is_set tag depth)
    lab'-new =
        let e : lab' (size + 1) ≡ along tag (depth + 1) = ground arith in
        e ∙ ap (λ k. record { depth = depth + 1; bits = k }) (prefix-suc tag depth (omega arith))

    root_fits : Fits pprf_depth (size + 2) lab' (lab' root) (m' root).v (m' root).type
    root_fits =
        Fits-internal pprf_depth (size + 2) lab' (along tag depth) (lab' root) (m' root).v
          (m' root).type (lab'-same root is.inside ∙ is.open_label) (r.root_type ∙ is.open_type)
          (elim (Bool-cases (check_bit_is_set tag depth)) [
            | inl c ↦
                let il_eq : (m' root).v.il ≡ size = r.il ∙ rw c in
                let ir_eq : (m' root).v.ir ≡ size + 1 = r.ir ∙ rw c in
                (
                  below,
                  omega arith,
                  omega arith,
                  ap lab' il_eq ∙ lab'-leaf ∙ rw c,
                  ap lab' ir_eq ∙ lab'-new ∙ rw c,
                )
            | inr c ↦
                let il_eq : (m' root).v.il ≡ size + 1 = r.il ∙ rw c in
                let ir_eq : (m' root).v.ir ≡ size = r.ir ∙ rw c in
                (
                  below,
                  omega arith,
                  omega arith,
                  ap lab' il_eq ∙ lab'-new ∙ rw c,
                  ap lab' ir_eq ∙ lab'-leaf ∙ rw c,
                )
          ])

    round_node :
        (i : ℕ)
        → i < size + 2
        → i ≢ size + 1
        → Fits pprf_depth (size + 2) lab' (lab' i) (m' i).v (m' i).type
    round_node i h ne = elim (ℕ-cases i root) [
      | inl e ↦ rw e root_fits
      | inr ne_root ↦ elim (ℕ-cases i size) [
        | inl e ↦ rw e (
            Fits-leaf pprf_depth (size + 2) lab' (lab' size) (m' size).v (m' size).type r.leaf_type
              (ground (arith, lab'-leaf)))
        | inr ne_size ↦
            Fits-cong pprf_depth (size + 2) lab' (lab i) (lab' i) (m i) (m' i)
              (lab'-same i (omega arith)) (r.same i (omega arith) ne_root)
              (Fits-grow pprf_depth size (size + 2) lab lab' (omega arith) lab'-same (lab i) (m i).v
                (m i).type (is.node i (omega arith) ne_root))
      ]
    ]

    pub round-IsOpen : IsOpen m' (size + 2) (size + 1) (depth + 1) lab'
    round-IsOpen = record {
      inside = omega arith;
      first = lab'-same 0 (omega (arith, is.inside)) ∙ is.first;
      open_type = r.new_type;
      open_label = ground arith;
      node = round_node;
    }

  close_node :
      (m : Nodes) (size root depth : ℕ) (lab : ℕ → Label)
      → IsOpen m size root depth lab
      → depth ≡ pprf_depth
      → (i : ℕ) → i < size
      → Fits pprf_depth size lab
          (lab i)
          (set_type m root pprf_puncture i).v
          (set_type m root pprf_puncture i).type
  close_node m size root depth lab is full i h = elim (ℕ-cases i root) [
    | inl e ↦ rw e (
        Fits-punctured pprf_depth size lab (lab root) (set_type m root pprf_puncture root).v
          (set_type m root pprf_puncture root).type (ground arith)
          (ap (λ k. k.depth) is.open_label ∙ full))
    | inr ne ↦
        Fits-cong pprf_depth size lab (lab i) (lab i) (m i) (set_type m root pprf_puncture i) refl
          (ground arith) (is.node i h ne)
  ]

  close :
      (m : Nodes) (size root depth : ℕ) (b : Block) (lab : ℕ → Label)
      → IsOpen m size root depth lab
      → depth ≡ pprf_depth
      → IsLabelled pprf_depth (puncture_loop prg 0 m size root tag depth b) lab
  unfolding puncture_loop
  close m size root depth b lab is full = record {
    nonempty = omega (arith, is.inside);
    root = is.first;
    node = close_node m size root depth lab is full;
  }

  pub puncture_loop-IsLabelled :
      (n : ℕ) (m : Nodes) (size root depth : ℕ) (b : Block) (lab : ℕ → Label)
      → IsOpen m size root depth lab
      → size + 2 * n < u32_mod
      → depth + n ≡ pprf_depth
      → IsLabelled pprf_depth
          (puncture_loop prg n m size root tag depth b)
          (relabel n size depth lab)
  unfolding relabel
  puncture_loop-IsLabelled zero m size root depth b lab is small rounds =
      close m size root depth b lab is (omega arith)
  puncture_loop-IsLabelled (suc n) m size root depth b lab is small rounds =
      rw (puncture_loop-suc prg tag n m size root depth b (omega arith)) (
        puncture_loop-IsLabelled n (puncture_round prg m size root tag depth b) (size + 2)
          (size + 1) (depth + 1) (selected prg tag depth b) (label_round size depth lab)
          (round-IsOpen m size root depth b lab is (omega arith) (omega arith)) (omega arith)
          (omega arith))
