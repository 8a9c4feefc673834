-- ===== src/PprfTree/Descent.antt =====
-- Where `find_key` ends in a well-formed key, and evaluation as one descent.
use secure_deletion.Common.{
  ℕ, zero, suc, ◌+◌, ◌-◌, ◌≤◌, ◌<◌, ◌≡◌, refl, ◌≢◌, inl, inr, ◌∙◌, ap, sym, Option, none, some,
  arith, if◌then◌else◌, Bool-cases,
}
use secure_deletion.PprfTree.{
  Block, pprf_internal, pprf_keyleaf, pprf_puncture, Nodes, Pprf, check_bit_is_set, find_from,
  evaluate_loop, evaluate_found, evaluate,
}
use secure_deletion.PprfTree.Bits.{prefix-suc}
use secure_deletion.PprfTree.Shape.{Label, along, Fits, IsLabelled, NodeType-cases}

-- The child that the walk of `tag` takes at a node.
abbrev pub next : Nodes → (tag depth cur : ℕ) → ℕ
next m tag depth cur = if check_bit_is_set tag depth then (m cur).v.ir else (m cur).v.il

pub find_from-zero :
    (m : Nodes) (tag depth cur : ℕ) → find_from m 0 tag depth cur ≡ (some cur, depth)
unfolding find_from
find_from-zero m tag depth cur = refl

module _ (m : Nodes) (n tag depth cur : ℕ) where
  pub find_from-internal :
      (m cur).type ≡ pprf_internal
      → find_from m (suc n) tag depth cur ≡ find_from m n tag (depth + 1) (next m tag depth cur)
  unfolding find_from
  find_from-internal e = rw (e, find_from)

  pub find_from-keyleaf :
      (m cur).type ≡ pprf_keyleaf → find_from m (suc n) tag depth cur ≡ (some cur, depth)
  unfolding find_from
  find_from-keyleaf e = rw (e, find_from)

  pub find_from-puncture :
      (m cur).type ≡ pprf_puncture → find_from m (suc n) tag depth cur ≡ (none, depth)
  unfolding find_from
  find_from-puncture e = rw (e, find_from)

module _ (prg : Block → Block × Block) where
  -- Evaluation from a node down, without the detour over the node that `find_key` returns.
  unfoldable pub descend : Nodes → ℕ → (tag depth cur : ℕ) → Option Block
  descend m zero tag depth cur = some (m cur).v
  descend m (suc n) tag depth cur = elim ((m cur).type) [
    | pprf_keyleaf ↦ some (evaluate_loop prg (suc n) tag depth (m cur).v)
    | pprf_internal ↦ descend m n tag (depth + 1) (next m tag depth cur)
    | pprf_puncture ↦ none
  ]

  pub descend-zero : (m : Nodes) (tag depth cur : ℕ) → descend m 0 tag depth cur ≡ some (m cur).v
  unfolding descend
  descend-zero m tag depth cur = refl

  pub descend-internal :
      (m : Nodes) (n tag depth cur : ℕ)
      → (m cur).type ≡ pprf_internal
      → descend m (suc n) tag depth cur ≡ descend m n tag (depth + 1) (next m tag depth cur)
  unfolding descend
  descend-internal m n tag depth cur e = rw (e, descend)

  pub descend-keyleaf :
      (m : Nodes) (n tag depth cur : ℕ)
      → (m cur).type ≡ pprf_keyleaf
      → descend m n tag depth cur ≡ some (evaluate_loop prg n tag depth (m cur).v)
  unfolding descend evaluate_loop
  descend-keyleaf m zero tag depth cur e = refl
  descend-keyleaf m (suc n) tag depth cur e = rw (e, descend)

  pub descend-puncture :
      (m : Nodes) (n tag depth cur : ℕ)
      → (m cur).type ≡ pprf_puncture
      → descend m (suc n) tag depth cur ≡ none
  unfolding descend
  descend-puncture m n tag depth cur e = rw (e, descend)

  evaluate_loop-zero : (tag depth : ℕ) (b : Block) → evaluate_loop prg 0 tag depth b ≡ b
  unfolding evaluate_loop
  evaluate_loop-zero tag depth b = refl

  evaluate_found-descend :
      (m : Nodes) (n tag depth cur pprf_depth : ℕ)
      → depth + n ≡ pprf_depth
      → evaluate_found prg m pprf_depth tag (find_from m n tag depth cur)
        ≡ descend m n tag depth cur
  evaluate_found-descend m zero tag depth cur pprf_depth rounds =
      let e : pprf_depth - depth ≡ 0 = omega arith in
      rw (find_from-zero m tag depth cur, e, descend-zero m tag depth cur)
        (ap some (evaluate_loop-zero tag depth (m cur).v))
  evaluate_found-descend m (suc n) tag depth cur pprf_depth rounds =
      elim (NodeType-cases (m cur).type) [
        | inl e ↦
            rw (find_from-internal m n tag depth cur e, descend-internal m n tag depth cur e)
              (evaluate_found-descend m n tag (depth + 1) (next m tag depth cur) pprf_depth
                (omega arith))
        | inr (inl e) ↦
            let k : pprf_depth - depth ≡ suc n = omega arith in
            rw (find_from-keyleaf m n tag depth cur e, k, descend-keyleaf m (suc n) tag depth cur e)
        | inr (inr e) ↦
            rw (find_from-puncture m n tag depth cur e, descend-puncture m n tag depth cur e)
      ]

  pub evaluate-descend :
      (m : Nodes) (pprf_depth tag : ℕ)
      → evaluate prg m pprf_depth tag ≡ descend m pprf_depth tag 0 0
  unfolding evaluate
  evaluate-descend m pprf_depth tag =
      evaluate_found-descend m pprf_depth tag 0 0 pprf_depth (omega arith)

-- The node `r` at which a walk ends, and the depth.
abbrev pub Lands : (pprf_depth : ℕ) (p : Pprf) (lab : ℕ → Label) (tag : ℕ) → Option ℕ × ℕ → Type 0
Lands pprf_depth p lab tag (none, depth) = ⊥
Lands pprf_depth p lab tag (some r, depth) =
    (r < p.size)
    × (depth ≤ pprf_depth)
    × (lab r ≡ along tag depth)
    × ((p.nodes r).type ≢ pprf_internal)
    × ((p.nodes r).type ≡ pprf_puncture → depth ≡ pprf_depth)

module _ (pprf_depth : ℕ) (p : Pprf) (lab : ℕ → Label) (is : IsLabelled pprf_depth p lab) where
  module _ (tag depth cur : ℕ) (here : lab cur ≡ along tag depth) (within : cur < p.size) where
    fits : Fits pprf_depth p.size lab (along tag depth) (p.nodes cur).v (p.nodes cur).type
    fits = rw here at (is.node cur within)

    -- At an internal node the walk goes on to a node of the used part, one level down.
    pub next-along :
        (p.nodes cur).type ≡ pprf_internal
        → depth < 64
        → (depth < pprf_depth)
          × (next p.nodes tag depth cur < p.size)
          × (lab (next p.nodes tag depth cur) ≡ along tag (depth + 1))
    next-along e h =
        let f = rw e at fits in
        elim (Bool-cases (check_bit_is_set tag depth)) [
          | inl b ↦ (
            f.0,
            rw b f.2,
            rw b (
                f.4
                ∙ ap (λ k. record { depth = depth + 1; bits = k })
                    (sym (prefix-suc tag depth h ∙ rw b))),
          )
          | inr b ↦ (
            f.0,
            rw b f.1,
            rw b (
                f.3
                ∙ ap (λ k. record { depth = depth + 1; bits = k })
                    (sym (prefix-suc tag depth h ∙ rw b))),
          )
        ]

  -- The walk of `find_key` lands on a node that is not internal, whose label is along the tag; it
  -- is a punctured one only at the full depth. NULL is never returned.
  pub find_from-Lands :
      (n tag depth cur : ℕ)
      → pprf_depth ≤ 64
      → depth + n ≡ pprf_depth
      → lab cur ≡ along tag depth
      → cur < p.size
      → Lands pprf_depth p lab tag (find_from p.nodes n tag depth cur)
  find_from-Lands zero tag depth cur deep rounds here within =
      let f = fits tag depth cur here within in
      rw (find_from-zero p.nodes tag depth cur)
        (within, omega arith, here, λ e. absurd (full (rw e at f)), λ e. omega arith)
    where
      full : Fits pprf_depth p.size lab (along tag depth) (p.nodes cur).v pprf_internal → ⊥
      full g = omega arith
  find_from-Lands (suc n) tag depth cur deep rounds here within =
      elim (NodeType-cases (p.nodes cur).type) [
        | inl e ↦
            let g = next-along tag depth cur here within e (omega arith) in
            rw (find_from-internal p.nodes n tag depth cur e) (
              find_from-Lands n tag (depth + 1) (next p.nodes tag depth cur) deep (omega arith) g.2
                g.1)
        | inr (inl e) ↦
            rw (find_from-keyleaf p.nodes n tag depth cur e)
              (within, omega arith, here, (λ q. cc), (λ q. cc))
        | inr (inr e) ↦
            let f : depth ≡ pprf_depth = rw e at (fits tag depth cur here within) in
            absurd (omega arith)
      ]
