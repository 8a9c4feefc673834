-- ===== src/PprfTree/Walks.antt =====
-- The walks of a key after a whole puncture: of the punctured tag and of the others.
use secure_deletion.Common.{
  ℕ, zero, suc, ◌+◌, ◌-◌, ◌*◌, ◌≤◌, ◌<◌, ◌≡◌, ◌≢◌, inl, inr, ◌∙◌, ap, sym, some, arith,
  if◌then◌else◌, u32_mod, u64_mod, ℕ-cases,
}
use secure_deletion.PprfTree.{
  Block, Nodes, Pprf, check_bit_is_set, find_from, find_key, evaluate_loop,
}
use secure_deletion.PprfTree.Bits.{prefix}
use secure_deletion.PprfTree.Shape.{Label, along, IsLabelled, NodeType-cases}
use secure_deletion.PprfTree.Descent.{
  next, next-along, find_from-zero, find_from-internal, find_from-keyleaf, find_from-puncture,
  descend, descend-zero, descend-internal, descend-keyleaf, descend-puncture,
}
use secure_deletion.PprfTree.Fresh.{puncture_loop-descend, puncture_loop-find, last_node}
use secure_deletion.PprfTree.Relabel.{relabel, puncture_loop-IsLabelled}
use secure_deletion.PprfTree.Puncture.{
  Found, some_eq, none_ne, root_along, opened, opened-IsOpen, dug, dug-same,
}

-- Of the key `p` with the labels `lab`, in which the search for `tag` ends at `f`.
module _ (pprf_depth : ℕ) (p : Pprf) (lab : ℕ → Label) (is : IsLabelled pprf_depth p lab)
    (deep : pprf_depth ≤ 64) (prg : Block → Block × Block) (tag : ℕ)
    (f : Found pprf_depth p lab tag) (small : p.size + 2 * pprf_depth < u32_mod) where
  open f use {node as r, depth as d}

  abbrev before : Nodes
  before = opened pprf_depth p lab is deep prg tag f small

  abbrev after : Pprf
  after = dug pprf_depth p lab is deep prg tag f small

  after-same : (i : ℕ) → i < p.size → i ≢ r → after.nodes i ≡ p.nodes i
  after-same = dug-same pprf_depth p lab is deep prg tag f small

  -- The walk of another tag from the node that is after up.
  from_root :
      (other : ℕ)
      → prefix other d ≡ prefix tag d
      → prefix other pprf_depth ≢ prefix tag pprf_depth
      → descend prg after.nodes (pprf_depth - d) other d r
        ≡ descend prg p.nodes (pprf_depth - d) other d r
  from_root other e ne =
      let s : d + (pprf_depth - d) ≡ pprf_depth = omega (arith, f.shallow) in
      elim (NodeType-cases (p.nodes r).type) [
        | inl t ↦ absurd (f.not_internal t)
        | inr (inl t) ↦
            puncture_loop-descend prg tag (pprf_depth - d) before p.size r d (p.nodes r).v f.within
              (omega (arith, f.shallow)) (omega (arith, f.shallow)) (ground arith) other e (rw s ne)
            ∙ sym (descend-keyleaf prg p.nodes (pprf_depth - d) other d r t)
        | inr (inr t) ↦ absurd (ne (rw (f.punctured t) at e))
      ]

  at_root :
      (other n depth cur : ℕ)
      → prefix other pprf_depth ≢ prefix tag pprf_depth
      → depth + n ≡ pprf_depth
      → lab cur ≡ along other depth
      → cur ≡ r
      → descend prg after.nodes n other depth cur ≡ descend prg p.nodes n other depth cur
  at_root other n depth cur ne rounds here e =
      let same : along other depth ≡ along tag d = sym here ∙ ap lab e ∙ f.label in
      let depths : depth ≡ d = ap (λ k. k.depth) same in
      let prefixes : prefix other depth ≡ prefix tag d = ap (λ k. k.bits) same in
      let rest : n ≡ pprf_depth - d = omega arith in
      rw (e, depths, rest) (from_root other (rw depths at prefixes) ne)

  -- The walk of another tag from any node on its way.
  pub other_walk :
      (other : ℕ)
      → prefix other pprf_depth ≢ prefix tag pprf_depth
      → (n depth cur : ℕ) → depth + n ≡ pprf_depth
      → lab cur ≡ along other depth
      → cur < p.size
      → descend prg after.nodes n other depth cur ≡ descend prg p.nodes n other depth cur
  other_walk other ne zero depth cur rounds here h = elim (ℕ-cases cur r) [
    | inl e ↦ at_root other 0 depth cur ne rounds here e
    | inr apart ↦
        descend-zero prg after.nodes other depth cur
        ∙ ap (λ k. some k.v) (after-same cur h apart)
        ∙ sym (descend-zero prg p.nodes other depth cur)
  ]
  other_walk other ne (suc n) depth cur rounds here h = elim (ℕ-cases cur r) [
    | inl e ↦ at_root other (suc n) depth cur ne rounds here e
    | inr apart ↦
        let k : after.nodes cur ≡ p.nodes cur = after-same cur h apart in
        elim (NodeType-cases (p.nodes cur).type) [
          | inl t ↦
              let g = next-along pprf_depth p lab is other depth cur here h t (omega arith) in
              descend-internal prg after.nodes n other depth cur (ap (λ x. x.type) k ∙ t)
              ∙ ap
                  (λ x.
                    descend prg after.nodes n other (depth + 1)
                      (if check_bit_is_set other depth then x.v.ir else x.v.il))
                  k
              ∙ other_walk other ne n (depth + 1) (next p.nodes other depth cur) (omega arith) g.2
                  g.1
              ∙ sym (descend-internal prg p.nodes n other depth cur t)
          | inr (inl t) ↦
              descend-keyleaf prg after.nodes (suc n) other depth cur (ap (λ x. x.type) k ∙ t)
              ∙ ap (λ x. some (evaluate_loop prg (suc n) other depth x.v)) k
              ∙ sym (descend-keyleaf prg p.nodes (suc n) other depth cur t)
          | inr (inr t) ↦
              descend-puncture prg after.nodes n other depth cur (ap (λ x. x.type) k ∙ t)
              ∙ sym (descend-puncture prg p.nodes n other depth cur t)
        ]
  ]

  pub dug-IsLabelled :
      IsLabelled pprf_depth after (relabel prg tag pprf_depth deep (pprf_depth - d) p.size d lab)
  dug-IsLabelled =
      puncture_loop-IsLabelled prg tag pprf_depth deep (pprf_depth - d) before p.size r d
        (p.nodes r).v lab (opened-IsOpen pprf_depth p lab is deep prg tag f small)
        (omega (arith, f.shallow)) (omega (arith, f.shallow))

  -- The walk of the punctured tag comes to the node that is after up, and goes on below it.
  to_root :
      (n depth cur : ℕ)
      → depth + n ≡ pprf_depth
      → cur ≡ r
      → depth ≡ d
      → find_from after.nodes n tag depth cur ≡ find_from after.nodes (pprf_depth - d) tag d r
  to_root n depth cur rounds e k = let rest : n ≡ pprf_depth - d = omega arith in rw (e, k, rest)

  self_walk :
      (n depth cur : ℕ)
      → depth + n ≡ pprf_depth
      → lab cur ≡ along tag depth
      → cur < p.size
      → find_from p.nodes n tag depth cur ≡ (some r, d)
      → find_from after.nodes n tag depth cur ≡ find_from after.nodes (pprf_depth - d) tag d r
  self_walk zero depth cur rounds here h e =
      let s = sym (find_from-zero p.nodes tag depth cur) ∙ e in
      to_root 0 depth cur rounds (some_eq (ap (λ x. x.0) s)) (ap (λ x. x.1) s)
  self_walk (suc n) depth cur rounds here h e = elim (NodeType-cases (p.nodes cur).type) [
    | inl t ↦
        let ne : cur ≢ r = λ q. f.not_internal (ap (λ i. (p.nodes i).type) (sym q) ∙ t) in
        let k : after.nodes cur ≡ p.nodes cur = after-same cur h ne in
        let g = next-along pprf_depth p lab is tag depth cur here h t (omega arith) in
        find_from-internal after.nodes n tag depth cur (ap (λ x. x.type) k ∙ t)
        ∙ ap
            (λ x.
              find_from after.nodes n tag (depth + 1)
                (if check_bit_is_set tag depth then x.v.ir else x.v.il))
            k
        ∙ self_walk n (depth + 1) (next p.nodes tag depth cur) (omega arith) g.2 g.1
            (sym (find_from-internal p.nodes n tag depth cur t) ∙ e)
    | inr (inl t) ↦
        let s = sym (find_from-keyleaf p.nodes n tag depth cur t) ∙ e in
        to_root (suc n) depth cur rounds (some_eq (ap (λ x. x.0) s)) (ap (λ x. x.1) s)
    | inr (inr t) ↦
        let s = sym (find_from-puncture p.nodes n tag depth cur t) ∙ e in
        absurd (none_ne r (ap (λ x. x.0) s))
  ]

  pub dug-find :
      tag < u64_mod
      → find_key after.nodes pprf_depth tag
        ≡ (some (last_node (pprf_depth - d) p.size r), pprf_depth)
  unfolding find_key
  dug-find h =
      let s : d + (pprf_depth - d) ≡ pprf_depth = omega (arith, f.shallow) in
      self_walk pprf_depth 0 0 (omega arith) (root_along pprf_depth p lab is deep tag h) is.nonempty
        f.result
      ∙ puncture_loop-find prg tag (pprf_depth - d) before p.size r d (p.nodes r).v f.within
          (omega (arith, f.shallow)) (ground arith)
      ∙ ap (λ k. (some (last_node (pprf_depth - d) p.size r), k)) s

  -- A walk that ends at another node than the one after up still ends there.
  pub other_find :
      (other n depth cur last full : ℕ)
      → depth + n ≡ pprf_depth
      → lab cur ≡ along other depth
      → cur < p.size
      → last ≢ r
      → find_from p.nodes n other depth cur ≡ (some last, full)
      → find_from after.nodes n other depth cur ≡ (some last, full)
  other_find other zero depth cur last full rounds here h apart e =
      find_from-zero after.nodes other depth cur ∙ sym (find_from-zero p.nodes other depth cur) ∙ e
  other_find other (suc n) depth cur last full rounds here h apart e =
      elim (NodeType-cases (p.nodes cur).type) [
        | inl t ↦
            let ne : cur ≢ r = λ q. f.not_internal (ap (λ i. (p.nodes i).type) (sym q) ∙ t) in
            let k : after.nodes cur ≡ p.nodes cur = after-same cur h ne in
            let g = next-along pprf_depth p lab is other depth cur here h t (omega arith) in
            find_from-internal after.nodes n other depth cur (ap (λ x. x.type) k ∙ t)
            ∙ ap
                (λ x.
                  find_from after.nodes n other (depth + 1)
                    (if check_bit_is_set other depth then x.v.ir else x.v.il))
                k
            ∙ other_find other n (depth + 1) (next p.nodes other depth cur) last full (omega arith)
                g.2 g.1 apart (sym (find_from-internal p.nodes n other depth cur t) ∙ e)
        | inr (inl t) ↦
            let s = sym (find_from-keyleaf p.nodes n other depth cur t) ∙ e in
            let q : cur ≡ last = cc in
            let k : after.nodes cur ≡ p.nodes cur = after-same cur h (λ w. apart (sym q ∙ w)) in
            find_from-keyleaf after.nodes n other depth cur (ap (λ x. x.type) k ∙ t) ∙ s
        | inr (inr t) ↦
            let s = sym (find_from-puncture p.nodes n other depth cur t) ∙ e in
            absurd (none_ne last (ap (λ x. x.0) s))
      ]
