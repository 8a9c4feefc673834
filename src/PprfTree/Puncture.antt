-- ===== src/PprfTree/Puncture.antt =====
-- A whole puncture of a well-formed key.
use secure_deletion.Common.{
  ℕ, ◌+◌, ◌-◌, ◌*◌, ◌≤◌, ◌<◌, ◌≡◌, refl, ◌≢◌, ◌∙◌, ap, sym, Option, none, some, arith, u32_mod,
  u64_mod,
}
use secure_deletion.PprfTree.{
  Block, pprf_internal, pprf_puncture, Nodes, Pprf, set_key, set_type, zero_block, find_key,
  puncture_loop, puncture_found, puncture,
}
use secure_deletion.PprfTree.Bits.{prefix-zero}
use secure_deletion.PprfTree.Shape.{Label, along, IsLabelled}
use secure_deletion.PprfTree.Descent.{Lands, find_from-Lands}
use secure_deletion.PprfTree.Dig.{puncture_loop-same}
use secure_deletion.PprfTree.Relabel.{IsOpen, Fits-cong}

pub some_eq : {a b : ℕ} → some a ≡ some b → a ≡ b
some_eq w = cc

pub none_ne : (a : ℕ) → ◌≡◌ {A = Option ℕ} none (some a) → ⊥
none_ne a w = cc

-- Where `find_key` ends: a node and a depth.
pub record Found (pprf_depth : ℕ) (p : Pprf) (lab : ℕ → Label) (tag : ℕ) : Type 0 where
  pub node : ℕ
  pub depth : ℕ
  pub result : find_key p.nodes pprf_depth tag ≡ (some node, depth)
  pub within : node < p.size
  pub shallow : depth ≤ pprf_depth
  pub label : lab node ≡ along tag depth
  pub not_internal : (p.nodes node).type ≢ pprf_internal
  pub punctured : (p.nodes node).type ≡ pprf_puncture → depth ≡ pprf_depth

-- Of a key with the labels `lab`: where a search ends, and what a puncture there does.
module _ (pprf_depth : ℕ) (p : Pprf) (lab : ℕ → Label) (is : IsLabelled pprf_depth p lab)
    (deep : pprf_depth ≤ 64) where
  pub root_along : (tag : ℕ) → tag < u64_mod → lab 0 ≡ along tag 0
  root_along tag h = is.root ∙ ap (λ k. record { depth = 0; bits = k }) (sym (prefix-zero tag h))

  found_of :
      (tag : ℕ) (o : Option ℕ × ℕ)
      → find_key p.nodes pprf_depth tag ≡ o
      → Lands pprf_depth p lab tag o
      → Found pprf_depth p lab tag
  found_of tag (none, d) e l = absurd l
  found_of tag (some r, d) e l = record {
    node = r;
    depth = d;
    result = e;
    within = l.0;
    shallow = l.1;
    label = l.2;
    not_internal = l.3;
    punctured = l.4;
  }

  find_key-Lands :
      (tag : ℕ) → tag < u64_mod → Lands pprf_depth p lab tag (find_key p.nodes pprf_depth tag)
  unfolding find_key
  find_key-Lands tag h =
      find_from-Lands pprf_depth p lab is pprf_depth tag 0 0 deep (omega arith) (root_along tag h)
        is.nonempty

  pub find_key-Found : (tag : ℕ) → tag < u64_mod → Found pprf_depth p lab tag
  find_key-Found tag h = found_of tag (find_key p.nodes pprf_depth tag) refl (find_key-Lands tag h)

  module _ (prg : Block → Block × Block) (tag : ℕ) (f : Found pprf_depth p lab tag)
      (small : p.size + 2 * pprf_depth < u32_mod) where
    open f use {node as r, depth as d}

    abbrev pub opened : Nodes
    opened = set_type (set_key p.nodes r zero_block) r pprf_internal

    abbrev pub dug : Pprf
    dug = puncture_loop prg (pprf_depth - d) opened p.size r tag d (p.nodes r).v

    pub puncture-dug : puncture prg p pprf_depth tag ≡ (some r, dug)
    unfolding puncture
    puncture-dug = ap (puncture_found prg p pprf_depth tag) f.result

    opened-same : (i : ℕ) → i ≢ r → opened i ≡ p.nodes i
    opened-same i ne = ground arith

    pub opened-IsOpen : IsOpen prg tag pprf_depth deep opened p.size r d lab
    opened-IsOpen = record {
      inside = f.within;
      first = is.root;
      open_type = ground arith;
      open_label = f.label;
      node = λ i h ne.
          Fits-cong pprf_depth p.size lab (lab i) (lab i) (p.nodes i) (opened i) refl
            (opened-same i ne) (is.node i h);
    }

    pub dug-same : (i : ℕ) → i < p.size → i ≢ r → dug.nodes i ≡ p.nodes i
    dug-same i h ne =
        puncture_loop-same prg tag (pprf_depth - d) opened p.size r d (p.nodes r).v f.within
          (omega (arith, f.shallow)) i h ne
        ∙ opened-same i ne
