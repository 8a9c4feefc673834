-- ===== src/PprfTree/Shape.antt =====
-- The shape of a PPRF key. A node's label is its depth and the bits that lead to it; the source
-- keeps the same in its debug builds (`struct node_label`).
use secure_deletion.Common.{ℕ, ◌+◌, ◌*◌, ◌≤◌, ◌<◌, ◌≡◌, refl, ◌⊎◌, inl, inr, Bool, true, false}
use secure_deletion.PprfTree.{Block, NodeType, pprf_internal, pprf_keyleaf, pprf_puncture, Pprf}
use secure_deletion.PprfTree.Bits.{prefix, bit}

pub record Label : Type 0 where
  pub depth : ℕ
  pub bits : ℕ

abbrev pub child : Label → Bool → Label
child l b = record { depth = l.depth + 1; bits = 2 * l.bits + bit b }

-- The label that a tag's walk reaches after `depth` steps.
abbrev pub along : (tag depth : ℕ) → Label
along tag depth = record { depth = depth; bits = prefix tag depth }

-- What a node of each type needs: an internal node has children in the used part, a punctured
-- node stands at the full depth.
abbrev pub Fits : (pprf_depth size : ℕ) (lab : ℕ → Label) → Label → Block → NodeType → Type 0
Fits pprf_depth size lab l v pprf_internal =
    (l.depth < pprf_depth)
    × (v.il < size)
    × (v.ir < size)
    × (lab v.il ≡ child l false)
    × (lab v.ir ≡ child l true)
Fits pprf_depth size lab l v pprf_keyleaf = l.depth ≤ pprf_depth
Fits pprf_depth size lab l v pprf_puncture = l.depth ≡ pprf_depth

pub record IsLabelled (pprf_depth : ℕ) (p : Pprf) (lab : ℕ → Label) : Type 0 where
  pub nonempty : 0 < p.size
  pub root : lab 0 ≡ record { depth = 0; bits = 0 }
  pub node :
      (i : ℕ) → i < p.size → Fits pprf_depth p.size lab (lab i) (p.nodes i).v (p.nodes i).type

-- A key whose nodes can be labelled: the invariant of the component.
abbrev pub IsTree : (pprf_depth : ℕ) → Pprf → Type 0
IsTree pprf_depth p = (lab : ℕ → Label) × IsLabelled pprf_depth p lab

pub NodeType-cases :
    (t : NodeType) → (t ≡ pprf_internal) ⊎ ((t ≡ pprf_keyleaf) ⊎ (t ≡ pprf_puncture))
NodeType-cases pprf_internal = inl refl
NodeType-cases pprf_keyleaf = inr (inl refl)
NodeType-cases pprf_puncture = inr (inr refl)
