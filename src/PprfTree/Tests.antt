-- ===== src/PprfTree/Tests.antt =====
-- The PPRF key with a toy generator, at the depth of `test_puncture_0`, and the theorems there.
use secure_deletion.Common.{
  ℕ, ◌+◌, ◌*◌, ◌^◌, ◌<◌, ◌≡◌, refl, ◌≢◌, [], ◌∷◌, none, some, inl, inr, arith,
}
use secure_deletion.PprfTree.{
  Block, Pprf, zero_block, init_master_key, evaluate_at_tag, puncture_at_tag,
}
use secure_deletion.PprfTree.Shape.{IsTree}
use secure_deletion.PprfTree.Erased.{Cleared}
use secure_deletion.PprfTree.Contract.{IsPunctured, puncture_at_tag-IsTree, evaluate-puncture_ne}
use secure_deletion.PprfTree.Sequence.{
  node_key, punctures, init_master_key-IsTree, evaluate-punctures, find-punctures,
}

-- A key's number is its place in the tree.
abbrev prg : Block → Block × Block
prg b = (record b { il = 2 * b.il }, record b { il = 2 * b.il + 1 })

abbrev random : Block
random = record { il = 1; ir = 7; rest = [] }

program : Unit {0}
unfolding init_master_key evaluate_at_tag puncture_at_tag
program = tt

abbrev fresh : Pprf
fresh = init_master_key random

abbrev once : Pprf
once = (puncture_at_tag prg fresh 2 2).1

evaluate_fresh : evaluate_at_tag prg fresh.nodes 2 3 ≡ some (record { il = 7; ir = 7; rest = [] })
unfolding program
evaluate_fresh = refl

evaluate_other : evaluate_at_tag prg once.nodes 2 3 ≡ some (record { il = 7; ir = 7; rest = [] })
unfolding program
evaluate_other = refl

once_size : ◌≡◌ {A = ℕ} once.size 5
unfolding program
once_size = refl

-- The punctured tag evaluates, to what the last cell holds.
evaluate_punctured : (evaluate_at_tag prg once.nodes 2 2) ≢ none
unfolding program
evaluate_punctured e = cc

fresh-IsTree : IsTree 2 fresh
fresh-IsTree = init_master_key-IsTree prg 2 (omega arith) random

fresh_room : fresh.size + 2 * 2 < 2 ^ 32
unfolding init_master_key
fresh_room = omega arith

once-IsTree : IsTree 2 once
once-IsTree =
    puncture_at_tag-IsTree prg 2 (omega arith) fresh fresh-IsTree 2 (omega arith) fresh_room

once_room : once.size + 2 * 2 < 2 ^ 32
unfolding program
once_room = omega arith

evaluate-punctures_example :
    evaluate_at_tag prg (punctures prg 2 (2 ∷ 1 ∷ []) fresh).nodes 2 3
    ≡ some (node_key prg 2 3 random)
evaluate-punctures_example =
    evaluate-punctures prg 2 (omega arith) random (2 ∷ 1 ∷ []) (omega arith) (omega arith) 3
      (omega arith) (omega arith)

find-punctures_example :
    (evaluate_at_tag prg (punctures prg 2 (2 ∷ 1 ∷ []) fresh).nodes 2 1 ≡ some zero_block)
    × IsPunctured 2 (punctures prg 2 (2 ∷ 1 ∷ []) fresh).nodes 1
    × ((i : ℕ)
        → Cleared
            ((punctures prg 2 (2 ∷ 1 ∷ []) fresh).nodes i).type
            ((punctures prg 2 (2 ∷ 1 ∷ []) fresh).nodes i).v)
find-punctures_example =
    find-punctures prg 2 (omega arith) random (2 ∷ 1 ∷ []) (omega arith) (omega arith) 1
      (omega arith) (inr (inl refl))

evaluate-puncture_ne_example :
    evaluate_at_tag prg (puncture_at_tag prg once 2 1).1.nodes 2 3
    ≡ evaluate_at_tag prg once.nodes 2 3
evaluate-puncture_ne_example =
    evaluate-puncture_ne prg 2 (omega arith) once once-IsTree 1 (omega arith) once_room 3
      (omega arith) (omega arith)
