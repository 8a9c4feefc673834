-- ===== src/Ggm/Tests.antt =====
-- A key of depth 2, and the theorems there.
use secure_deletion.Common.{
  inl, ℕ, ◌+◌, ◌*◌, ◌≤◌, ◌≡◌, refl, arith, Bool, true, false, if◌then◌else◌, List, [], ◌∷◌, none,
  some,
}
use secure_deletion.Ggm.{
  KeyArray, find_linear, linear_from, find_bsearch, puncture, puncture_at_tag, evaluate,
  evaluate_at_tag, halve, advance,
}
use secure_deletion.Ggm.Labels.{
  Bstr, NodeLabel, compare_node_labels, compare_from, is_prefix, same_bits, check_bit_is_set,
  set_bit_in_buf, init_node_label_from_long,
}
use secure_deletion.Ggm.Rank.{IsOrdered, below_first}
use secure_deletion.Ggm.Search.{find_bsearch-linear}
use secure_deletion.Ggm.Lookup.{linear_search}
use secure_deletion.Ggm.Puncture.{puncture-IsOrdered}
use secure_deletion.Ggm.Exact.{puncture-exact}
use secure_deletion.Ggm.Capacity.{puncture-HasRoom}
use secure_deletion.Ggm.Tags.{evaluate_at_tag-puncture_ne}
use secure_deletion.Ggm.Insertion.{sort, sorts}

-- The children of the key `n ∷ _`.
abbrev prg : List ℕ → List ℕ × List ℕ
prg [] = ([], [])
prg (n ∷ ns) = ((2 * n + 1) ∷ [], (2 * n) ∷ [])

abbrev wide : ℕ → ℕ → Bool
wide idx val = false

-- What a label holds before it is initialised.
abbrev garbage : Bstr
garbage i = 255

-- `init_pkey_top_level`, and its array after a puncture of 0.
abbrev fresh : KeyArray
fresh = record {
  keys = record { key = 1 ∷ []; lbl = record { bstr = garbage; depth = 0 } } ∷ [];
  max_count = 16000;
}

label : ℕ → NodeLabel
label tag = init_node_label_from_long wide garbage tag 2

program : Unit {0}
unfolding find_bsearch halve advance compare_node_labels compare_from linear_from is_prefix
    same_bits check_bit_is_set set_bit_in_buf puncture_at_tag evaluate_at_tag
    init_node_label_from_long sort label
program = tt

abbrev once : KeyArray
once = record {
  keys =
      record {
        key = 5 ∷ [];
        lbl = record { bstr = set_bit_in_buf (label 0).bstr 1 true; depth = 2 };
      }
      ∷ record {
        key = 3 ∷ [];
        lbl = record { bstr = set_bit_in_buf (label 0).bstr 0 true; depth = 1 };
      }
      ∷ [];
  max_count = 16000;
}

-- The neighbours 01 and 1 of the path to 00.
puncture_zero : puncture_at_tag prg linear_search 2 sort wide garbage true fresh 0 ≡ some once
unfolding program
puncture_zero = refl

once-IsOrdered : IsOrdered once.keys
unfolding program
once-IsOrdered = ((tt, tt), (tt, tt))

fresh-IsOrdered : IsOrdered fresh.keys
fresh-IsOrdered = (tt, tt)

label-depth : (tag : ℕ) → (label tag).depth ≡ 2
unfolding label init_node_label_from_long
label-depth tag = refl

-- A second puncture, of the neighbour 01, does nothing: its value is still there.
puncture_one : puncture_at_tag prg linear_search 2 sort wide garbage true once 1 ≡ some once
unfolding program
puncture_one = refl

evaluate_one : evaluate_at_tag prg linear_search 2 wide garbage once.keys 1 ≡ some (some (5 ∷ []))
unfolding program
evaluate_one = refl

-- The binary search for the punctured tag 0 reads before the array.
bsearch_zero : find_bsearch once.keys (label 0) ≡ none
unfolding program
bsearch_zero = refl

find_bsearch-linear_example :
    find_bsearch once.keys (label 2)
    ≡ (if below_first (label 2) once.keys then none else some (find_linear once.keys (label 2)))
find_bsearch-linear_example = find_bsearch-linear once.keys (label 2) once-IsOrdered

puncture-IsOrdered_example :
    (m' : KeyArray) × (puncture prg linear_search 2 sort true once (label 2) ≡ some m')
    × IsOrdered m'.keys
puncture-IsOrdered_example =
    puncture-IsOrdered prg 2 sort sorts true (label 2) (label-depth 2) once once-IsOrdered

puncture_label_zero : puncture prg linear_search 2 sort true fresh (label 0) ≡ some once
unfolding program
puncture_label_zero = refl

-- The label that the puncture of the tag 0 leaves its neighbour.
abbrev neighbor : NodeLabel
neighbor = record { bstr = set_bit_in_buf (label 0).bstr 1 true; depth = 2 }

puncture-exact_example :
    (m' : KeyArray) × (puncture prg linear_search 2 sort true once neighbor ≡ some m')
    × (evaluate prg linear_search 2 m'.keys neighbor ≡ some (some (5 ∷ [])))
puncture-exact_example =
    puncture-exact prg 2 sort sorts true neighbor refl once (5 ∷ []) once-IsOrdered
      (inl (refl, refl))

puncture-HasRoom_example : (2 ≤ 16000) × (2 + 64 ≤ 16000)
puncture-HasRoom_example =
    puncture-HasRoom prg linear_search 2 (omega arith) sort sorts fresh once (label 0) (omega arith)
      puncture_label_zero

evaluate_at_tag-puncture_ne_example :
    evaluate_at_tag prg linear_search 2 wide garbage once.keys 3
    ≡ evaluate_at_tag prg linear_search 2 wide garbage fresh.keys 3
evaluate_at_tag-puncture_ne_example =
    evaluate_at_tag-puncture_ne wide 2 (omega arith) prg sort sorts garbage garbage true fresh once
      0 3 fresh-IsOrdered (omega arith) (omega arith) (omega arith) puncture_zero
