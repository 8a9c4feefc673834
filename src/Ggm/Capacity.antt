-- ===== src/Ggm/Capacity.antt =====
-- The number of keys stays within the memory that is allocated for them.
use secure_deletion.Common.{
  ℕ, zero, suc, ◌+◌, ◌-◌, ◌≤◌, ◌≡◌, refl, arith, true, List, [], ◌∷◌, ◌++◌, length, length-append,
  ap, Option, none, some, ltb, Bool-cases, inl, inr,
}
use secure_deletion.Ggm.{
  PprfKey, KeyArray, PrefixResult, neighbors, puncture, puncture_found, puncture_key, insert_keys,
  get_elem?, take, drop, max_depth,
}
use secure_deletion.Ggm.Labels.{NodeLabel}
use secure_deletion.Ggm.Sorting.{Sorts, length-perm}

-- One key goes, the new ones come.
length-splice :
    (ks new : List PprfKey) (i : ℕ) (k : PprfKey)
    → get_elem? ks i ≡ some k
    → length (take i ks ++ (new ++ drop (i + 1) ks)) + 1 ≡ length ks + length new
length-splice [] new i k e = absurd (cc)
length-splice (j ∷ ks) new zero k e = omega (arith, length-append new ks)
length-splice (j ∷ ks) new (suc i) k e =
    let s : suc i + 1 ≡ suc (i + 1) = omega arith in
    rw s (omega (arith, length-splice ks new i k e))

module _ (prg : List ℕ → List ℕ × List ℕ) where
  length-neighbors :
      (lbl : NodeLabel) (r n : ℕ) (key : List ℕ) → length (neighbors prg lbl r n key) ≡ r
  unfolding neighbors
  length-neighbors lbl zero n key = refl
  length-neighbors lbl (suc r) n key = ap suc (length-neighbors lbl r (n + 1) _)

  module _ (find : List PprfKey → NodeLabel → Option PrefixResult) (pprf_depth : ℕ)
      (deep : pprf_depth ≤ 64) (sort : List PprfKey → List PprfKey) (sorts : Sorts sort) where
    -- A MAX_DEPTH of free places, and the places that a puncture leaves free where it can grow.
    abbrev HasRoom : KeyArray → Type 0
    HasRoom m = length m.keys + max_depth ≤ m.max_count

    insert_keys-HasRoom :
        (m : KeyArray) (i : ℕ) (new : List PprfKey) (k : PprfKey)
        → get_elem? m.keys i ≡ some k
        → length new ≤ 64
        → HasRoom m
        → (length (insert_keys prg find pprf_depth sort true m i new).keys ≤ m.max_count)
          × HasRoom (insert_keys prg find pprf_depth sort true m i new)
    insert_keys-HasRoom m i new k e few h =
        let keys = take i m.keys ++ (new ++ drop (i + 1) m.keys) in
        let n = length-splice m.keys new i k e in
        elim (Bool-cases (ltb m.max_count (length keys + max_depth))) [
          | inl t ↦ rw t (omega (arith, n), omega (arith, n))
          | inr t ↦ rw t (omega (arith, n), ground (arith, n))
        ]

    puncture_key-HasRoom :
        (m : KeyArray) (lbl : NodeLabel) (r : PrefixResult) (o : Option PprfKey)
        → get_elem? m.keys r.index ≡ o
        → HasRoom m
        → (length (puncture_key prg find pprf_depth sort true m lbl r o).keys ≤ m.max_count)
          × HasRoom (puncture_key prg find pprf_depth sort true m lbl r o)
    puncture_key-HasRoom m lbl r none e h = (omega arith, h)
    puncture_key-HasRoom m lbl r (some root) e h = elim (Bool-cases r.exact) [
      | inl x ↦ rw x (omega arith, h)
      | inr x ↦
          let new = neighbors prg lbl (pprf_depth - root.lbl.depth) root.lbl.depth root.key in
          rw x (
            insert_keys-HasRoom m r.index (sort new) root e
              (omega (
                arith,
                length-perm (sorts new).0,
                length-neighbors lbl (pprf_depth - root.lbl.depth) root.lbl.depth root.key,
              ))
              h)
    ]

    puncture_found-HasRoom :
        (m m' : KeyArray) (lbl : NodeLabel) (o : Option PrefixResult)
        → HasRoom m
        → puncture_found prg find pprf_depth sort true m lbl o ≡ some m'
        → (length m'.keys ≤ m.max_count) × HasRoom m'
    puncture_found-HasRoom m m' lbl none h done = absurd (cc)
    puncture_found-HasRoom m m' lbl (some r) h done =
        let p = puncture_key-HasRoom m lbl r (get_elem? m.keys r.index) refl h in
        let same : puncture_key prg find pprf_depth sort true m lbl r (get_elem? m.keys r.index)
            ≡ m' =
          cc in
        rw same at p

    -- With a depth of at most 64, MAX_DEPTH places free before and a `vmalloc` that succeeds, the
    -- keys after a puncture fit the memory there was before it, and MAX_DEPTH places are free
    -- again; whatever the search finds.
    pub puncture-HasRoom :
        (m m' : KeyArray) (lbl : NodeLabel)
        → length m.keys + max_depth ≤ m.max_count
        → puncture prg find pprf_depth sort true m lbl ≡ some m'
        → (length m'.keys ≤ m.max_count) × (length m'.keys + max_depth ≤ m'.max_count)
    unfolding puncture
    puncture-HasRoom m m' lbl h done = puncture_found-HasRoom m m' lbl (find m.keys lbl) h done
