-- ===== src/Ggm.antt =====
-- The first PPRF of ggm_prf/pprf.c: an array of keys with node labels, sorted by label, in place of
-- a tree. `prg` stands for `prg_from_aes_ctr`: the first and the last PRG_INPUT_LEN bytes of its
-- buffer. `sort` of the kernel is a parameter. The used part of `master_key` is a list.
pub mod Labels
pub mod Bits
pub mod Order
pub mod Prefixes
pub mod Agree
pub mod Rank
pub mod Search
pub mod Sorting
pub mod Lookup
pub mod Neighbors
pub mod Splice
pub mod Others
pub mod Puncture
pub mod Exact
pub mod Capacity
pub mod Tags
mod Insertion
mod Tests
use Prim.Native.Nat.{Ordering, compare}
use mathlib.Core.Option
use secure_deletion.Common.{
  ℕ, zero, suc, ◌+◌, ◌-◌, ◌*◌, ◌/◌, ◌%◌, ◌^◌, Option, none, some, List, [], ◌∷◌, ◌++◌, Bool, true,
  false, not, ◌&&◌, ◌==◌, if◌then◌else◌, ltb, leb, length,
}
use secure_deletion.Ggm.Labels.{
  Bstr, NodeLabel, PrefixKind, apart, check_bit_is_set, compare_node_labels, equal,
  init_node_label_from_long, is_prefix, set_bit_in_buf, strict,
}

-- `struct pprf_key`
pub record PprfKey : Type 0 where
  pub key : List ℕ
  pub lbl : NodeLabel

-- The array with `master_key_count`, its length, and `max_master_key_count`.
pub record KeyArray : Type 0 where
  pub keys : List PprfKey
  pub max_count : ℕ

abbrev pub max_depth : ℕ
max_depth = 64

-- `struct prefix_result`
pub record PrefixResult : Type 0 where
  pub exact : Bool
  pub index : ℕ

-- A round of `find_pkey_index_by_prefix_linear`, and its loop from index `i` on.
abbrev pub linear_round : (i : ℕ) → PrefixKind → (rest : PrefixResult) → PrefixResult
linear_round i equal rest = record { exact = true; index = i }
linear_round i strict rest = record { exact = false; index = i }
linear_round i apart rest = rest

unfoldable pub linear_from : NodeLabel → (i : ℕ) → List PprfKey → PrefixResult
linear_from lbl i [] = record { exact = false; index = i }
linear_from lbl i (k ∷ ks) = linear_round i (is_prefix lbl k.lbl) (linear_from lbl (i + 1) ks)

abbrev pub find_linear : List PprfKey → NodeLabel → PrefixResult
find_linear keys lbl = linear_from lbl 0 keys

abbrev pub get_elem? : List PprfKey → ℕ → Option PprfKey
get_elem? [] i = none
get_elem? (k ∷ ks) zero = some k
get_elem? (k ∷ ks) (suc i) = get_elem? ks i

abbrev pub at_least_zero : Ordering → Bool
at_least_zero Ordering.lt = false
at_least_zero Ordering.eq = true
at_least_zero Ordering.gt = true

-- `compare_label_to_pkey(lbl, k) >= 0`
abbrev pub not_below : NodeLabel → Option PprfKey → Bool
not_below lbl none = false
not_below lbl (some k) = at_least_zero (compare_node_labels lbl k.lbl)

-- The inner loop of `find_pkey_index_by_prefix_bsearch`, where `p` is `i + 1`, so that it is no
-- negative number.
unfoldable pub advance : (fuel : ℕ) → List PprfKey → NodeLabel → (step p : ℕ) → ℕ
advance zero keys lbl step p = p
advance (suc f) keys lbl step p =
    let rest = advance f keys lbl step (p + step) in
    if leb (p + step) (length keys) && not_below lbl (get_elem? keys (p + step - 1))
    then rest
    else p

-- Its outer loop.
unfoldable pub halve : (fuel : ℕ) → List PprfKey → NodeLabel → (step p : ℕ) → ℕ
halve zero keys lbl step p = p
halve (suc f) keys lbl step p =
    let rest = halve f keys lbl (step / 2) (advance (length keys) keys lbl step p) in
    if step == 0 then p else rest

-- The test after the loops, for the key at `i` of `n`.
abbrev pub probed : (i n : ℕ) → PrefixKind → PrefixResult
probed i n equal = record { exact = true; index = i }
probed i n strict = record { exact = false; index = i }
probed i n apart = record { exact = false; index = n }

-- At i = -1 it reads before the array, none here.
abbrev pub bsearch_result : List PprfKey → NodeLabel → (p : ℕ) → Option PrefixResult
bsearch_result keys lbl zero = none
bsearch_result keys lbl (suc i) =
    Option.map (λ k. probed i (length keys) (is_prefix lbl k.lbl)) (get_elem? keys i)

unfoldable pub find_bsearch : List PprfKey → NodeLabel → Option PrefixResult
unfolding halve advance
find_bsearch keys lbl = bsearch_result keys lbl (halve (length keys) keys lbl (length keys) 0)

abbrev pub take : ℕ → List PprfKey → List PprfKey
take zero ks = []
take (suc n) [] = []
take (suc n) (k ∷ ks) = k ∷ take n ks

abbrev pub drop : ℕ → List PprfKey → List PprfKey
drop zero ks = ks
drop (suc n) [] = []
drop (suc n) (k ∷ ks) = drop n ks

module _ (prg : List ℕ → List ℕ × List ℕ) where
  -- The loop of `puncture`: the neighbours of the path, `rounds` of them from depth `n` on.
  unfoldable pub neighbors : NodeLabel → (rounds n : ℕ) → (keycpy : List ℕ) → List PprfKey
  neighbors lbl zero n keycpy = []
  neighbors lbl (suc r) n keycpy =
      let tmp = prg keycpy in
      let set = check_bit_is_set lbl.bstr n in
      record {
        key = if set then tmp.1 else tmp.0;
        lbl = record { bstr = set_bit_in_buf lbl.bstr n (not set); depth = n + 1 };
      }
      ∷ neighbors lbl r (n + 1) (if set then tmp.0 else tmp.1)

  -- The loop of `evaluate_at_tag`.
  unfoldable pub walk : NodeLabel → (rounds n : ℕ) → (keycpy : List ℕ) → List ℕ
  walk lbl zero n keycpy = keycpy
  walk lbl (suc r) n keycpy =
      let tmp = prg keycpy in
      walk lbl r (n + 1) (if check_bit_is_set lbl.bstr n then tmp.0 else tmp.1)

  -- `evaluate_at_tag` from the result of the search; -1 is none.
  abbrev pub evaluate_found :
      (pprf_depth : ℕ) → List PprfKey → NodeLabel → Option PrefixResult → Option (Option (List ℕ))
  evaluate_found pprf_depth keys lbl none = none
  evaluate_found pprf_depth keys lbl (some r) = some (
      Option.map (λ k. walk lbl (pprf_depth - k.lbl.depth) k.lbl.depth k.key)
        (get_elem? keys r.index))

  module _ (find : List PprfKey → NodeLabel → Option PrefixResult) (pprf_depth : ℕ) where
    -- The outer none is a read before the array.
    unfoldable pub evaluate : List PprfKey → NodeLabel → Option (Option (List ℕ))
    unfolding walk
    evaluate keys lbl = evaluate_found pprf_depth keys lbl (find keys lbl)

    unfoldable pub evaluate_at_tag :
        (wide : ℕ → ℕ → Bool) → Bstr → List PprfKey → (tag : ℕ) → Option (Option (List ℕ))
    unfolding evaluate
    evaluate_at_tag wide b keys tag =
        evaluate keys (init_node_label_from_long wide b tag pprf_depth)

    module _ (sort : List PprfKey → List PprfKey) where
      -- `expand_master_key`, where `room` says whether `vmalloc` succeeds.
      abbrev pub expand_master_key : (room : Bool) → KeyArray → KeyArray
      expand_master_key room m = if room then record m { max_count = m.max_count * 2 } else m

      abbrev pub insert_keys : (room : Bool) → KeyArray → (i : ℕ) → List PprfKey → KeyArray
      insert_keys room m i new =
          let keys = take i m.keys ++ (new ++ drop (i + 1) m.keys) in
          let m' = record m { keys = keys } in
          if ltb m.max_count (length keys + max_depth) then expand_master_key room m' else m'

      -- `puncture` from the result of the search and the key at its index, if there is one.
      abbrev pub puncture_key :
          (room : Bool) → KeyArray → NodeLabel → PrefixResult → Option PprfKey → KeyArray
      puncture_key room m lbl r none = m
      puncture_key room m lbl r (some root) =
          if r.exact
          then m
          else insert_keys room m r.index
              (sort (neighbors lbl (pprf_depth - root.lbl.depth) root.lbl.depth root.key))

      abbrev pub puncture_found :
          (room : Bool) → KeyArray → NodeLabel → Option PrefixResult → Option KeyArray
      puncture_found room m lbl none = none
      puncture_found room m lbl (some r) =
          some (puncture_key room m lbl r (get_elem? m.keys r.index))

      unfoldable pub puncture : (room : Bool) → KeyArray → NodeLabel → Option KeyArray
      unfolding neighbors
      puncture room m lbl = puncture_found room m lbl (find m.keys lbl)

      unfoldable pub puncture_at_tag :
          (wide : ℕ → ℕ → Bool) → Bstr → (room : Bool) → KeyArray → (tag : ℕ) → Option KeyArray
      unfolding puncture
      puncture_at_tag wide b room m tag =
          puncture room m (init_node_label_from_long wide b tag pprf_depth)
