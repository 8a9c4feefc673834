-- ===== src/Ggm/Lookup.antt =====
-- What the linear search finds in parts of an array, and the evaluation from there.
use mathlib.Core.Option
use secure_deletion.Common.{
  ℕ, suc, ◌+◌, ◌-◌, ◌≡◌, ◌≢◌, refl, arith, Option, none, some, List, [], ◌∷◌, ◌++◌, length, All,
  Any, ap, sym, ◌∙◌, ◌⊎◌, inl, inr,
}
use secure_deletion.Ggm.{
  PprfKey, PrefixResult, linear_round, linear_from, find_linear, get_elem?, probed, take, drop,
  walk, evaluate,
}
use secure_deletion.Ggm.Labels.{NodeLabel, PrefixKind, strict, equal, apart, is_prefix}
use secure_deletion.Ggm.Order.{bits, IsPrefix, Before, is_prefix-kind, prefix_kind-cases}
use secure_deletion.Ggm.Prefixes.{Before-prefix_left, Before-irrefl_right}
use secure_deletion.Ggm.Rank.{IsOrdered, NotPrefix, is_prefix-apart, linear-none}

abbrev pub linear_search : List PprfKey → NodeLabel → Option PrefixResult
linear_search keys lbl = some (find_linear keys lbl)

module _ (k : PprfKey) (post : List PprfKey) where
  pub get_elem?-middle : (pre : List PprfKey) → get_elem? (pre ++ (k ∷ post)) (length pre) ≡ some k
  get_elem?-middle [] = refl
  get_elem?-middle (j ∷ pre) = get_elem?-middle pre

  pub take-middle : (pre : List PprfKey) → take (length pre) (pre ++ (k ∷ post)) ≡ pre
  take-middle [] = refl
  take-middle (j ∷ pre) = ap (◌∷◌ j) (take-middle pre)

  pub drop-middle : (pre : List PprfKey) → drop (suc (length pre)) (pre ++ (k ∷ post)) ≡ post
  drop-middle [] = refl
  drop-middle (j ∷ pre) = drop-middle pre

get_elem?-length : (ks : List PprfKey) → get_elem? ks (length ks) ≡ none
get_elem?-length [] = refl
get_elem?-length (k ∷ ks) = get_elem?-length ks

module _ (lbl : NodeLabel) where
  is_prefix-ne : (k : PprfKey) → IsPrefix (bits lbl) (bits k.lbl) → is_prefix lbl k.lbl ≢ apart
  is_prefix-ne k h e = elim (prefix_kind-cases (bits lbl) (bits k.lbl)) [
    | inl c ↦ c.1 (sym (is_prefix-kind lbl k.lbl) ∙ e)
    | inr c ↦ c.0 h
  ]

  linear_round-probed :
      (i n : ℕ) (kind : PrefixKind) (rest : PrefixResult)
      → kind ≢ apart
      → linear_round i kind rest ≡ probed i n kind
  linear_round-probed i n strict rest ne = refl
  linear_round-probed i n equal rest ne = refl
  linear_round-probed i n apart rest ne = absurd (ne refl)

  -- The search stops at the first prefix.
  pub linear-middle :
      (pre : List PprfKey) (k : PprfKey) (post : List PprfKey) (i n : ℕ)
      → All (NotPrefix lbl) pre
      → IsPrefix (bits lbl) (bits k.lbl)
      → linear_from lbl i (pre ++ (k ∷ post)) ≡ probed (i + length pre) n (is_prefix lbl k.lbl)
  unfolding linear_from
  linear-middle [] k post i n h p =
      linear_round-probed i n (is_prefix lbl k.lbl) (linear_from lbl (i + 1) post)
        (is_prefix-ne k p)
      ∙ ap (λ j. probed j n (is_prefix lbl k.lbl)) (omega arith)
  linear-middle (j ∷ pre) k post i n (h, hs) p =
      ap (λ q. linear_round i q (linear_from lbl (i + 1) (pre ++ (k ∷ post))))
        (is_prefix-apart lbl j h)
      ∙ linear-middle pre k post (i + 1) n hs p
      ∙ ap (λ m. probed m n (is_prefix lbl k.lbl)) (omega arith)

  -- The first prefix of `lbl` in an array, if there is one.
  pub record First (keys : List PprfKey) : Type 0 where
    pub pre : List PprfKey
    pub root : PprfKey
    pub post : List PprfKey
    pub split : keys ≡ pre ++ (root ∷ post)
    pub before : All (NotPrefix lbl) pre
    pub here : IsPrefix (bits lbl) (bits root.lbl)

  First-cons : (k : PprfKey) (ks : List PprfKey) → NotPrefix lbl k → First ks → First (k ∷ ks)
  First-cons k ks differs f = record {
    pre = k ∷ f.pre;
    root = f.root;
    post = f.post;
    split = ap (◌∷◌ k) f.split;
    before = (differs, f.before);
    here = f.here;
  }

  pub first_of : (keys : List PprfKey) → All (NotPrefix lbl) keys ⊎ First keys
  first_of [] = inl tt
  first_of (k ∷ ks) = elim (prefix_kind-cases (bits lbl) (bits k.lbl)) [
    | inl c ↦ inr (record { pre = []; root = k; post = ks; split = refl; before = tt; here = c.0 })
    | inr c ↦ elim (first_of ks) [ inl all ↦ inl (c.0, all) | inr f ↦ inr (First-cons k ks c.0 f) ]
  ]

  Before-NotPrefix :
      (k : PprfKey) (ks : List PprfKey) (P : PprfKey → Type 0)
      → All (λ j. Before (bits k.lbl) (bits j.lbl)) ks
      → Any (λ j. IsPrefix (bits lbl) (bits j.lbl) × P j) ks
      → NotPrefix lbl k
  Before-NotPrefix k [] P h a p = a
  Before-NotPrefix k (j ∷ ks) P (h, hs) (inl a) p =
      Before-irrefl_right (bits j.lbl) (bits lbl)
        (Before-prefix_left (bits k.lbl) (bits j.lbl) (bits lbl) h p) a.0
  Before-NotPrefix k (j ∷ ks) P (h, hs) (inr a) p = Before-NotPrefix k ks P hs a p

  probed-index : (m : ℕ) (kind : PrefixKind) → (probed m m kind).index ≡ m
  probed-index m strict = refl
  probed-index m equal = refl
  probed-index m apart = refl

  -- The result of the search, and the key at its index.
  pub First-linear :
      (keys : List PprfKey) (f : First keys)
      → find_linear keys lbl ≡ probed (length f.pre) (length f.pre) (is_prefix lbl f.root.lbl)
  First-linear keys f =
      ap (λ ks. find_linear ks lbl) f.split
      ∙ linear-middle f.pre f.root f.post 0 (length f.pre) f.before f.here
      ∙ ap (λ i. probed i (length f.pre) (is_prefix lbl f.root.lbl)) (omega arith)

  pub First-index :
      (keys : List PprfKey) (f : First keys) → (find_linear keys lbl).index ≡ length f.pre
  First-index keys f =
      ap (λ r. r.index) (First-linear keys f)
      ∙ probed-index (length f.pre) (is_prefix lbl f.root.lbl)

  pub First-root :
      (keys : List PprfKey) (f : First keys)
      → get_elem? keys (find_linear keys lbl).index ≡ some f.root
  First-root keys f =
      ap (get_elem? keys) (First-index keys f)
      ∙ ap (λ ks. get_elem? ks (length f.pre)) f.split
      ∙ get_elem?-middle f.root f.post f.pre

  -- No key is a prefix: the search gives their number.
  pub NotPrefix-root :
      (keys : List PprfKey)
      → All (NotPrefix lbl) keys
      → get_elem? keys (find_linear keys lbl).index ≡ none
  NotPrefix-root keys h =
      let e : 0 + length keys ≡ length keys = omega arith in
      ap (λ r. get_elem? keys r.index) (linear-none lbl keys 0 h)
      ∙ ap (get_elem? keys) e
      ∙ get_elem?-length keys

  -- In a sorted array every prefix of `lbl` is the first.
  pub first_of-Any :
      (keys : List PprfKey) (P : PprfKey → Type 0)
      → IsOrdered keys
      → Any (λ j. IsPrefix (bits lbl) (bits j.lbl) × P j) keys
      → (f : First keys) × P f.root
  unfolding First-cons
  first_of-Any [] P o a = absurd a
  first_of-Any (k ∷ ks) P (h, o) (inl a) =
      (record { pre = []; root = k; post = ks; split = refl; before = tt; here = a.0 }, a.1)
  first_of-Any (k ∷ ks) P (h, o) (inr a) =
      let r = first_of-Any ks P o a in (First-cons k ks (Before-NotPrefix k ks P h a) r.0, r.1)

  module _ (prg : List ℕ → List ℕ × List ℕ) (pprf_depth : ℕ) where
    -- The value at `lbl` from a key.
    abbrev pub value : PprfKey → List ℕ
    value k = walk prg lbl (pprf_depth - k.lbl.depth) k.lbl.depth k.key

    pub evaluate-NotPrefix :
        (keys : List PprfKey)
        → All (NotPrefix lbl) keys
        → evaluate prg linear_search pprf_depth keys lbl ≡ some none
    unfolding evaluate
    evaluate-NotPrefix keys h = ap (λ o. some (Option.map value o)) (NotPrefix-root keys h)

    pub evaluate-First :
        (keys : List PprfKey) (f : First keys)
        → evaluate prg linear_search pprf_depth keys lbl ≡ some (some (value f.root))
    unfolding evaluate
    evaluate-First keys f = ap (λ o. some (Option.map value o)) (First-root keys f)

    -- In a sorted array, the value from any key that is a prefix.
    pub evaluate-Any :
        (keys : List PprfKey) (v : List ℕ)
        → IsOrdered keys
        → Any (λ j. IsPrefix (bits lbl) (bits j.lbl) × (value j ≡ v)) keys
        → evaluate prg linear_search pprf_depth keys lbl ≡ some (some v)
    evaluate-Any keys v o a =
        let r = first_of-Any keys (λ j. value j ≡ v) o a in
        evaluate-First keys r.0 ∙ ap (λ x. some (some x)) r.1
