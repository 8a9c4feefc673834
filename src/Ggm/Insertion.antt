-- ===== src/Ggm/Insertion.antt =====
-- A sort that keeps the promise of the kernel's: the parameter of the tests.
use Prim.Native.Nat.{Ordering}
use mathlib.Core.List.{Permᴰ}
use mathlib.Core.List.Permᴰ
use secure_deletion.Common.{◌≡◌, ◌≢◌, refl, Bool, true, false, List, [], ◌∷◌, sym, ◌∙◌}
use secure_deletion.Ggm.{PprfKey}
use secure_deletion.Ggm.Labels.{compare_node_labels}
use secure_deletion.Ggm.Order.{bits, lex, compare-lex}
use secure_deletion.Ggm.Sorting.{IsSorted, Sorts}

abbrev place : Ordering → PprfKey → PprfKey → List PprfKey → List PprfKey → List PprfKey
place Ordering.gt k j ks rest = j ∷ rest
place Ordering.eq k j ks rest = k ∷ j ∷ ks
place Ordering.lt k j ks rest = k ∷ j ∷ ks

insert : PprfKey → List PprfKey → List PprfKey
insert k [] = k ∷ []
insert k (j ∷ ks) = place (compare_node_labels k.lbl j.lbl) k j ks (insert k ks)

unfoldable pub sort : List PprfKey → List PprfKey
unfolding insert
sort [] = []
sort (k ∷ ks) = insert k (sort ks)

insert-Permᴰ : (k : PprfKey) (ks : List PprfKey) → Permᴰ (k ∷ ks) (insert k ks)
unfolding insert
insert-Permᴰ k [] = Permᴰ.refl (k ∷ [])
insert-Permᴰ k (j ∷ ks) = at (compare_node_labels k.lbl j.lbl) (insert-Permᴰ k ks)
  where
    at :
        (o : Ordering)
        → Permᴰ (k ∷ ks) (insert k ks)
        → Permᴰ (k ∷ j ∷ ks) (place o k j ks (insert k ks))
    at Ordering.lt p = Permᴰ.refl (k ∷ j ∷ ks)
    at Ordering.eq p = Permᴰ.refl (k ∷ j ∷ ks)
    at Ordering.gt p = Permᴰ.trans (Permᴰ.swap refl refl) (Permᴰ.cons refl p)

sort-Permᴰ : (ks : List PprfKey) → Permᴰ ks (sort ks)
unfolding sort
sort-Permᴰ [] = Permᴰ.nil
sort-Permᴰ (k ∷ ks) = Permᴰ.trans (Permᴰ.cons refl (sort-Permᴰ ks)) (insert-Permᴰ k (sort ks))

lex-gt : (a b : List Bool) → lex a b ≡ Ordering.gt → lex b a ≢ Ordering.gt
lex-gt [] [] e f = cc
lex-gt [] (y ∷ b) e f = cc
lex-gt (x ∷ a) [] e f = cc
lex-gt (true ∷ a) (true ∷ b) e f = lex-gt a b e f
lex-gt (true ∷ a) (false ∷ b) e f = cc
lex-gt (false ∷ a) (true ∷ b) e f = cc
lex-gt (false ∷ a) (false ∷ b) e f = lex-gt a b e f

lt-ne-gt : ◌≡◌ {A = Ordering} Ordering.lt Ordering.gt → ⊥
lt-ne-gt e = cc

eq-ne-gt : ◌≡◌ {A = Ordering} Ordering.eq Ordering.gt → ⊥
eq-ne-gt e = cc

-- What `insert` puts at the front of a list keeps behind a key that is not above it.
behind :
    (j k : PprfKey) (ks : List PprfKey)
    → IsSorted (j ∷ ks)
    → compare_node_labels j.lbl k.lbl ≢ Ordering.gt
    → IsSorted (insert k ks)
    → IsSorted (j ∷ insert k ks)
unfolding insert
behind j k [] s ne t = (ne, tt)
behind j k (i ∷ ks) s ne t = at (compare_node_labels k.lbl i.lbl) t
  where
    at :
        (o : Ordering)
        → IsSorted (place o k i ks (insert k ks))
        → IsSorted (j ∷ place o k i ks (insert k ks))
    at Ordering.lt t = (ne, t)
    at Ordering.eq t = (ne, t)
    at Ordering.gt t = (s.0, t)

IsSorted-tail : (j : PprfKey) (ks : List PprfKey) → IsSorted (j ∷ ks) → IsSorted ks
IsSorted-tail j [] s = tt
IsSorted-tail j (i ∷ ks) s = s.1

insert-IsSorted : (k : PprfKey) (ks : List PprfKey) → IsSorted ks → IsSorted (insert k ks)
unfolding insert
insert-IsSorted k [] s = tt
insert-IsSorted k (j ∷ ks) s =
    at (compare_node_labels k.lbl j.lbl) refl (insert-IsSorted k ks (IsSorted-tail j ks s))
  where
    at :
        (o : Ordering)
        → compare_node_labels k.lbl j.lbl ≡ o
        → IsSorted (insert k ks)
        → IsSorted (place o k j ks (insert k ks))
    at Ordering.lt e t = (λ f. absurd (lt-ne-gt (sym e ∙ f)), s)
    at Ordering.eq e t = (λ f. absurd (eq-ne-gt (sym e ∙ f)), s)
    at Ordering.gt e t =
        behind j k ks s
          (λ f.
            lex-gt (bits k.lbl) (bits j.lbl) (sym (compare-lex k.lbl j.lbl) ∙ e)
              (sym (compare-lex j.lbl k.lbl) ∙ f))
          t

sort-IsSorted : (ks : List PprfKey) → IsSorted (sort ks)
unfolding sort
sort-IsSorted [] = tt
sort-IsSorted (k ∷ ks) = insert-IsSorted k (sort ks) (sort-IsSorted ks)

pub sorts : Sorts sort
sorts l = (sort-Permᴰ l, sort-IsSorted l)
