-- ===== src/KeyTable/Cached.antt =====
-- What the cache answers for a sector after another one was dropped from it.
use secure_deletion.Common.{
  ℕ, ◌≡◌, refl, ◌≢◌, ap, ◌∙◌, arith, List, [], ◌∷◌, ◌==◌, true, false, Bool-cases, ℕ-cases, inl,
  inr,
}
use secure_deletion.MapCache.{CacheEntry, bucket_of, find_cache_entry, delete_entry, drop_map_cache}
use secure_deletion.KeyTable.{Table, lookup, drop}

pub find-delete_ne :
    (sector t : ℕ) (l : List CacheEntry)
    → sector ≢ t
    → find_cache_entry t (delete_entry sector l) ≡ find_cache_entry t l
unfolding find_cache_entry delete_entry
find-delete_ne sector t [] ne = refl
find-delete_ne sector t (c ∷ cs) ne = elim (Bool-cases (c.sector == sector)) [
  | inl e ↦ let a : (c.sector == t) ≡ false = ground arith in rw (e, a) refl
  | inr e ↦ elim (Bool-cases (c.sector == t)) [
    | inl v ↦ rw (e, v) refl
    | inr v ↦ rw (e, v) (find-delete_ne sector t cs ne)
  ]
]

pub lookup-drop_ne : (sno t : ℕ) (rd : Table) → sno ≢ t → lookup t (drop sno rd) ≡ lookup t rd
unfolding drop_map_cache
lookup-drop_ne sno t rd ne = elim (ℕ-cases (bucket_of sno) (bucket_of t)) [
  | inl e ↦
      let a : (bucket_of sno == bucket_of t) ≡ true = ground arith in
      rw a (
        ap (λ b. find_cache_entry t (delete_entry sno (rd.cache.map_cache_list b))) e
        ∙ find-delete_ne sno t (rd.cache.map_cache_list (bucket_of t)) ne)
  | inr n ↦ let a : (bucket_of sno == bucket_of t) ≡ false = ground arith in rw a refl
]
