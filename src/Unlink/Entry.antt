-- ===== src/Unlink/Entry.antt =====
-- What the cache answers after a change of an entry.
use secure_deletion.Common.{
  ℕ, ◌≡◌, ◌≢◌, arith, ◌==◌, true, false, ap, ◌∙◌, inl, inr, ℕ-cases, List, [], ◌∷◌, Bool-cases,
  refl, sym,
}
use secure_deletion.MapCache.{CacheEntry, bucket_of, find_cache_entry, change_entry, delete_entry}
use secure_deletion.MapCache.Lists.{
  KeepsSector, apply_some, find-change, find-change_ne, find-new_ne,
}
use secure_deletion.KeyTable.{lookup}
use secure_deletion.KeyTable.Emptied.{Once, delete-here, delete-else}
use secure_deletion.Unlink.{Device, change_cached}

pub skip :
    (t : ℕ) (c : CacheEntry) (l : List CacheEntry)
    → (c.sector == t) ≡ false
    → find_cache_entry t (delete_entry t (c ∷ l)) ≡ find_cache_entry t (delete_entry t l)
skip t c l e =
    ap (find_cache_entry t) (delete-else t c l e)
    ∙ find-new_ne t c (delete_entry t l) (ground arith)

-- A change of an entry leaves what is behind it.
pub delete-change :
    (s t : ℕ) (f : CacheEntry → CacheEntry) (l : List CacheEntry)
    → KeepsSector f
    → find_cache_entry t (delete_entry t (change_entry s f l))
      ≡ find_cache_entry t (delete_entry t l)
unfolding change_entry
delete-change s t f [] keeps = refl
delete-change s t f (c ∷ cs) keeps = elim (Bool-cases (c.sector == s)) [
  | inl e ↦ elim (Bool-cases (c.sector == t)) [
    | inl v ↦
        let w : ((f c).sector == t) ≡ true = rw (keeps c) v in
        rw e (ap (find_cache_entry t) (delete-here t (f c) cs w ∙ sym (delete-here t c cs v)))
    | inr v ↦
        let w : ((f c).sector == t) ≡ false = rw (keeps c) v in
        rw e (skip t (f c) cs w ∙ sym (skip t c cs v))
  ]
  | inr e ↦ elim (Bool-cases (c.sector == t)) [
    | inl v ↦ rw e (
        ap (find_cache_entry t) (delete-here t c (change_entry s f cs) v)
        ∙ find-change_ne s t f cs keeps (ground arith)
        ∙ ap (find_cache_entry t) (sym (delete-here t c cs v)))
    | inr v ↦
        rw e (skip t c (change_entry s f cs) v ∙ delete-change s t f cs keeps ∙ sym (skip t c cs v))
  ]
]

module _ (rd : Device) (sector : ℕ) (f : CacheEntry → CacheEntry) (keeps : KeepsSector f) where
  abbrev entries : List CacheEntry
  entries = rd.table.cache.map_cache_list (bucket_of sector)

  pub lookup-change :
      lookup sector (change_cached rd sector f).table ≡ apply_some f (lookup sector rd.table)
  lookup-change =
      let a : (bucket_of sector == bucket_of sector) ≡ true = ground arith in
      rw a (find-change sector f entries keeps)

  pub lookup-change_ne :
      (t : ℕ) → sector ≢ t → lookup t (change_cached rd sector f).table ≡ lookup t rd.table
  lookup-change_ne t ne = elim (ℕ-cases (bucket_of sector) (bucket_of t)) [
    | inl e ↦
        let a : (bucket_of sector == bucket_of t) ≡ true = ground arith in
        rw a (
          find-change_ne sector t f entries keeps ne
          ∙ ap (λ b. find_cache_entry t (rd.table.cache.map_cache_list b)) e)
    | inr n ↦ let a : (bucket_of sector == bucket_of t) ≡ false = ground arith in rw a
  ]

  pub change-Once : (t : ℕ) → Once t rd.table → Once t (change_cached rd sector f).table
  change-Once t once = elim (ℕ-cases (bucket_of sector) (bucket_of t)) [
    | inl e ↦
        let a : (bucket_of sector == bucket_of t) ≡ true = ground arith in
        rw a (
          delete-change sector t f entries keeps
          ∙ ap (λ b. find_cache_entry t (delete_entry t (rd.table.cache.map_cache_list b))) e
          ∙ once)
    | inr n ↦ let a : (bucket_of sector == bucket_of t) ≡ false = ground arith in rw a once
  ]
