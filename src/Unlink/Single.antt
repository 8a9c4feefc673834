-- ===== src/Unlink/Single.antt =====
-- The entry of an inode in the cache: what `holepunch_get_cache_entry` and the new key of the inode leave
-- of the other entries.
use secure_deletion.Common.{
  ℕ, ◌+◌, ◌/◌, ◌%◌, ◌≡◌, refl, arith, Option, none, some, List, [], ◌∷◌, ◌==◌, inl, inr, true,
  false, ap, sym, ◌∙◌, ℕ-cases, Bool-cases,
}
use secure_deletion.Layout.{hp_key_per_sector}
use secure_deletion.MapCache.{
  FilekeySector, CacheEntry, Cache, bucket_of, find_cache_entry, change_entry, delete_entry, touch,
  new_entry, forget, get_found, get_cache_entry, do_unlink, set_bucket,
}
use secure_deletion.MapCache.Lists.{KeepsSector}
use secure_deletion.KeyTable.Emptied.{delete-here}
use secure_deletion.Unlink.Entry.{skip, delete-change}

abbrev sector_of : Option CacheEntry → ℕ
sector_of none = 0
sector_of (some x) = x.sector

-- The entry that a search finds is that of the sector.
pub find-sector :
    (sector : ℕ) (l : List CacheEntry) (c : CacheEntry)
    → find_cache_entry sector l ≡ some c
    → c.sector ≡ sector
unfolding find_cache_entry
find-sector sector [] c found = let clash : none ≡ some c = found in cc
find-sector sector (x ∷ xs) c found = elim (Bool-cases (x.sector == sector)) [
  | inl e ↦
      let same : some x ≡ some c = rw e at found in
      let at : x.sector ≡ sector = ground arith in sym (ap sector_of same) ∙ at
  | inr e ↦
      let later : find_cache_entry sector xs ≡ some c = rw e at found in
      find-sector sector xs c later
]

-- No sector is cached twice.
abbrev pub Single : (t : ℕ) → Cache → Type 0
Single t d = find_cache_entry t (delete_entry t (d.map_cache_list (bucket_of t))) ≡ none

set-Single :
    (d : Cache) (sector t : ℕ) (l : List CacheEntry) (count : ℕ)
    → (bucket_of sector ≡ bucket_of t → find_cache_entry t (delete_entry t l) ≡ none)
    → Single t d
    → Single t (set_bucket d (bucket_of sector) l count)
set-Single d sector t l count here single = elim (ℕ-cases (bucket_of sector) (bucket_of t)) [
  | inl e ↦ let a : (bucket_of sector == bucket_of t) ≡ true = ground arith in rw a (here e)
  | inr n ↦ let a : (bucket_of sector == bucket_of t) ≡ false = ground arith in rw a single
]

change-Single :
    (d : Cache) (sector t : ℕ) (f : CacheEntry → CacheEntry)
    → KeepsSector f
    → Single t d
    → Single t (
        set_bucket d
          (bucket_of sector)
          (change_entry sector f (d.map_cache_list (bucket_of sector)))
          d.map_cache_count)
change-Single d sector t f keeps single =
    set-Single d sector t _ d.map_cache_count
      (λ e.
        delete-change sector t f (d.map_cache_list (bucket_of sector)) keeps
        ∙ ap (λ b. find_cache_entry t (delete_entry t (d.map_cache_list b))) e
        ∙ single)
      single

module _ (read : ℕ → FilekeySector) where
  new-Single :
      (d : Cache) (jiffies sector t : ℕ)
      → find_cache_entry sector (d.map_cache_list (bucket_of sector)) ≡ none
      → Single t d
      → Single t (
          set_bucket d
            (bucket_of sector)
            (new_entry jiffies sector (read sector) ∷ d.map_cache_list (bucket_of sector))
            (d.map_cache_count + 1))
  new-Single d jiffies sector t out single =
      let c = new_entry jiffies sector (read sector) in
      let l = d.map_cache_list (bucket_of sector) in
      set-Single d sector t (c ∷ l) (d.map_cache_count + 1)
        (λ e. elim (ℕ-cases sector t) [
          | inl same ↦
              let h : (sector == t) ≡ true = ground arith in
              ap (find_cache_entry t) (delete-here t c l h)
              ∙ ap (λ u. find_cache_entry u l) (sym same)
              ∙ out
          | inr ne ↦
              let h : (sector == t) ≡ false = ground arith in
              skip t c l h
              ∙ ap (λ b. find_cache_entry t (delete_entry t (d.map_cache_list b))) e
              ∙ single
        ])
        single

  get_found-Single :
      (d : Cache) (jiffies sector t : ℕ) (o : Option CacheEntry)
      → find_cache_entry sector (d.map_cache_list (bucket_of sector)) ≡ o
      → Single t d
      → Single t (get_found read d jiffies sector (d.map_cache_list (bucket_of sector)) o)
  get_found-Single d jiffies sector t none e single = new-Single d jiffies sector t e single
  get_found-Single d jiffies sector t (some c) e single =
      change-Single d sector t (touch jiffies) (λ x. refl) single

  -- No sector is cached twice after the new key of an inode.
  pub do_unlink-Single :
      (d : Cache) (jiffies ino random t : ℕ)
      → Single t d
      → Single t (do_unlink read d jiffies ino random)
  unfolding do_unlink get_cache_entry
  do_unlink-Single d jiffies ino random t single =
      let sector : ℕ = ino / hp_key_per_sector in
      change-Single (get_cache_entry read d jiffies ino) sector t
        (forget jiffies (ino % hp_key_per_sector) random) (λ x. refl)
        (get_found-Single d jiffies sector t
          (find_cache_entry sector (d.map_cache_list (bucket_of sector))) refl single)
