-- ===== src/MapCache/Keys.antt =====
-- The keys that the cache gives, before and after a file is unlinked.
use secure_deletion.Common.{
  ℕ, ◌+◌, ◌/◌, ◌%◌, ◌≡◌, refl, ◌≢◌, arith, Option, none, some, List, ◌==◌, if◌then◌else◌, inl, inr,
  true, false, ap, sym, ◌∙◌, ℕ-cases,
}
use secure_deletion.Layout.{hp_key_per_sector}
use secure_deletion.MapCache.{
  FilekeySector, CacheEntry, Cache, bucket_of, find_cache_entry, change_entry, touch, new_entry,
  forget, get_found, get_cache_entry, get_inode_key, do_unlink, entry_key, set_bucket,
}
use secure_deletion.MapCache.Lists.{apply_some, find-change, find-change_ne, find-new, find-new_ne}

-- The contents of a sector: the cached ones, or what a read gives.
abbrev pub contents : (ℕ → FilekeySector) → (sector : ℕ) → Option CacheEntry → FilekeySector
contents read sector none = read sector
contents read sector (some c) = c.map

-- The sector with one key replaced.
abbrev pub forgotten : (entry random : ℕ) → FilekeySector → FilekeySector
forgotten entry random m = record m { entries = λ j. if entry == j then random else m.entries j }

module _ (read : ℕ → FilekeySector) where
  abbrev pub resident : Cache → (sector : ℕ) → FilekeySector
  resident rd sector =
      contents read sector (find_cache_entry sector (rd.map_cache_list (bucket_of sector)))

  -- The search for a sector in a changed cache.
  abbrev pub search : Cache → (sector : ℕ) → Option CacheEntry
  search rd sector = find_cache_entry sector (rd.map_cache_list (bucket_of sector))

  search-set :
      (rd : Cache) (sector t : ℕ) (l : List CacheEntry) (count : ℕ)
      → (bucket_of sector ≡ bucket_of t
          → find_cache_entry t l ≡ find_cache_entry t (rd.map_cache_list (bucket_of t)))
      → search (set_bucket rd (bucket_of sector) l count) t ≡ search rd t
  search-set rd sector t l count same = elim (ℕ-cases (bucket_of sector) (bucket_of t)) [
    | inl e ↦ let a : (bucket_of sector == bucket_of t) ≡ true = ground arith in rw a (same e)
    | inr n ↦ let a : (bucket_of sector == bucket_of t) ≡ false = ground arith in rw a
  ]

  search-here :
      (rd : Cache) (sector : ℕ) (l : List CacheEntry) (count : ℕ)
      → search (set_bucket rd (bucket_of sector) l count) sector ≡ find_cache_entry sector l
  search-here rd sector l count =
      let a : (bucket_of sector == bucket_of sector) ≡ true = ground arith in rw a

  -- After `holepunch_get_cache_entry` the sector has an entry, with the contents it had.
  get_found-here :
      (rd : Cache) (jiffies sector : ℕ) (o : Option CacheEntry)
      → search rd sector ≡ o
      → (c : CacheEntry) × (search
            (get_found read rd jiffies sector (rd.map_cache_list (bucket_of sector)) o)
            sector
          ≡ some c)
        × (c.map ≡ contents read sector o)
  get_found-here rd jiffies sector none e = (
    new_entry jiffies sector (read sector),
    search-here rd sector _ (rd.map_cache_count + 1)
        ∙ find-new sector (new_entry jiffies sector (read sector))
            (rd.map_cache_list (bucket_of sector)) refl,
    refl,
  )
  get_found-here rd jiffies sector (some c) e = (
    touch jiffies c,
    search-here rd sector _ rd.map_cache_count
        ∙ find-change sector (touch jiffies) (rd.map_cache_list (bucket_of sector)) (λ x. refl)
        ∙ ap (apply_some (touch jiffies)) e,
    refl,
  )

  get_found-else :
      (rd : Cache) (jiffies sector t : ℕ) (o : Option CacheEntry)
      → sector ≢ t
      → search (get_found read rd jiffies sector (rd.map_cache_list (bucket_of sector)) o) t
        ≡ search rd t
  get_found-else rd jiffies sector t none ne =
      search-set rd sector t _ (rd.map_cache_count + 1) (λ e.
        find-new_ne t (new_entry jiffies sector (read sector))
          (rd.map_cache_list (bucket_of sector)) ne
        ∙ ap (λ b. find_cache_entry t (rd.map_cache_list b)) e)
  get_found-else rd jiffies sector t (some c) ne = search-set rd sector t _ rd.map_cache_count (λ e.
      find-change_ne sector t (touch jiffies) (rd.map_cache_list (bucket_of sector)) (λ x. refl) ne
      ∙ ap (λ b. find_cache_entry t (rd.map_cache_list b)) e)

  get-here :
      (rd : Cache) (jiffies ino : ℕ)
      → (c : CacheEntry) × (search (get_cache_entry read rd jiffies ino) (ino / hp_key_per_sector)
          ≡ some c)
        × (c.map ≡ resident rd (ino / hp_key_per_sector))
  unfolding get_cache_entry
  get-here rd jiffies ino =
      get_found-here rd jiffies (ino / hp_key_per_sector) (search rd (ino / hp_key_per_sector)) refl

  get-else :
      (rd : Cache) (jiffies ino t : ℕ)
      → ino / hp_key_per_sector ≢ t
      → search (get_cache_entry read rd jiffies ino) t ≡ search rd t
  unfolding get_cache_entry
  get-else rd jiffies ino t ne =
      get_found-else rd jiffies (ino / hp_key_per_sector) t (search rd (ino / hp_key_per_sector)) ne

  -- `holepunch_get_inode_key` gives the inode's entry of its sector, cached or read.
  get_inode_key-resident :
      (rd : Cache) (jiffies ino : ℕ)
      → (get_inode_key read rd jiffies ino).1
        ≡ some ((resident rd (ino / hp_key_per_sector)).entries (ino % hp_key_per_sector))
  unfolding get_inode_key
  get_inode_key-resident rd jiffies ino =
      let g = get-here rd jiffies ino in
      ap (entry_key read (ino % hp_key_per_sector)) g.1
      ∙ ap (λ m. some (m.entries (ino % hp_key_per_sector))) g.2

  -- After `holepunch_do_unlink` the sector has an entry, with the contents it had but for the new key ...
  pub search-unlink :
      (rd : Cache) (jiffies ino random : ℕ)
      → (c : CacheEntry) × (search (do_unlink read rd jiffies ino random) (ino / hp_key_per_sector)
          ≡ some c)
        × (c.map
            ≡ forgotten (ino % hp_key_per_sector) random (resident rd (ino / hp_key_per_sector)))
  unfolding do_unlink
  search-unlink rd jiffies ino random =
      let sector : ℕ = ino / hp_key_per_sector in
      let d = get_cache_entry read rd jiffies ino in
      let (c, at, same) = get-here rd jiffies ino in
      let f = forget jiffies (ino % hp_key_per_sector) random in
      (
        f c,
        search-here d sector (change_entry sector f (d.map_cache_list (bucket_of sector)))
              d.map_cache_count
            ∙ find-change sector f (d.map_cache_list (bucket_of sector)) (λ x. refl)
            ∙ ap (apply_some f) at,
        ap (forgotten (ino % hp_key_per_sector) random) same,
      )

  -- ... and every other sector has the entry it had.
  pub search-unlink_ne :
      (rd : Cache) (jiffies ino random t : ℕ)
      → ino / hp_key_per_sector ≢ t
      → search (do_unlink read rd jiffies ino random) t ≡ search rd t
  unfolding do_unlink
  search-unlink_ne rd jiffies ino random t ne =
      let sector : ℕ = ino / hp_key_per_sector in
      let d = get_cache_entry read rd jiffies ino in
      let f = forget jiffies (ino % hp_key_per_sector) random in
      search-set d sector t (change_entry sector f (d.map_cache_list (bucket_of sector)))
        d.map_cache_count
        (λ e.
          find-change_ne sector t f (d.map_cache_list (bucket_of sector)) (λ x. refl) ne
          ∙ ap (λ b. find_cache_entry t (d.map_cache_list b)) e)
      ∙ get-else rd jiffies ino t ne

  unlink-here :
      (rd : Cache) (jiffies ino random : ℕ)
      → resident (do_unlink read rd jiffies ino random) (ino / hp_key_per_sector)
        ≡ forgotten (ino % hp_key_per_sector) random (resident rd (ino / hp_key_per_sector))
  unlink-here rd jiffies ino random =
      let (c, at, same) = search-unlink rd jiffies ino random in
      ap (contents read (ino / hp_key_per_sector)) at ∙ same

  unlink-else :
      (rd : Cache) (jiffies ino random t : ℕ)
      → ino / hp_key_per_sector ≢ t
      → resident (do_unlink read rd jiffies ino random) t ≡ resident rd t
  unlink-else rd jiffies ino random t ne =
      ap (contents read t) (search-unlink_ne rd jiffies ino random t ne)

  -- After `holepunch_do_unlink` for an inode, whatever was cached before, its key is the random one,
  -- at any later time.
  pub get_inode_key-unlink :
      (rd : Cache) (jiffies ino random later : ℕ)
      → (get_inode_key read (do_unlink read rd jiffies ino random) later ino).1 ≡ some random
  get_inode_key-unlink rd jiffies ino random later =
      let a : (ino % hp_key_per_sector == ino % hp_key_per_sector) ≡ true = ground arith in
      get_inode_key-resident (do_unlink read rd jiffies ino random) later ino
      ∙ ap (λ m. some (m.entries (ino % hp_key_per_sector))) (unlink-here rd jiffies ino random)
      ∙ ap
          (λ b. some (
            if b
            then random
            else (resident rd (ino / hp_key_per_sector)).entries (ino % hp_key_per_sector)))
          a

  resident-unlink_ne :
      (rd : Cache) (jiffies ino random other : ℕ)
      → ino ≢ other
      → (resident (do_unlink read rd jiffies ino random) (other / hp_key_per_sector)).entries
          (other % hp_key_per_sector)
        ≡ (resident rd (other / hp_key_per_sector)).entries (other % hp_key_per_sector)
  resident-unlink_ne rd jiffies ino random other ne =
      elim (ℕ-cases (ino / hp_key_per_sector) (other / hp_key_per_sector)) [
        | inl e ↦
            let a : (ino % hp_key_per_sector == other % hp_key_per_sector) ≡ false = ground arith in
            rw (← e) (
              ap (λ m. m.entries (other % hp_key_per_sector)) (unlink-here rd jiffies ino random)
              ∙ ap
                  (λ b.
                    if b
                    then random
                    else (resident rd (ino / hp_key_per_sector)).entries
                        (other % hp_key_per_sector))
                  a)
        | inr n ↦
            ap (λ m. m.entries (other % hp_key_per_sector))
              (unlink-else rd jiffies ino random (other / hp_key_per_sector) n)
      ]

  -- `holepunch_do_unlink` changes the key that `holepunch_get_inode_key` gives for no other inode,
  -- in the same sector or elsewhere, cached or not.
  pub get_inode_key-unlink_ne :
      (rd : Cache) (jiffies ino random later other : ℕ)
      → ino ≢ other
      → (get_inode_key read (do_unlink read rd jiffies ino random) later other).1
        ≡ (get_inode_key read rd later other).1
  get_inode_key-unlink_ne rd jiffies ino random later other ne =
      get_inode_key-resident (do_unlink read rd jiffies ino random) later other
      ∙ ap some (resident-unlink_ne rd jiffies ino random other ne)
      ∙ sym (get_inode_key-resident rd later other)
