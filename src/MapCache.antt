-- ===== src/MapCache.antt =====
-- The cache of key table sectors in holepunch/kernel_module/dm-holepunch-main.c: an inode's key is
-- in the sector ino / HP_KEY_PER_SECTOR, and a sector's cache entry in one of 1024 buckets. An entry
-- is named by its sector; `jiffies` and random keys are arguments. What `read` gives for a sector
-- stands for `holepunch_read_cache_entry`, which decrypts it from the disk.
pub mod Lists
pub mod Keys
mod Tests
use secure_deletion.Common.{
  ℕ, zero, suc, ◌+◌, ◌-◌, ◌/◌, ◌%◌, Option, none, some, List, [], ◌∷◌, ◌==◌, if◌then◌else◌, length,
}
use secure_deletion.Layout.{hp_key_per_sector}

-- `struct holepunch_filekey_sector`
pub record FilekeySector : Type 0 where
  pub tag : ℕ
  pub magic1 : ℕ
  pub magic2 : ℕ
  pub entries : ℕ → ℕ

-- `struct eraser_map_cache`
pub record CacheEntry : Type 0 where
  pub sector : ℕ
  pub status : ℕ
  pub last_dirty : ℕ
  pub last_access : ℕ
  pub first_access : ℕ
  pub map : FilekeySector

-- The part of `struct holepunch_dev` that the cache uses.
pub record Cache : Type 0 where
  pub map_cache_list : ℕ → List CacheEntry
  pub map_cache_count : ℕ

abbrev pub map_cache_buckets : ℕ
map_cache_buckets = 1024

abbrev pub cache_dirty : ℕ
cache_dirty = 1

abbrev pub bucket_of : (sector : ℕ) → ℕ
bucket_of sector = sector % map_cache_buckets

abbrev pub set_bucket : Cache → (bucket : ℕ) → List CacheEntry → (count : ℕ) → Cache
set_bucket rd bucket l count = record {
  map_cache_list = λ b. if bucket == b then l else rd.map_cache_list b;
  map_cache_count = count;
}

-- The search of `holepunch_find_cache_entry`: what it finds ...
unfoldable pub find_cache_entry : (sector : ℕ) → List CacheEntry → Option CacheEntry
find_cache_entry sector [] = none
find_cache_entry sector (c ∷ cs) =
    let rest = find_cache_entry sector cs in if c.sector == sector then some c else rest

-- ... and a change of that entry in its list.
unfoldable pub change_entry :
    (sector : ℕ) → (CacheEntry → CacheEntry) → List CacheEntry → List CacheEntry
change_entry sector f [] = []
change_entry sector f (c ∷ cs) =
    let rest = change_entry sector f cs in if c.sector == sector then f c ∷ cs else c ∷ rest

abbrev pub touch : (jiffies : ℕ) → CacheEntry → CacheEntry
touch jiffies c = record c { last_access = jiffies }

-- The entry that `holepunch_get_cache_entry` makes for a sector that it has read.
abbrev pub new_entry : (jiffies sector : ℕ) → FilekeySector → CacheEntry
new_entry jiffies sector map = record {
  sector = sector;
  status = 0;
  last_dirty = 0;
  last_access = jiffies;
  first_access = jiffies;
  map = map;
}

-- `list_del` of an entry.
unfoldable pub delete_entry : (sector : ℕ) → List CacheEntry → List CacheEntry
delete_entry sector [] = []
delete_entry sector (c ∷ cs) =
    let rest = delete_entry sector cs in if c.sector == sector then cs else c ∷ rest

-- `eraser_drop_map_cache`, of the entry of a sector.
unfoldable pub drop_map_cache : Cache → (sector : ℕ) → Cache
unfolding delete_entry
drop_map_cache rd sector =
    set_bucket rd (bucket_of sector) (delete_entry sector (rd.map_cache_list (bucket_of sector)))
      (rd.map_cache_count - 1)

-- `kernel_random` into the key of an inode, and the marks that follow it.
abbrev pub forget : (jiffies entry random : ℕ) → CacheEntry → CacheEntry
forget jiffies entry random c = record c {
  map = record (c.map) { entries = λ j. if entry == j then random else c.map.entries j };
  status = cache_dirty;
  last_dirty = jiffies;
}

module _ (read : ℕ → FilekeySector) where
  abbrev pub get_found : Cache → (jiffies sector : ℕ) → List CacheEntry → Option CacheEntry → Cache
  get_found rd jiffies sector l (some c) =
      set_bucket rd (bucket_of sector) (change_entry sector (touch jiffies) l) rd.map_cache_count
  get_found rd jiffies sector l none =
      set_bucket rd (bucket_of sector) (new_entry jiffies sector (read sector) ∷ l)
        (rd.map_cache_count + 1)

  -- `holepunch_get_cache_entry`: afterwards the entry is in its bucket.
  unfoldable pub get_cache_entry : Cache → (jiffies ino : ℕ) → Cache
  get_cache_entry rd jiffies ino =
      let sector : ℕ = ino / hp_key_per_sector in
      let l = rd.map_cache_list (bucket_of sector) in
      get_found rd jiffies sector l (find_cache_entry sector l)

  abbrev pub entry_key : (entry : ℕ) → Option CacheEntry → Option ℕ
  entry_key entry none = none
  entry_key entry (some c) = some (c.map.entries entry)

  -- `holepunch_get_inode_key`: the cache afterwards, and the key copied out (none for no entry).
  unfoldable pub get_inode_key : Cache → (jiffies ino : ℕ) → Cache × Option ℕ
  get_inode_key rd jiffies ino =
      let sector : ℕ = ino / hp_key_per_sector in
      let d = get_cache_entry rd jiffies ino in
      (
        d,
        entry_key (ino % hp_key_per_sector)
            (find_cache_entry sector (d.map_cache_list (bucket_of sector))),
      )

  -- `holepunch_do_unlink` with HOLEPUNCH_BATCHING: the sector is written later, by the eviction.
  unfoldable pub do_unlink : Cache → (jiffies ino random : ℕ) → Cache
  do_unlink rd jiffies ino random =
      let sector : ℕ = ino / hp_key_per_sector in
      let d = get_cache_entry rd jiffies ino in
      set_bucket d (bucket_of sector)
        (change_entry sector (forget jiffies (ino % hp_key_per_sector) random)
          (d.map_cache_list (bucket_of sector)))
        d.map_cache_count
