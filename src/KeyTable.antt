-- ===== src/KeyTable.antt =====
-- The rotation of the key table under a new PPRF key: the part of `holepunch_do_pprf_rotation` in
-- holepunch/kernel_module/dm-holepunch-main.c that walks the sectors of the key table. A sector on the
-- disk has its tag in the clear; the cipher of the rest is a parameter, and so are the keys that the old
-- and the new PPRF give for a tag. Sectors are counted from the start of the table.
pub mod Cached
pub mod Emptied
pub mod Rounds
pub mod Resume
pub mod Crash
mod Tests
use secure_deletion.Common.{
  ℕ, zero, suc, ◌+◌, Bool, true, false, not, ◌||◌, ◌==◌, Option, none, some, if◌then◌else◌,
}
use secure_deletion.PprfTree.{Block}
use secure_deletion.MapCache.{
  FilekeySector, CacheEntry, Cache, bucket_of, find_cache_entry, drop_map_cache,
}

abbrev pub hp_magic1 : ℕ
hp_magic1 = 0xbffb8ee808b32e40

abbrev pub hp_magic2 : ℕ
hp_magic2 = 0xec993fbb3ce4623a

-- The key table and the cache.
pub record Table : Type 0 where
  pub disk : ℕ → FilekeySector
  pub cache : Cache

abbrev pub lookup : (sno : ℕ) → Table → Option CacheEntry
lookup sno rd = find_cache_entry sno (rd.cache.map_cache_list (bucket_of sno))

abbrev pub drop : (sno : ℕ) → Table → Table
drop sno rd = record rd { cache = drop_map_cache rd.cache sno }

-- `plain->magic1 != HP_MAGIC1 || plain->magic2 != HP_MAGIC2`
abbrev pub bad_magic : FilekeySector → Bool
bad_magic x = not (x.magic1 == hp_magic1) || not (x.magic2 == hp_magic2)

-- A key table sector in the clear, with its tag and magic words set.
abbrev pub marked : (sno : ℕ) → (ℕ → ℕ) → FilekeySector
marked sno entries = record { tag = sno; magic1 = hp_magic1; magic2 = hp_magic2; entries = entries }

-- `holepunch_cbc_filekey_sector` in either direction, by key and sector, and `holepunch_evaluate_at_tag`
-- with either PPRF key.
pub record Ciphers : Type 0 where
  pub encrypt : (key : Block) (sno : ℕ) → FilekeySector → FilekeySector
  pub decrypt : (key : Block) (sno : ℕ) → FilekeySector → FilekeySector
  pub old_key : (tag : ℕ) → Block
  pub new_key : (tag : ℕ) → Block

module _ (c : Ciphers) where
  -- A sector, encrypted under the new key.
  abbrev pub sealed : (sno : ℕ) → (ℕ → ℕ) → FilekeySector
  sealed sno entries = c.encrypt (c.new_key sno) sno (marked sno entries)

  -- A sector read from the disk, decrypted with the old key, or with the new one.
  abbrev pub read_old : (sno : ℕ) → FilekeySector → FilekeySector
  read_old sno x = c.decrypt (c.old_key x.tag) sno x

  abbrev pub read_new : (sno : ℕ) → FilekeySector → FilekeySector
  read_new sno x = c.decrypt (c.new_key x.tag) sno x

  -- The conversion of a sector that was decrypted with the new key.
  abbrev pub convert : (sno : ℕ) → FilekeySector → FilekeySector
  convert sno plain = read_old sno (c.encrypt (c.new_key plain.tag) sno plain)

  -- The end of a round of the second loop: tag and magic words are set, and the sector written.
  abbrev pub store : (sno : ℕ) → (plain : FilekeySector) → Table → Table
  store sno plain rd = record rd {
    disk = λ t. if sno == t then sealed sno plain.entries else rd.disk t;
  }

  -- Its beginning: the sector from the cache, which drops it, or from the disk.
  abbrev pub load_found : (sno : ℕ) → Table → Option CacheEntry → FilekeySector × Table
  load_found sno rd (some e) = (e.map, drop sno rd)
  load_found sno rd none = (read_old sno (rd.disk sno), rd)

  unfoldable pub load : (sno : ℕ) → Table → FilekeySector × Table
  load sno rd = load_found sno rd (lookup sno rd)

  -- The second loop with the rounds left.
  unfoldable pub rotate_rest : (rounds sno : ℕ) → Table → Table
  rotate_rest zero sno rd = rd
  rotate_rest (suc n) sno rd =
      let (plain, loaded) = load sno rd in rotate_rest n (suc sno) (store sno plain loaded)

  -- Its first round, for the sector that the first loop has stopped at.
  abbrev pub rotate_stopped : (rounds sno : ℕ) → FilekeySector → Table → Table
  rotate_stopped n sno plain rd = rotate_rest n (suc sno) (store sno plain rd)

  -- A round of the first loop, by the cache's answer: it stops at a cached sector and at one with bad
  -- magic words; `rest` is what follows when it goes on.
  abbrev pub first_round :
      (ignore_magic : Bool) → (rounds sno : ℕ) → (rest : Table) → Table → Option CacheEntry → Table
  first_round ignore_magic n sno rest rd (some e) = rotate_stopped n sno e.map (drop sno rd)
  first_round ignore_magic n sno rest rd none =
      let plain = read_new sno (rd.disk sno) in
      if ignore_magic || bad_magic plain then rotate_stopped n sno (convert sno plain) rd else rest

  unfoldable pub rotate_from : (ignore_magic : Bool) → (rounds sno : ℕ) → Table → Table
  rotate_from ignore_magic zero sno rd = rd
  rotate_from ignore_magic (suc n) sno rd =
      first_round ignore_magic n sno (rotate_from ignore_magic n (suc sno) rd) rd (lookup sno rd)

  -- The two loops over a table of `len` sectors.
  unfoldable pub rotate_table : (ignore_magic : Bool) → (len : ℕ) → Table → Table
  rotate_table ignore_magic len rd = rotate_from ignore_magic len 0 rd
