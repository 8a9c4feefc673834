-- ===== src/Unlink/Evict.antt =====
-- A bucket in a round of the eviction thread, `holepunch_evict_map_cache` of
-- holepunch/kernel_module/dm-holepunch-main.c. The loop walks the list that the bucket has when it begins,
-- with each entry addressed by its sector, and ends with `freed` where it comes to an entry of that list
-- that has been freed meanwhile.
pub mod Step
pub mod Round
pub mod Bucket
mod Tests
use secure_deletion.Common.{
  ℕ, ◌+◌, ◌-◌, ◌%◌, ◌^◌, Bool, true, false, ◌&&◌, ◌||◌, ◌==◌, Option, none, some, List, [], ◌∷◌,
  if◌then◌else◌, leb, ltb, u64_mod,
}
use secure_deletion.PprfTree.{Block}
use secure_deletion.MapCache.{CacheEntry, Cache, cache_dirty, drop_map_cache}
use secure_deletion.KeyTable.{lookup, drop}
use secure_deletion.Unlink.{Config, FileCipher, Device, persist_unlink}

abbrev pub eraser_cache_memory_pressure : ℕ
eraser_cache_memory_pressure = 0

-- `c->status & ERASER_CACHE_DIRTY`
abbrev pub is_dirty : CacheEntry → Bool
is_dirty c = c.status % 2 == cache_dirty

abbrev pub sectors_of : List CacheEntry → List ℕ
sectors_of [] = []
sectors_of (c ∷ cs) = c.sector ∷ sectors_of cs

abbrev pub dropped : (rd : Device) → (sector : ℕ) → Device
dropped rd sector = record rd { table = drop sector rd.table }

-- How the loop ends: with the device, or at an entry that was freed.
pub data Eviction : Type 0 where
  going : Device → Eviction
  freed : Eviction

-- `eraser_drop_map_cache` of an entry: it may be freed already.
abbrev pub drop_found : Device → (sector : ℕ) → Option CacheEntry → Eviction
drop_found rd sector none = freed
drop_found rd sector (some c) = going (dropped rd sector)

module _ (cfg : Config) (prg : Block → Block × Block) (cipher : FileCipher) (stack : Block)
    (new_key : Block) (time_after : (a b : ℕ) → Bool)
    (last_dirty_timeout last_access_timeout : ℕ) where
  abbrev pub will_evict : CacheEntry → Bool
  will_evict c = time_after last_access_timeout c.last_access

  abbrev pub will_write : CacheEntry → Bool
  will_write c = (time_after last_dirty_timeout c.last_dirty || will_evict c) && is_dirty c

  -- The body of the loop: the entry is written when it is dirty and one of its times is over ...
  unfoldable pub write_due : Device → CacheEntry → Device
  unfolding persist_unlink
  write_due rd c = if will_write c then persist_unlink cfg prg cipher stack new_key rd c else rd

  -- ... and dropped.
  unfoldable pub evict_due : Device → CacheEntry → Eviction
  unfolding drop_map_cache
  evict_due rd c =
      if will_evict c && ltb eraser_cache_memory_pressure rd.table.cache.map_cache_count
      then drop_found rd c.sector (lookup c.sector rd.table)
      else going rd

  abbrev pub chain : Eviction → (Device → Eviction) → Eviction
  chain freed f = freed
  chain (going rd) f = f rd

  abbrev pub evict_found : Device → Option CacheEntry → Eviction
  evict_found rd none = freed
  evict_found rd (some c) = evict_due (write_due rd c) c

  -- The loop over the entries that are left ...
  unfoldable pub evict_entries : (sectors : List ℕ) → Device → Eviction
  unfolding write_due evict_due
  evict_entries [] rd = going rd
  evict_entries (s ∷ ss) rd =
      chain (evict_found rd (lookup s rd.table)) (λ after. evict_entries ss after)

  -- ... of bucket `i`.
  unfoldable pub evict_bucket : (i : ℕ) → Device → Eviction
  unfolding evict_entries
  evict_bucket i rd = evict_entries (sectors_of (rd.table.cache.map_cache_list i)) rd
