-- ===== src/MapCache/Tests.antt =====
-- A cache with one entry, and the theorems there.
use secure_deletion.Common.{ℕ, ◌+◌, ◌*◌, ◌≡◌, refl, arith, some, [], ◌∷◌, if◌then◌else◌, ◌==◌}
use secure_deletion.MapCache.{
  FilekeySector, Cache, new_entry, get_inode_key, get_cache_entry, do_unlink, find_cache_entry,
  change_entry, drop_map_cache, delete_entry,
}
use secure_deletion.MapCache.Keys.{get_inode_key-unlink, get_inode_key-unlink_ne}

-- The keys on the disk are numbered.
abbrev read : ℕ → FilekeySector
read n = record { tag = n; magic1 = 0; magic2 = 0; entries = λ j. 1000 * n + j }

-- Sector 1 is cached, in bucket 1; sector 1025 has the same bucket.
abbrev cache : Cache
cache = record {
  map_cache_list = λ b. if b == 1 then new_entry 5 1 (read 1) ∷ [] else [];
  map_cache_count = 1;
}

program : Unit {0}
unfolding get_inode_key get_cache_entry do_unlink find_cache_entry change_entry drop_map_cache
    delete_entry
program = tt

-- Inode 130 is the entry 3 of sector 1; inode 130178 the entry 3 of sector 1025.
key_cached : (get_inode_key read cache 9 130).1 ≡ some 1003
unfolding program
key_cached = refl

key_read : (get_inode_key read cache 9 130178).1 ≡ some 1025003
unfolding program
key_read = refl

count_read : ◌≡◌ {A = ℕ} (get_inode_key read cache 9 130178).0.map_cache_count 2
unfolding program
count_read = refl

count_dropped : ◌≡◌ {A = ℕ} (drop_map_cache cache 1).map_cache_count 0
unfolding program
count_dropped = refl

get_inode_key-unlink_example :
    (get_inode_key read (do_unlink read cache 9 130178 77) 12 130178).1 ≡ some 77
get_inode_key-unlink_example = get_inode_key-unlink read cache 9 130178 77 12

get_inode_key-unlink_ne_example :
    (get_inode_key read (do_unlink read cache 9 130178 77) 12 130).1
    ≡ (get_inode_key read cache 12 130).1
get_inode_key-unlink_ne_example =
    get_inode_key-unlink_ne read cache 9 130178 77 12 130 (omega arith)
