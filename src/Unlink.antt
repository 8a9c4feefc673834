-- ===== src/Unlink.antt =====
-- The deletion of a file's key: `holepunch_do_unlink` without HOLEPUNCH_BATCHING and
-- `holepunch_persist_unlink` of holepunch/kernel_module/dm-holepunch-main.c, with the routines that they
-- bring together. The PPRF key is that of PprfTree, the key table and the cache are those of KeyTable.
-- The sectors that hold the PPRF key and its FKT are in KeyStore. The build is the one without
-- HOLEPUNCH_JOURNAL, in which `holepunch_journal_write` and `_commit` do nothing. The array of nodes is as
-- long as it has to be: its growth in `holepunch_persist_unlink` copies the nodes and changes none.
pub mod Sound
pub mod Entry
pub mod Persist
pub mod Renew
pub mod Single
pub mod Forget
pub mod Now
pub mod Exhausted
pub mod Evict
pub mod Deletes
mod Fixtures
mod Tests
use secure_deletion.Common.{
  ℕ, zero, suc, ◌+◌, ◌-◌, ◌*◌, ◌%◌, ◌^◌, ◌/◌, Bool, true, false, ◌&&◌, ◌||◌, ◌==◌, Option, none,
  some, List, [], ◌∷◌, if◌then◌else◌, ltb, leb, add32, add64, u64_mod,
}
use secure_deletion.PprfTree.{
  Block, Pprf, Nodes, NodeType, pprf_keyleaf, pprf_internal, Keynode, zero_block, clear_28,
  evaluate_at_tag, puncture_at_tag,
}
use secure_deletion.Layout.{hp_pprf_per_sector, hp_key_per_sector}
use secure_deletion.MapCache.{
  FilekeySector, CacheEntry, Cache, bucket_of, set_bucket, change_entry, do_unlink,
}
use secure_deletion.KeyTable.{Table, Ciphers, bad_magic, rotate_table, lookup}

-- The fields of the header that are used here, and `key_table_len`.
pub record Config : Type 0 where
  pub pprf_depth : ℕ
  pub pprf_capacity : ℕ
  pub key_table_len : ℕ

-- `holepunch_cbc_filekey_sector` in either direction, by key and sector.
pub record FileCipher : Type 0 where
  pub encrypt : (key : Block) (sno : ℕ) → FilekeySector → FilekeySector
  pub decrypt : (key : Block) (sno : ℕ) → FilekeySector → FilekeySector

-- The part of `struct holepunch_dev` that is used here.
pub record Device : Type 0 where
  pub pprf : Pprf
  pub tag_counter : ℕ
  pub table : Table

-- `stack` is what a key buffer holds before an evaluation that fails.
abbrev pub evaluated : (stack : Block) → Option Block → Block
evaluated stack none = stack
evaluated stack (some b) = b

-- The node of `pprf_key_new`, in an array.
abbrev pub pprf_key_new : (new_key : Block) → Nodes
pprf_key_new new_key i = record { v = new_key; type = pprf_keyleaf }

-- The PPRF key at the end of a rotation: 4096 bytes are cleared, which are the nodes of a sector and 28
-- bytes of the next one, and the new node is written.
unfoldable pub renewed : (new_key : Block) → Nodes → Nodes
renewed new_key m i =
    if i == 0
    then record { v = new_key; type = pprf_keyleaf }
    else if ltb i hp_pprf_per_sector
    then record { v = zero_block; type = pprf_internal }
    else if i == hp_pprf_per_sector
    then clear_28 (m i)
    else m i

-- What `persist_unlink` makes of the entry that it has written.
abbrev pub persisted : FilekeySector → CacheEntry → CacheEntry
persisted map e = record e { map = map; status = 0 }

-- A change of the cached entry of a sector.
abbrev pub change_cached : Device → (sector : ℕ) → (CacheEntry → CacheEntry) → Device
change_cached rd sector f =
    let cache = rd.table.cache in
    record rd {
      table = record (rd.table) {
        cache =
            set_bucket cache (bucket_of sector)
              (change_entry sector f (cache.map_cache_list (bucket_of sector)))
              cache.map_cache_count;
      };
    }

module _ (cfg : Config) (prg : Block → Block × Block) (cipher : FileCipher) (stack : Block) where
  open cfg use {pprf_depth, pprf_capacity, key_table_len}

  -- `holepunch_evaluate_at_tag`
  abbrev pub key_at : Nodes → (tag : ℕ) → Block
  key_at m tag = evaluated stack (evaluate_at_tag prg m pprf_depth tag)

  -- The ciphers of a rotation.
  abbrev pub ciphers : Nodes → (new_key : Block) → Ciphers
  ciphers m new_key = record {
    encrypt = cipher.encrypt;
    decrypt = cipher.decrypt;
    old_key = key_at m;
    new_key = key_at (pprf_key_new new_key);
  }

  abbrev pub read_plain : Device → (sector : ℕ) → FilekeySector
  read_plain rd sector =
      let x = rd.table.disk sector in cipher.decrypt (key_at rd.pprf.nodes x.tag) sector x

  -- `holepunch_read_cache_entry`, where `new_key` is the one in `pprf_key_new`.
  unfoldable pub read_cache_entry :
      (new_key : Block) → Device → (sector : ℕ) → (ignore_magic : Bool) → FilekeySector
  read_cache_entry new_key rd sector ignore_magic =
      let plain = read_plain rd sector in
      if ignore_magic
      then plain
      else if bad_magic plain
      then cipher.decrypt (key_at (pprf_key_new new_key) plain.tag) sector
          (cipher.encrypt (key_at rd.pprf.nodes (rd.table.disk sector).tag) sector plain)
      else plain

  -- `holepunch_write_key_table_sector`
  unfoldable pub write_key_table_sector : Device → FilekeySector → (index : ℕ) → Device
  write_key_table_sector rd sector index = record rd {
    table = record (rd.table) {
      disk = λ t.
          if index == t
          then cipher.encrypt (key_at rd.pprf.nodes sector.tag) index sector
          else rd.table.disk t;
    };
  }

  -- `holepunch_tag_ctr_get_incr` and the puncture in `holepunch_persist_unlink`.
  abbrev pub puncture_old : Device → (old_tag : ℕ) → Device
  puncture_old rd old_tag = record rd {
    pprf = (puncture_at_tag prg rd.pprf pprf_depth old_tag).1;
    tag_counter = add64 rd.tag_counter 1;
  }

  -- The puncture of the tag of an entry, and its sector under the next tag.
  unfoldable pub puncture_entry : Device → CacheEntry → Device
  unfolding write_key_table_sector
  puncture_entry rd c =
      let map = record (c.map) { tag = rd.tag_counter } in
      change_cached (write_key_table_sector (puncture_old rd c.map.tag) map c.sector) c.sector
        (persisted map)

  -- `holepunch_rotate_pprf`, where `new_key` is the random key.
  unfoldable pub rotate_pprf : (new_key : Block) → Device → Device
  rotate_pprf new_key rd = record {
    pprf = record { nodes = renewed new_key rd.pprf.nodes; size = 1 };
    tag_counter = key_table_len;
    table = rotate_table (ciphers rd.pprf.nodes new_key) false key_table_len rd.table;
  }

  abbrev pub is_full : Device → Bool
  is_full rd = ltb pprf_capacity (add32 rd.pprf.size (2 * pprf_depth))

  -- `holepunch_persist_unlink`
  unfoldable pub persist_unlink : (new_key : Block) → Device → CacheEntry → Device
  unfolding puncture_entry rotate_pprf
  persist_unlink new_key rd c = if is_full rd then rotate_pprf new_key rd else puncture_entry rd c

  -- `holepunch_do_unlink` up to its call: the entry of the inode's sector, found or read, has a new key for
  -- the inode. `last_key` is in `pprf_key_new` since the last rotation.
  unfoldable pub forget_key : (last_key : Block) → Device → (jiffies ino random : ℕ) → Device
  unfolding do_unlink
  forget_key last_key rd jiffies ino random = record rd {
    table = record (rd.table) {
      cache =
          do_unlink (λ s. read_cache_entry last_key rd s false) rd.table.cache jiffies ino random;
    };
  }

  abbrev pub persist_found : (new_key : Block) → Device → Option CacheEntry → Device
  persist_found new_key rd none = rd
  persist_found new_key rd (some c) = persist_unlink new_key rd c

  -- `holepunch_do_unlink` without HOLEPUNCH_BATCHING.
  unfoldable pub unlink_now :
      (last_key new_key : Block) → Device → (jiffies ino random : ℕ) → Device
  unfolding forget_key persist_unlink
  unlink_now last_key new_key rd jiffies ino random =
      let forgot = forget_key last_key rd jiffies ino random in
      persist_found new_key forgot (lookup (ino / hp_key_per_sector) forgot.table)
