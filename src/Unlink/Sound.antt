-- ===== src/Unlink/Sound.antt =====
-- The invariant of tags, PPRF key and key table.
use secure_deletion.Common.{ℕ, ◌+◌, ◌*◌, ◌^◌, ◌≤◌, ◌<◌, ◌≡◌, ◌≢◌, some, u32_mod}
use secure_deletion.PprfTree.{Block}
use secure_deletion.PprfTree.Shape.{IsTree}
use secure_deletion.PprfTree.Contract.{IsPunctured}
use secure_deletion.MapCache.{FilekeySector, CacheEntry}
use secure_deletion.KeyTable.{lookup}
use secure_deletion.KeyTable.Emptied.{Once}
use secure_deletion.Unlink.{Config, FileCipher, Device}

-- What the kernel's cipher does: either direction undoes the other, and keeps the tag.
pub record IsFileCipher (c : FileCipher) : Type 0 where
  pub decrypt-encrypt :
      (k : Block) (sno : ℕ) (x : FilekeySector) → c.decrypt k sno (c.encrypt k sno x) ≡ x
  pub encrypt-decrypt :
      (k : Block) (sno : ℕ) (x : FilekeySector) → c.encrypt k sno (c.decrypt k sno x) ≡ x
  pub tag-encrypt : (k : Block) (sno : ℕ) (x : FilekeySector) → (c.encrypt k sno x).tag ≡ x.tag
  pub tag-decrypt : (k : Block) (sno : ℕ) (x : FilekeySector) → (c.decrypt k sno x).tag ≡ x.tag

-- The depth leaves the shifts of a tag in range, and the nodes are counted by a u32.
pub record IsConfig (cfg : Config) : Type 0 where
  pub deep : cfg.pprf_depth ≤ 63
  pub counted : cfg.pprf_capacity + 2 * cfg.pprf_depth < u32_mod
  pub some_node : 1 ≤ cfg.pprf_capacity
  pub tagged : cfg.key_table_len ≤ 2 ^ cfg.pprf_depth

-- No two sectors have one tag, every tag in use is below the counter, and every other tag below it
-- is punctured. A cached entry has the tag of its sector on the disk, and no sector is cached twice.
pub record IsSound (cfg : Config) (rd : Device) : Type 0 where
  pub tree : IsTree cfg.pprf_depth rd.pprf
  pub fits : rd.pprf.size ≤ cfg.pprf_capacity
  pub counted : rd.tag_counter ≤ 2 ^ cfg.pprf_depth
  pub used : (t : ℕ) → t < cfg.key_table_len → (rd.table.disk t).tag < rd.tag_counter
  pub distinct :
      (t u : ℕ)
      → t < cfg.key_table_len
      → u < cfg.key_table_len
      → t ≢ u
      → (rd.table.disk t).tag ≢ (rd.table.disk u).tag
  pub spent :
      (x : ℕ)
      → x < rd.tag_counter
      → ((t : ℕ) → t < cfg.key_table_len → (rd.table.disk t).tag ≢ x)
      → IsPunctured cfg.pprf_depth rd.pprf.nodes x
  pub cached :
      (t : ℕ) (e : CacheEntry)
      → t < cfg.key_table_len
      → lookup t rd.table ≡ some e
      → e.map.tag ≡ (rd.table.disk t).tag
  pub once : (t : ℕ) → t < cfg.key_table_len → Once t rd.table
