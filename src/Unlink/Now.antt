-- ===== src/Unlink/Now.antt =====
-- What `holepunch_do_unlink` without HOLEPUNCH_BATCHING does to the keys on the disk.
use mathlib.Core.Path.{subst}
use secure_deletion.Common.{
  ℕ, ◌/◌, ◌%◌, ◌^◌, ◌<◌, ◌≡◌, ◌≢◌, arith, true, false, some, ap, sym, ◌∙◌, ◌==◌, if◌then◌else◌,
}
use secure_deletion.PprfTree.{Block}
use secure_deletion.PprfTree.Contract.{IsPunctured}
use secure_deletion.Layout.{hp_key_per_sector}
use secure_deletion.MapCache.{FilekeySector, CacheEntry}
use secure_deletion.MapCache.Keys.{forgotten}
use secure_deletion.KeyTable.{Ciphers, lookup, marked}
use secure_deletion.KeyTable.Rounds.{contents, found_or_read}
use secure_deletion.Unlink.{
  Config, FileCipher, Device, read_plain, is_full, persist_unlink, persist_found, forget_key,
  unlink_now,
}
use secure_deletion.Unlink.Sound.{IsFileCipher, IsConfig, IsSound}
use secure_deletion.Unlink.Renew.{both, IsNew}
use secure_deletion.Unlink.Deletes.{
  persist_unlink-punctures, persist_unlink-refreshes, persist_unlink-IsSound,
}
use secure_deletion.Unlink.Forget.{kept, forgot, entry-forgot, cached-else, forget_key-IsSound}

module _ (cfg : Config) (ok : IsConfig cfg) (prg : Block → Block × Block) (cipher : FileCipher)
    (law : IsFileCipher cipher) (stack : Block) (rd : Device) (sound : IsSound cfg rd)
    (last_key new_key : Block) (jiffies ino random : ℕ)
    (within : ino / hp_key_per_sector < cfg.key_table_len) where
  abbrev sector : ℕ
  sector = ino / hp_key_per_sector

  abbrev index : ℕ
  index = ino % hp_key_per_sector

  abbrev pub before : Device
  before = forgot cfg prg cipher law stack rd sound last_key jiffies ino random within

  abbrev pub old : (t : ℕ) → FilekeySector
  old t = kept cfg prg cipher law stack rd sound last_key jiffies ino random within t

  abbrev after : Device
  after = unlink_now cfg prg cipher stack last_key new_key rd jiffies ino random

  pub sound-before : IsSound cfg before
  sound-before =
      forget_key-IsSound cfg prg cipher law stack rd sound last_key jiffies ino random within

  -- The call writes the entry with the new key.
  pub written :
      (c : CacheEntry) × (after ≡ persist_unlink cfg prg cipher stack new_key before c)
      × (c.sector ≡ sector)
      × (lookup c.sector before.table ≡ some c)
      × (c.map ≡ forgotten index random (old sector))
  unfolding unlink_now
  written =
      let (c, at, own, same) =
        entry-forgot cfg prg cipher law stack rd sound last_key jiffies ino random within in
      (
        c,
        ap (persist_found cfg prg cipher stack new_key before) at,
        own,
        ap (λ u. lookup u before.table) own ∙ at,
        same,
      )

  -- A sector with the random key for the inode, and the old ones.
  one_key :
      (m : FilekeySector)
      → ((j : ℕ) → m.entries j ≡ (if index == j then random else (old sector).entries j))
      → (m.entries index ≡ random)
        × ((other : ℕ) → index ≢ other → m.entries other ≡ (old sector).entries other)
  one_key m keys = (
    let e : (index == index) ≡ true = ground arith in
        keys index ∙ ap (λ b. if b then random else (old sector).entries index) e,
    λ j ne.
        let e : (index == j) ≡ false = ground arith in
        keys j ∙ ap (λ b. if b then random else (old sector).entries j) e,
  )

  -- While the PPRF key has room and a tag of its depth is left, and the invariant holds,
  -- `holepunch_do_unlink`, which writes at once, punctures the tag that the sector of the inode had on the
  -- disk. The sector then reads back with the random key for the inode and for every other inode of the
  -- sector the key that it had, cached or on the disk; every other sector of the table reads as before.
  pub unlink_now-deletes :
      is_full cfg prg cipher stack rd ≡ false
      → rd.tag_counter < 2 ^ cfg.pprf_depth
      → IsPunctured cfg.pprf_depth after.pprf.nodes (rd.table.disk sector).tag
        × ((read_plain cfg prg cipher stack after sector).entries index ≡ random)
        × ((other : ℕ)
            → index ≢ other
            → (read_plain cfg prg cipher stack after sector).entries other
              ≡ (old sector).entries other)
        × ((t : ℕ)
            → t < cfg.key_table_len
            → sector ≢ t
            → read_plain cfg prg cipher stack after t ≡ read_plain cfg prg cipher stack rd t)
  unfolding forget_key
  unlink_now-deletes room free =
      let (c, run, own, at, same) = written in
      let (gone, here, else_) =
        persist_unlink-punctures cfg ok prg cipher law stack before sound-before c at
          (subst (λ u. u < cfg.key_table_len) (sym own) within) new_key room free in
      let there : read_plain cfg prg cipher stack after sector
          ≡ record (c.map) { tag = rd.tag_counter } =
        ap (λ d. read_plain cfg prg cipher stack d sector) run
        ∙ ap
            (read_plain cfg prg cipher stack (persist_unlink cfg prg cipher stack new_key before c))
            (sym own)
        ∙ here in
      let keys : (j : ℕ)
          → (read_plain cfg prg cipher stack after sector).entries j
            ≡ (if index == j then random else (old sector).entries j) =
        λ j. ap (λ m. m.entries j) there ∙ ap (λ m. m.entries j) same in
      let (hit, miss) = one_key (read_plain cfg prg cipher stack after sector) keys in
      (
        subst (λ d. IsPunctured cfg.pprf_depth d.pprf.nodes (rd.table.disk sector).tag) (sym run)
            (subst
              (λ u.
                IsPunctured cfg.pprf_depth
                  (persist_unlink cfg prg cipher stack new_key before c).pprf.nodes
                  (rd.table.disk u).tag)
              own gone),
        hit,
        miss,
        λ t lt ne.
            ap (λ d. read_plain cfg prg cipher stack d t) run ∙ else_ t lt (λ q. ne (sym own ∙ q)),
      )

  -- `holepunch_do_unlink`, which writes at once, keeps the invariant for every inode with a sector in the key
  -- table, cached or not, whether the call punctures or replaces the PPRF key: the key stays a well-formed
  -- tree within its capacity, no two sectors share a tag, each tag below the counter that no sector has is
  -- punctured, a cached entry has the tag of its sector on the disk, and no sector is cached twice. A tag of
  -- the key's depth is left, and no sector has the magic words under the new key by chance.
  pub unlink_now-IsSound :
      IsNew cfg ok prg cipher law stack rd new_key
      → rd.tag_counter < 2 ^ cfg.pprf_depth
      → IsSound cfg after
  unfolding forget_key
  unlink_now-IsSound fresh free =
      let (c, run, own, at, same) = written in
      subst (IsSound cfg) (sym run) (
        persist_unlink-IsSound cfg ok prg cipher law stack before sound-before c at
          (subst (λ u. u < cfg.key_table_len) (sym own) within) new_key fresh free)

  abbrev pub kinds : Ciphers
  kinds = both cfg ok prg cipher law stack rd new_key

  -- When the PPRF key has no room, no sector of the key table has the magic words under the new key by
  -- chance, and the invariant holds, `holepunch_do_unlink`, which writes at once, replaces the PPRF key: the
  -- sector of the inode then reads back under the new key with the random key for the inode and for every
  -- other inode of the sector the key that it had, and every other sector of the table reads back with its
  -- number as its tag, the magic words and the file keys that it had, cached or on the disk.
  pub unlink_now-refreshes :
      IsNew cfg ok prg cipher law stack rd new_key
      → is_full cfg prg cipher stack rd ≡ true
      → ((read_plain cfg prg cipher stack after sector).entries index ≡ random)
        × ((other : ℕ)
            → index ≢ other
            → (read_plain cfg prg cipher stack after sector).entries other
              ≡ (old sector).entries other)
        × ((t : ℕ)
            → t < cfg.key_table_len
            → sector ≢ t
            → read_plain cfg prg cipher stack after t
              ≡ marked t (contents kinds t rd.table).entries)
  unfolding forget_key
  unlink_now-refreshes fresh full =
      let (c, run, own, at, same) = written in
      let reads : (t : ℕ)
          → t < cfg.key_table_len
          → read_plain cfg prg cipher stack after t
            ≡ marked t (contents kinds t before.table).entries =
        λ t lt.
          ap (λ d. read_plain cfg prg cipher stack d t) run
          ∙ persist_unlink-refreshes cfg ok prg cipher law stack before sound-before c at
              (subst (λ u. u < cfg.key_table_len) (sym own) within) new_key fresh full t lt in
      let found : lookup sector before.table ≡ some c =
        ap (λ u. lookup u before.table) (sym own) ∙ at in
      let keys : (j : ℕ)
          → (read_plain cfg prg cipher stack after sector).entries j
            ≡ (if index == j then random else (old sector).entries j) =
        λ j.
          ap (λ m. m.entries j) (reads sector within)
          ∙ ap (λ o. (found_or_read kinds sector before.table o).entries j) found
          ∙ ap (λ m. m.entries j) same in
      let (hit, miss) = one_key (read_plain cfg prg cipher stack after sector) keys in
      (
        hit,
        miss,
        λ t lt ne.
            reads t lt
            ∙ ap (λ o. marked t (found_or_read kinds t rd.table o).entries)
                (cached-else cfg prg cipher law stack rd sound last_key jiffies ino random within t
                  ne),
      )
