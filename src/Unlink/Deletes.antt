-- ===== src/Unlink/Deletes.antt =====
-- What `holepunch_persist_unlink` does to the keys, on either branch.
use secure_deletion.Common.{
  ℕ, ◌^◌, ◌<◌, ◌≡◌, ◌≢◌, refl, true, false, Bool-cases, some, inl, inr, sym,
}
use mathlib.Core.Path.{subst}
use secure_deletion.PprfTree.{Block}
use secure_deletion.PprfTree.Contract.{IsPunctured}
use secure_deletion.MapCache.{CacheEntry}
use secure_deletion.KeyTable.{lookup, marked}
use secure_deletion.KeyTable.Rounds.{contents}
use secure_deletion.Unlink.{
  Config, FileCipher, Device, read_plain, puncture_entry, rotate_pprf, is_full, persist_unlink,
}
use secure_deletion.Unlink.Sound.{IsFileCipher, IsConfig, IsSound}
use secure_deletion.Unlink.Persist.{read-here, read-else, old-IsPunctured, puncture_entry-IsSound}
use secure_deletion.Unlink.Renew.{both, IsNew, read-after, rotate_pprf-IsSound}

module _ (cfg : Config) (ok : IsConfig cfg) (prg : Block → Block × Block) (cipher : FileCipher)
    (law : IsFileCipher cipher) (stack : Block) (rd : Device) (sound : IsSound cfg rd)
    (c : CacheEntry) (at : lookup c.sector rd.table ≡ some c)
    (within : c.sector < cfg.key_table_len) (new_key : Block) where
  abbrev unlinked : Device
  unlinked = persist_unlink cfg prg cipher stack new_key rd c

  pub unlinked-room :
      is_full cfg prg cipher stack rd ≡ false → unlinked ≡ puncture_entry cfg prg cipher stack rd c
  unfolding persist_unlink
  unlinked-room room = rw room refl

  pub unlinked-full :
      is_full cfg prg cipher stack rd ≡ true
      → unlinked ≡ rotate_pprf cfg prg cipher stack new_key rd
  unfolding persist_unlink
  unlinked-full full = rw full refl

  -- While the PPRF key has room and a tag of its depth is left, and the invariant holds,
  -- `holepunch_persist_unlink` of the cached entry of a sector of the key table punctures the tag that the
  -- sector had on the disk; the sector then reads back, under the new key, as the entry with the next tag,
  -- and every other sector of the table reads as before.
  pub persist_unlink-punctures :
      is_full cfg prg cipher stack rd ≡ false
      → rd.tag_counter < 2 ^ cfg.pprf_depth
      → IsPunctured cfg.pprf_depth unlinked.pprf.nodes (rd.table.disk c.sector).tag
        × (read_plain cfg prg cipher stack unlinked c.sector
            ≡ record (c.map) { tag = rd.tag_counter })
        × ((t : ℕ)
            → t < cfg.key_table_len
            → c.sector ≢ t
            → read_plain cfg prg cipher stack unlinked t ≡ read_plain cfg prg cipher stack rd t)
  persist_unlink-punctures room free = rw (unlinked-room room) (
    subst (IsPunctured cfg.pprf_depth (puncture_entry cfg prg cipher stack rd c).pprf.nodes)
        (sound.cached c.sector c within at)
        (old-IsPunctured cfg ok prg cipher law stack rd sound c at within room free),
    read-here cfg ok prg cipher law stack rd sound c at within room free,
    λ t lt ne. read-else cfg ok prg cipher law stack rd sound c at within room free t lt ne,
  )

  module _ (fresh : IsNew cfg ok prg cipher law stack rd new_key) where
    -- When the PPRF key has no room, no sector of the key table has the magic words under the new key by
    -- chance, and the invariant holds, `holepunch_persist_unlink` replaces the PPRF key: every sector of the
    -- table then reads back, under the new key, with its number as its tag, the magic words and the file
    -- keys of its cached entry, or, without one, those that it had on the disk.
    pub persist_unlink-refreshes :
        is_full cfg prg cipher stack rd ≡ true
        → (t : ℕ) → t < cfg.key_table_len
        → read_plain cfg prg cipher stack unlinked t
          ≡ marked t (contents (both cfg ok prg cipher law stack rd new_key) t rd.table).entries
    persist_unlink-refreshes full t lt =
        rw (unlinked-full full) (read-after cfg ok prg cipher law stack rd new_key fresh sound t lt)

    -- `holepunch_persist_unlink` of a cached entry of a sector of the key table keeps the invariant, whether
    -- it punctures or replaces the PPRF key: the key stays a well-formed tree within its capacity, no two
    -- sectors share a tag, each tag below the counter that no sector has is punctured, a cached entry has the
    -- tag of its sector on the disk, and no sector is cached twice. A tag of the key's depth is left, and no
    -- sector has the magic words under the new key by chance.
    pub persist_unlink-IsSound : rd.tag_counter < 2 ^ cfg.pprf_depth → IsSound cfg unlinked
    persist_unlink-IsSound free = elim (Bool-cases (is_full cfg prg cipher stack rd)) [
      | inl full ↦
          subst (IsSound cfg) (sym (unlinked-full full))
            (rotate_pprf-IsSound cfg ok prg cipher law stack rd new_key fresh sound)
      | inr room ↦
          subst (IsSound cfg) (sym (unlinked-room room))
            (puncture_entry-IsSound cfg ok prg cipher law stack rd sound c at within room free)
    ]
