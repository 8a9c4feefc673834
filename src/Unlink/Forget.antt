-- ===== src/Unlink/Forget.antt =====
-- The first half of `holepunch_do_unlink`: the entry of the inode's sector with its new key.
use secure_deletion.Common.{
  ℕ, ◌/◌, ◌%◌, ◌<◌, ◌≡◌, ◌≢◌, refl, false, Bool-cases, some, inl, inr, ap, sym, ◌∙◌, ℕ-cases,
  Option, none, Option-cases,
}
use secure_deletion.PprfTree.{Block}
use secure_deletion.Layout.{hp_key_per_sector}
use secure_deletion.MapCache.{FilekeySector, CacheEntry}
use secure_deletion.MapCache.Keys.{forgotten, resident, search-unlink, search-unlink_ne}
use secure_deletion.KeyTable.{lookup, bad_magic}
use secure_deletion.KeyTable.Emptied.{Once}
use secure_deletion.Unlink.{
  Config, FileCipher, Device, key_at, read_plain, read_cache_entry, forget_key,
}
use secure_deletion.Unlink.Sound.{IsFileCipher, IsSound}
use secure_deletion.Unlink.Single.{find-sector, do_unlink-Single}

module _ (cfg : Config) (prg : Block → Block × Block) (cipher : FileCipher)
    (law : IsFileCipher cipher) (stack : Block) (rd : Device) (sound : IsSound cfg rd)
    (last_key : Block) (jiffies ino random : ℕ)
    (within : ino / hp_key_per_sector < cfg.key_table_len) where
  abbrev sector : ℕ
  sector = ino / hp_key_per_sector

  abbrev pub read : ℕ → FilekeySector
  read s = read_cache_entry cfg prg cipher stack last_key rd s false

  -- The contents of a sector before: cached, or read from the disk.
  abbrev pub kept : (t : ℕ) → FilekeySector
  kept t = resident read rd.table.cache t

  abbrev pub forgot : Device
  forgot = forget_key cfg prg cipher stack last_key rd jiffies ino random

  read-tag : (t : ℕ) → (read t).tag ≡ (rd.table.disk t).tag
  unfolding read_cache_entry
  read-tag t =
      let x = rd.table.disk t in
      let k = key_at cfg prg cipher stack rd.pprf.nodes x.tag in
      let plain = read_plain cfg prg cipher stack rd t in
      let clear : plain.tag ≡ x.tag = law.tag-decrypt k t x in
      elim (Bool-cases (bad_magic plain)) [
        | inl b ↦
            rw b
              (law.tag-decrypt _ t (cipher.encrypt k t plain) ∙ law.tag-encrypt k t plain ∙ clear)
        | inr b ↦ rw b clear
      ]

  kept-tag : (t : ℕ) → t < cfg.key_table_len → (kept t).tag ≡ (rd.table.disk t).tag
  kept-tag t lt = elim (Option-cases (lookup t rd.table)) [
    | inl l ↦ rw l (read-tag t)
    | inr (e, l) ↦ rw l (sound.cached t e lt l)
  ]

  -- The sector has an entry afterwards, which is for it and has the new key.
  pub entry-forgot :
      (c : CacheEntry) × (lookup sector forgot.table ≡ some c)
      × (c.sector ≡ sector)
      × (c.map ≡ forgotten (ino % hp_key_per_sector) random (kept sector))
  unfolding forget_key
  entry-forgot =
      let (c, at, same) = search-unlink read rd.table.cache jiffies ino random in
      (c, at, find-sector sector _ c at, same)

  pub cached-else : (t : ℕ) → sector ≢ t → lookup t forgot.table ≡ lookup t rd.table
  unfolding forget_key
  cached-else t ne = search-unlink_ne read rd.table.cache jiffies ino random t ne

  pub disk-forgot : (t : ℕ) → forgot.table.disk t ≡ rd.table.disk t
  unfolding forget_key
  disk-forgot t = refl

  pub pprf-forgot : forgot.pprf ≡ rd.pprf
  unfolding forget_key
  pprf-forgot = refl

  pub counter-forgot : forgot.tag_counter ≡ rd.tag_counter
  unfolding forget_key
  counter-forgot = refl

  abbrev tag_of : Option CacheEntry → ℕ
  tag_of none = 0
  tag_of (some e) = e.map.tag

  cached-forgot :
      (t : ℕ) (e : CacheEntry)
      → t < cfg.key_table_len
      → lookup t forgot.table ≡ some e
      → e.map.tag ≡ (rd.table.disk t).tag
  cached-forgot t e lt l = elim (ℕ-cases sector t) [
    | inl q ↦
        let (c, at, own, same) = entry-forgot in
        let found : some c ≡ some e = sym at ∙ ap (λ u. lookup u forgot.table) q ∙ l in
        ap tag_of (sym found)
        ∙ ap (λ m. m.tag) same
        ∙ kept-tag sector within
        ∙ ap (λ u. (rd.table.disk u).tag) q
    | inr ne ↦ sound.cached t e lt (sym (cached-else t ne) ∙ l)
  ]

  once-forgot : (t : ℕ) → t < cfg.key_table_len → Once t forgot.table
  unfolding forget_key
  once-forgot t lt = do_unlink-Single read rd.table.cache jiffies ino random t (sound.once t lt)

  pub forget_key-IsSound : IsSound cfg forgot
  unfolding forget_key
  forget_key-IsSound = record {
    tree = sound.tree;
    fits = sound.fits;
    counted = sound.counted;
    used = sound.used;
    distinct = sound.distinct;
    spent = sound.spent;
    cached = cached-forgot;
    once = once-forgot;
  }
