-- ===== src/KeyStore.antt =====
-- The sectors that hold the PPRF key, and the two-level table of their keys (the FKT), of
-- holepunch/kernel_module/dm-holepunch-main.c, in the build without HOLEPUNCH_JOURNAL (with it the
-- same sectors are queued). The cipher of the kernel's crypto API is a parameter, and so are the
-- random keys. A key of 32 bytes is one number.
pub mod Sync
pub mod Refresh
pub mod Write
pub mod Read
pub mod Range
pub mod Rotation
pub mod Reset
pub mod Renewed
mod Tests
use secure_deletion.Common.{
  ℕ, zero, suc, ◌+◌, ◌-◌, ◌*◌, ◌/◌, ◌%◌, ◌<◌, ◌≡◌, Bool, true, false, ◌==◌, ltb, if◌then◌else◌,
}
use secure_deletion.Layout.{
  Header, hp_fkt_per_sector, hp_pprf_per_sector, Slot, fkt_bottom_key, pprf_sector_key,
}
use secure_deletion.PprfTree.{Keynode, Nodes}

abbrev pub Key : Type 0
Key = ℕ

-- `struct holepunch_pprf_fkt_sector`
pub record FktSector : Type 0 where
  pub pprf_size : ℕ
  pub tag_counter : ℕ
  pub entries : ℕ → Key

abbrev pub Fkt : Type 0
Fkt = ℕ → FktSector

-- Two sectors are the same in every field and in every entry that a sector has.
pub record IsSameFkt (x y : FktSector) : Type 0 where
  pub pprf_size : x.pprf_size ≡ y.pprf_size
  pub tag_counter : x.tag_counter ≡ y.tag_counter
  pub entries : (j : ℕ) → j < hp_fkt_per_sector → x.entries j ≡ y.entries j

-- What the code relies on of `holepunch_cbc_sector`, AES-CBC with the sector's number in the IV:
-- decryption with the key and the number of the encryption gives the plain text back.
pub record SectorCipher (Cipher : Type 0) : Type 0 where
  pub seal_fkt : Key → (sectorno : ℕ) → FktSector → Cipher
  pub open_fkt : Key → (sectorno : ℕ) → Cipher → FktSector
  pub seal_pprf : Key → (sectorno : ℕ) → Nodes → Cipher
  pub open_pprf : Key → (sectorno : ℕ) → Cipher → Nodes
  pub open-seal_fkt :
      (k : Key) (sectorno : ℕ) (x : FktSector)
      → IsSameFkt (open_fkt k sectorno (seal_fkt k sectorno x)) x
  pub open-seal_pprf :
      (k : Key) (sectorno : ℕ) (x : Nodes) (j : ℕ)
      → j < hp_pprf_per_sector
      → open_pprf k sectorno (seal_pprf k sectorno x) j ≡ x j

-- The part of `struct holepunch_dev` that these functions use; `disk` by sector.
pub record Store (Cipher : Type 0) : Type 0 where
  pub hp_h : Header
  pub master_key : Key
  pub pprf_fkt : Fkt
  pub pprf_key : Nodes
  pub disk : ℕ → Cipher

-- The entry of a slot, read and written.
abbrev pub slot_key : Fkt → Slot → Key
slot_key fkt s = (fkt s.sector).entries s.entry

abbrev pub set_slot : Fkt → Slot → Key → Fkt
set_slot fkt s k i =
    if s.sector == i
    then record (fkt i) { entries = λ j. if s.entry == j then k else (fkt i).entries j }
    else fkt i

-- The nodes of one sector.
abbrev pub pprf_sector : Nodes → (index : ℕ) → Nodes
pprf_sector m index j = m (index * hp_pprf_per_sector + j)

module _ {Cipher : Type 0} (cipher : SectorCipher Cipher) where
  -- `eraser_write_sector`
  abbrev pub write_cipher : (ℕ → Cipher) → ℕ → Cipher → ℕ → Cipher
  write_cipher disk a w b = if a == b then w else disk b

  -- `holepunch_write_fkt_bottom_sector`, with the random key that it draws.
  unfoldable pub write_fkt_bottom_sector : Store Cipher → (index random : ℕ) → Store Cipher
  write_fkt_bottom_sector rd index random =
      let slot = fkt_bottom_key index in
      let fkt = set_slot rd.pprf_fkt slot random in
      let top_no : ℕ = rd.hp_h.fkt_start + index / hp_fkt_per_sector in
      let bottom_no : ℕ = rd.hp_h.fkt_start + rd.hp_h.fkt_top_width + index in
      let top = cipher.seal_fkt rd.master_key top_no (fkt (index / hp_fkt_per_sector)) in
      let bottom =
        cipher.seal_fkt (slot_key fkt slot) bottom_no (fkt (rd.hp_h.fkt_top_width + index)) in
      record rd {
        pprf_fkt = fkt;
        disk = write_cipher (write_cipher rd.disk top_no top) bottom_no bottom;
      }

  -- The start of `holepunch_write_pprf_key_sector`: with `fkt_refresh` the sector gets a new key.
  unfoldable pub refresh_fkt :
      Store Cipher → (index : ℕ) → (fkt_refresh : Bool) → (random random' : Key) → Store Cipher
  refresh_fkt rd index true random random' =
      write_fkt_bottom_sector
        (record rd { pprf_fkt = set_slot rd.pprf_fkt (pprf_sector_key rd.hp_h index) random })
        (index / hp_fkt_per_sector) random'
  refresh_fkt rd index false random random' = rd

  -- `holepunch_write_pprf_key_sector`, with the random keys that it draws.
  unfoldable pub write_pprf_key_sector :
      Store Cipher → (index : ℕ) → (fkt_refresh : Bool) → (random random' : Key) → Store Cipher
  write_pprf_key_sector rd index fkt_refresh random random' =
      let d = refresh_fkt rd index fkt_refresh random random' in
      let sectorno : ℕ = d.hp_h.pprf_start + index in
      let key = slot_key d.pprf_fkt (pprf_sector_key d.hp_h index) in
      record d {
        disk =
            write_cipher d.disk sectorno
              (cipher.seal_pprf key sectorno (pprf_sector d.pprf_key index));
      }

  -- The first loop of `holepunch_read_fkt` from sector `s`, with the rounds left.
  unfoldable pub read_top : ℕ → (s : ℕ) → Store Cipher → Store Cipher
  read_top zero s rd = rd
  read_top (suc n) s rd =
      let sectorno : ℕ = rd.hp_h.fkt_start + s in
      read_top n (s + 1) (record rd {
        pprf_fkt = λ i.
            if s == i
            then cipher.open_fkt rd.master_key sectorno (rd.disk sectorno)
            else rd.pprf_fkt i;
      })

  -- The second loop, at the lower sector `b`.
  unfoldable pub read_bottom : ℕ → (b : ℕ) → Store Cipher → Store Cipher
  read_bottom zero b rd = rd
  read_bottom (suc n) b rd =
      let s : ℕ = rd.hp_h.fkt_top_width + b in
      let sectorno : ℕ = rd.hp_h.fkt_start + s in
      read_bottom n (b + 1) (record rd {
        pprf_fkt = λ i.
            if s == i
            then cipher.open_fkt (slot_key rd.pprf_fkt (fkt_bottom_key b)) sectorno
                (rd.disk sectorno)
            else rd.pprf_fkt i;
      })

  -- `holepunch_read_fkt`; `fkt_len` is the sum of the two widths, as `eraser_ctr` checks.
  unfoldable pub read_fkt : Store Cipher → Store Cipher
  read_fkt rd = read_bottom rd.hp_h.fkt_bottom_width 0 (read_top rd.hp_h.fkt_top_width 0 rd)

  -- The loop of `holepunch_read_pprf`.
  unfoldable pub read_pprf_from : ℕ → (s : ℕ) → Store Cipher → Store Cipher
  read_pprf_from zero s rd = rd
  read_pprf_from (suc n) s rd =
      let sectorno : ℕ = rd.hp_h.pprf_start + s in
      let data' =
        cipher.open_pprf (slot_key rd.pprf_fkt (pprf_sector_key rd.hp_h s)) sectorno
          (rd.disk sectorno) in
      read_pprf_from n (s + 1) (record rd {
        pprf_key = λ i.
            if i / hp_pprf_per_sector == s then data' (i % hp_pprf_per_sector) else rd.pprf_key i;
      })

  -- `holepunch_read_pprf`, with the key's memory allocated.
  unfoldable pub read_pprf : Store Cipher → Store Cipher
  read_pprf rd =
      read_pprf_from (((rd.pprf_fkt 0).pprf_size + hp_pprf_per_sector - 1) / hp_pprf_per_sector) 0
        rd

  -- The loop of `holepunch_persist_unlink` over the sectors of the new nodes, from `s`, with the
  -- rounds left.
  unfoldable pub write_range : ℕ → (s : ℕ) → Store Cipher → Store Cipher
  write_range zero s rd = rd
  write_range (suc n) s rd = write_range n (s + 1) (write_pprf_key_sector rd s false 0 0)

  -- The writes of `holepunch_persist_unlink` to the PPRF region, with the random keys drawn.
  unfoldable pub write_punctured :
      Store Cipher
      → (punctured_sector start_sector end_sector : ℕ) → (random random' : Key) → Store Cipher
  write_punctured rd punctured_sector start_sector end_sector random random' =
      let d = write_pprf_key_sector rd punctured_sector true random random' in
      if ltb punctured_sector start_sector
      then write_range (end_sector + 1 - start_sector) start_sector d
      else d

  -- The loop of `holepunch_do_master_rotation` from the upper sector `i`, with the rounds left.
  unfoldable pub rotate_top : ℕ → (i : ℕ) → (new_key : Key) → Store Cipher → Store Cipher
  rotate_top zero i new_key rd = rd
  rotate_top (suc n) i new_key rd =
      let sectorno : ℕ = rd.hp_h.fkt_start + i in
      rotate_top n (i + 1) new_key (record rd {
        disk = write_cipher rd.disk sectorno (cipher.seal_fkt new_key sectorno (rd.pprf_fkt i));
      })

  -- `holepunch_do_master_rotation` without a journal, when the TPM takes the new key.
  unfoldable pub do_master_rotation : Store Cipher → (new_key : Key) → Store Cipher
  do_master_rotation rd new_key = record (rotate_top rd.hp_h.fkt_top_width 0 new_key rd) {
    master_key = new_key;
  }
