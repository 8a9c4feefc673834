-- ===== src/KeyStore/Sync.antt =====
-- When the disk holds what is in memory.
use secure_deletion.Common.{ℕ, ◌+◌, ◌*◌, ◌/◌, ◌≤◌, ◌<◌, ◌≡◌, ◌≢◌, arith}
use secure_deletion.Layout.{
  Header, hp_fkt_per_sector, hp_pprf_per_sector, Slot, fkt_bottom_key, pprf_sector_key,
}
use secure_deletion.PprfTree.{Nodes}
use secure_deletion.KeyStore.{
  Key, Fkt, FktSector, IsSameFkt, SectorCipher, Store, slot_key, set_slot, write_cipher,
}

-- The widths and regions of a device whose PPRF region has so many sectors in use.
pub record IsLaidOut (h : Header) (sectors : ℕ) : Type 0 where
  pub wide : h.fkt_bottom_width ≤ hp_fkt_per_sector * h.fkt_top_width
  pub slots : sectors ≤ hp_fkt_per_sector * h.fkt_bottom_width
  pub apart : h.fkt_start + h.fkt_top_width + h.fkt_bottom_width ≤ h.pprf_start

module _ {Cipher : Type 0} (cipher : SectorCipher Cipher) where
  -- A sector of the upper level decrypts to the one in memory.
  abbrev pub IsTopStored : Store Cipher → ℕ → Type 0
  IsTopStored rd s =
      let sectorno : ℕ = rd.hp_h.fkt_start + s in
      IsSameFkt (cipher.open_fkt rd.master_key sectorno (rd.disk sectorno)) (rd.pprf_fkt s)

  -- So does one of the lower level, with its key in memory.
  abbrev pub IsBottomStored : Store Cipher → ℕ → Type 0
  IsBottomStored rd b =
      let sectorno : ℕ = rd.hp_h.fkt_start + rd.hp_h.fkt_top_width + b in
      IsSameFkt
        (cipher.open_fkt (slot_key rd.pprf_fkt (fkt_bottom_key b)) sectorno (rd.disk sectorno))
        (rd.pprf_fkt (rd.hp_h.fkt_top_width + b))

  -- So does one of the PPRF key.
  abbrev pub IsNodesStored : Store Cipher → ℕ → Type 0
  IsNodesStored rd n =
      let sectorno : ℕ = rd.hp_h.pprf_start + n in
      (j : ℕ)
      → j < hp_pprf_per_sector
      → cipher.open_pprf (slot_key rd.pprf_fkt (pprf_sector_key rd.hp_h n)) sectorno
          (rd.disk sectorno) j
        ≡ rd.pprf_key (n * hp_pprf_per_sector + j)

  -- Everything stored, but for at most one sector of each kind.
  pub record IsSyncedBut (rd : Store Cipher) (sectors s₀ b₀ n₀ : ℕ) : Type 0 where
    pub tops : (s : ℕ) → s < rd.hp_h.fkt_top_width → s ≢ s₀ → IsTopStored rd s
    pub bottoms : (b : ℕ) → b < rd.hp_h.fkt_bottom_width → b ≢ b₀ → IsBottomStored rd b
    pub nodes : (n : ℕ) → n < sectors → n ≢ n₀ → IsNodesStored rd n

  -- Everything stored: the FKT, and that many sectors of the PPRF key.
  pub record IsSynced (rd : Store Cipher) (sectors : ℕ) : Type 0 where
    pub tops : (s : ℕ) → s < rd.hp_h.fkt_top_width → IsTopStored rd s
    pub bottoms : (b : ℕ) → b < rd.hp_h.fkt_bottom_width → IsBottomStored rd b
    pub nodes : (n : ℕ) → n < sectors → IsNodesStored rd n

  -- The FKT is stored, and so are the sectors of the PPRF key that satisfy `P`.
  pub record IsSyncedOn (rd : Store Cipher) (P : ℕ → Type 0) : Type 0 where
    pub tops : (s : ℕ) → s < rd.hp_h.fkt_top_width → IsTopStored rd s
    pub bottoms : (b : ℕ) → b < rd.hp_h.fkt_bottom_width → IsBottomStored rd b
    pub nodes : (n : ℕ) → P n → IsNodesStored rd n

  pub write-here : (disk : ℕ → Cipher) (a : ℕ) (w : Cipher) → write_cipher cipher disk a w a ≡ w
  write-here disk a w = ground arith

  pub write-else :
      (disk : ℕ → Cipher) (a b : ℕ) (w : Cipher) → a ≢ b → write_cipher cipher disk a w b ≡ disk b
  write-else disk a b w n = ground arith

  -- A sector that was just written decrypts to what was encrypted.
  pub write-sealed :
      (disk : ℕ → Cipher) (k : Key) (sectorno : ℕ) (x : FktSector)
      → IsSameFkt
          (cipher.open_fkt k sectorno
            (write_cipher cipher disk sectorno (cipher.seal_fkt k sectorno x) sectorno))
          x
  write-sealed disk k sectorno x =
      rw (write-here disk sectorno (cipher.seal_fkt k sectorno x))
        (cipher.open-seal_fkt k sectorno x)

  pub write-sealed_nodes :
      (disk : ℕ → Cipher) (k : Key) (sectorno : ℕ) (x : Nodes) (j : ℕ)
      → j < hp_pprf_per_sector
      → cipher.open_pprf k sectorno
          (write_cipher cipher disk sectorno (cipher.seal_pprf k sectorno x) sectorno)
          j
        ≡ x j
  write-sealed_nodes disk k sectorno x j lt =
      rw (write-here disk sectorno (cipher.seal_pprf k sectorno x))
        (cipher.open-seal_pprf k sectorno x j lt)

  pub write-first :
      (disk : ℕ → Cipher) (a b : ℕ) (v w : Cipher)
      → b ≢ a
      → write_cipher cipher (write_cipher cipher disk a v) b w a ≡ v
  write-first disk a b v w n = ground arith

  pub write-neither :
      (disk : ℕ → Cipher) (a b c : ℕ) (v w : Cipher)
      → a ≢ c
      → b ≢ c
      → write_cipher cipher (write_cipher cipher disk a v) b w c ≡ disk c
  write-neither disk a b c v w m n = ground arith

pub set_slot-else :
    (fkt : Fkt) (s : Slot) (k : Key) (i : ℕ) → s.sector ≢ i → set_slot fkt s k i ≡ fkt i
set_slot-else fkt s k i n = ground arith

pub slot_key-here : (fkt : Fkt) (s : Slot) (k : Key) → slot_key (set_slot fkt s k) s ≡ k
slot_key-here fkt s k = ground arith

-- Two different slots.
abbrev pub IsApart : (s t : Slot) → Type 0
IsApart s t = (s.sector ≡ t.sector) → s.entry ≢ t.entry

pub slot_key-else :
    (fkt : Fkt) (s t : Slot) (k : Key)
    → IsApart s t
    → slot_key (set_slot fkt s k) t ≡ slot_key fkt t
slot_key-else fkt s t k apart = ground arith

pub fkt_bottom_key-IsApart : (a b : ℕ) → a ≢ b → IsApart (fkt_bottom_key a) (fkt_bottom_key b)
unfolding fkt_bottom_key
fkt_bottom_key-IsApart a b n e f = omega arith

pub pprf_sector_key-IsApart :
    (h : Header) (a b : ℕ) → a ≢ b → IsApart (pprf_sector_key h a) (pprf_sector_key h b)
unfolding pprf_sector_key
pprf_sector_key-IsApart h a b n e f = omega arith

-- The slots of the two levels are in different sectors.
pub levels-IsApart :
    (h : Header) (a b : ℕ)
    → a / hp_fkt_per_sector < h.fkt_top_width
    → IsApart (fkt_bottom_key a) (pprf_sector_key h b)
unfolding fkt_bottom_key pprf_sector_key
levels-IsApart h a b low e = omega arith
