-- ===== src/KeyStore/Write.antt =====
-- What the writes of key sectors leave on the disk.
use secure_deletion.Common.{
  ◌⊎◌, Bool, ap, ℕ, ◌+◌, ◌/◌, ◌<◌, ◌≡◌, ◌≢◌, arith, inl, inr, ℕ-cases, true, false, sym,
}
use mathlib.Core.Path.{subst}
use secure_deletion.Layout.{hp_fkt_per_sector, pprf_sector_key}
use secure_deletion.KeyStore.{
  Key, SectorCipher, Store, slot_key, pprf_sector, write_cipher, write_fkt_bottom_sector,
  refresh_fkt, write_pprf_key_sector,
}
use secure_deletion.KeyStore.Sync.{
  IsLaidOut, IsSynced, IsSyncedBut, IsSyncedOn, IsTopStored, IsBottomStored, IsNodesStored,
  write-else, write-sealed_nodes,
}
use secure_deletion.KeyStore.Refresh.{
  refreshed-IsSyncedBut, refreshed-IsSyncedOn, refreshed-laid, refreshed-disk, refreshed-header,
}

module _ {Cipher : Type 0} (cipher : SectorCipher Cipher) (d : Store Cipher) (sectors : ℕ)
    (laid : IsLaidOut d.hp_h sectors) (index : ℕ) (within : index < sectors) where
  abbrev nodes_no : ℕ
  nodes_no = d.hp_h.pprf_start + index

  abbrev nodes_key : Key
  nodes_key = slot_key d.pprf_fkt (pprf_sector_key d.hp_h index)

  -- The last write of `holepunch_write_pprf_key_sector`.
  abbrev sealed : Store Cipher
  sealed = record d {
    disk =
        write_cipher cipher d.disk nodes_no
          (cipher.seal_pprf nodes_key nodes_no (pprf_sector d.pprf_key index));
  }

  sealed-here : IsNodesStored cipher sealed index
  sealed-here j lt =
      write-sealed_nodes cipher d.disk nodes_key nodes_no (pprf_sector d.pprf_key index) j lt

  sealed-else : (n : ℕ) → index ≢ n → IsNodesStored cipher d n → IsNodesStored cipher sealed n
  sealed-else n ne was j lt =
      rw (write-else cipher d.disk nodes_no (d.hp_h.pprf_start + n) _ (omega arith)) (was j lt)

  sealed-nodes : (n : ℕ) → (n ≢ index → IsNodesStored cipher d n) → IsNodesStored cipher sealed n
  sealed-nodes n was = elim (ℕ-cases n index) [
    | inl e ↦ subst (IsNodesStored cipher sealed) (sym e) sealed-here
    | inr ne ↦ sealed-else n (λ e. ne (sym e)) (was ne)
  ]

  sealed-IsSynced :
      IsSyncedBut cipher d sectors d.hp_h.fkt_top_width d.hp_h.fkt_bottom_width index
      → IsSynced cipher sealed sectors
  sealed-IsSynced was = record {
    tops = λ s lt.
        rw (write-else cipher d.disk nodes_no (d.hp_h.fkt_start + s) _ (omega (arith, laid.apart)))
          (was.tops s lt (omega arith));
    bottoms = λ b lt.
        rw
          (write-else cipher d.disk nodes_no (d.hp_h.fkt_start + d.hp_h.fkt_top_width + b) _
            (omega (arith, laid.apart)))
          (was.bottoms b lt (omega arith));
    nodes = λ n lt. sealed-nodes n (was.nodes n lt);
  }

  sealed-IsSyncedOn :
      (P : ℕ → Type 0)
      → IsSyncedOn cipher d (λ n. P n × (n ≢ index))
      → IsSyncedOn cipher sealed (λ n. (n ≡ index) ⊎ P n)
  sealed-IsSyncedOn P was = record {
    tops = λ s lt.
        rw (write-else cipher d.disk nodes_no (d.hp_h.fkt_start + s) _ (omega (arith, laid.apart)))
          (was.tops s lt);
    bottoms = λ b lt.
        rw
          (write-else cipher d.disk nodes_no (d.hp_h.fkt_start + d.hp_h.fkt_top_width + b) _
            (omega (arith, laid.apart)))
          (was.bottoms b lt);
    nodes = λ n p. sealed-nodes n (λ ne. was.nodes n (other n p ne, ne));
  }
    where
      other : (n : ℕ) → (n ≡ index) ⊎ P n → n ≢ index → P n
      other n (inl e) ne = absurd (ne e)
      other n (inr p) ne = p

module _ {Cipher : Type 0} (cipher : SectorCipher Cipher) (rd : Store Cipher) (sectors : ℕ)
    (laid : IsLaidOut rd.hp_h sectors) (index : ℕ) (within : index < sectors)
    (random random' : Key) where
  -- On a device that is laid out for so many PPRF sectors, `holepunch_write_pprf_key_sector` with
  -- `fkt_refresh` brings the disk in step with the memory, if before only the PPRF sector that it
  -- writes, that sector's lower FKT sector, and the upper FKT sector above it were not: afterwards
  -- the whole FKT and every PPRF sector decrypt, each with its key in memory, to what is in memory.
  pub write_pprf_key_sector-refresh :
      IsSyncedBut cipher rd sectors
        (index / hp_fkt_per_sector / hp_fkt_per_sector)
        (index / hp_fkt_per_sector)
        index
      → IsSynced cipher (write_pprf_key_sector cipher rd index true random random') sectors
  unfolding write_pprf_key_sector refresh_fkt write_fkt_bottom_sector
  write_pprf_key_sector-refresh was =
      sealed-IsSynced cipher (refresh_fkt cipher rd index true random random') sectors
        (refreshed-laid cipher rd sectors laid index within random random') index within
        (refreshed-IsSyncedBut cipher rd sectors laid index within random random' was)

  -- On a device that is laid out for so many PPRF sectors, `holepunch_write_pprf_key_sector`
  -- without `fkt_refresh` brings the disk in step with the memory if before only the PPRF sector
  -- that it writes was not.
  pub write_pprf_key_sector-keep :
      IsSyncedBut cipher rd sectors rd.hp_h.fkt_top_width rd.hp_h.fkt_bottom_width index
      → IsSynced cipher (write_pprf_key_sector cipher rd index false random random') sectors
  unfolding write_pprf_key_sector refresh_fkt
  write_pprf_key_sector-keep was = sealed-IsSynced cipher rd sectors laid index within was

  pub write-refresh_on :
      (P : ℕ → Type 0)
      → ((s : ℕ)
          → s < rd.hp_h.fkt_top_width
          → s ≢ index / hp_fkt_per_sector / hp_fkt_per_sector
          → IsTopStored cipher rd s)
      → ((b : ℕ)
          → b < rd.hp_h.fkt_bottom_width
          → b ≢ index / hp_fkt_per_sector
          → IsBottomStored cipher rd b)
      → ((n : ℕ) → P n → n ≢ index → IsNodesStored cipher rd n)
      → IsSyncedOn cipher
          (write_pprf_key_sector cipher rd index true random random')
          (λ n. (n ≡ index) ⊎ P n)
  unfolding write_pprf_key_sector
  write-refresh_on P tops bottoms nodes =
      sealed-IsSyncedOn cipher (refresh_fkt cipher rd index true random random') sectors
        (refreshed-laid cipher rd sectors laid index within random random') index within P
        (refreshed-IsSyncedOn cipher rd sectors laid index within random random' P tops bottoms
          nodes)

  pub write-keep_on :
      (P : ℕ → Type 0)
      → IsSyncedOn cipher rd P
      → IsSyncedOn cipher
          (write_pprf_key_sector cipher rd index false random random')
          (λ n. (n ≡ index) ⊎ P n)
  unfolding write_pprf_key_sector refresh_fkt
  write-keep_on P was =
      sealed-IsSyncedOn cipher rd sectors laid index within P
        (record { tops = was.tops; bottoms = was.bottoms; nodes = λ n p. was.nodes n p.0 })

  pub write-laid :
      (fkt_refresh : Bool)
      → IsLaidOut (write_pprf_key_sector cipher rd index fkt_refresh random random').hp_h sectors
  unfolding write_pprf_key_sector refresh_fkt write_fkt_bottom_sector
  write-laid true = laid
  write-laid false = laid

  -- A sector of the PPRF key that is not the one written stays as it is.
  pub write-disk :
      (n : ℕ)
      → index ≢ n
      → (write_pprf_key_sector cipher rd index true random random').disk (rd.hp_h.pprf_start + n)
        ≡ rd.disk (rd.hp_h.pprf_start + n)
  unfolding write_pprf_key_sector
  write-disk n ne =
      let start =
        ap (λ h. h.pprf_start)
          (refreshed-header cipher rd sectors laid index within random random') in
      rw start (
        rw
          (write-else cipher (refresh_fkt cipher rd index true random random').disk
            (rd.hp_h.pprf_start + index) (rd.hp_h.pprf_start + n) _ (omega arith))
          (refreshed-disk cipher rd sectors laid index within random random' n))
