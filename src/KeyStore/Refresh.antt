-- ===== src/KeyStore/Refresh.antt =====
-- The start of a write of a PPRF sector: a new key for it, and the FKT sectors that hold it.
use secure_deletion.Common.{
  ℕ, ◌+◌, ◌/◌, ◌<◌, ◌≡◌, refl, ◌≢◌, arith, inl, inr, ℕ-cases, true, sym, ◌∙◌,
}
use mathlib.Core.Path.{subst}
use secure_deletion.Layout.{hp_fkt_per_sector, fkt_bottom_key, pprf_sector_key}
use secure_deletion.KeyStore.{
  Key, SectorCipher, Store, slot_key, set_slot, write_cipher, write_fkt_bottom_sector, refresh_fkt,
}
use secure_deletion.KeyStore.Sync.{
  IsLaidOut, IsSyncedBut, IsSyncedOn, IsTopStored, IsBottomStored, IsNodesStored, write-first,
  write-neither, write-sealed, set_slot-else, slot_key-else, fkt_bottom_key-IsApart,
  pprf_sector_key-IsApart, levels-IsApart,
}

bottom_sector : (a : ℕ) → (fkt_bottom_key a).sector ≡ a / hp_fkt_per_sector
unfolding fkt_bottom_key
bottom_sector a = refl

module _ {Cipher : Type 0} (cipher : SectorCipher Cipher) (rd : Store Cipher) (sectors : ℕ)
    (laid : IsLaidOut rd.hp_h sectors) (index : ℕ) (within : index < rd.hp_h.fkt_bottom_width)
    (random : Key) where
  abbrev bottom_written : Store Cipher
  bottom_written = write_fkt_bottom_sector cipher rd index random

  abbrev top_no : ℕ
  top_no = rd.hp_h.fkt_start + index / hp_fkt_per_sector

  abbrev bottom_no : ℕ
  bottom_no = rd.hp_h.fkt_start + rd.hp_h.fkt_top_width + index

  low : index / hp_fkt_per_sector < rd.hp_h.fkt_top_width
  low = omega (arith, laid.wide)

  bottom-top :
      (s : ℕ)
      → s < rd.hp_h.fkt_top_width
      → (s ≢ index / hp_fkt_per_sector → IsTopStored cipher rd s)
      → IsTopStored cipher bottom_written s
  unfolding write_fkt_bottom_sector
  bottom-top s lt was = elim (ℕ-cases s (index / hp_fkt_per_sector)) [
    | inl e ↦
        rw (e, write-first cipher rd.disk top_no bottom_no _ _ (omega (arith, low)))
          (cipher.open-seal_fkt rd.master_key top_no _)
    | inr n ↦
        rw
          (
            write-neither cipher rd.disk top_no bottom_no (rd.hp_h.fkt_start + s) _ _ (omega arith)
                (omega arith),
            set_slot-else rd.pprf_fkt (fkt_bottom_key index) random s
                (λ q. n (sym q ∙ bottom_sector index)),
          )
          (was n)
  ]

  bottom-here : IsBottomStored cipher bottom_written index
  unfolding write_fkt_bottom_sector
  bottom-here =
      write-sealed cipher
        (write_cipher cipher rd.disk top_no (
          cipher.seal_fkt rd.master_key top_no
            (set_slot rd.pprf_fkt (fkt_bottom_key index) random (index / hp_fkt_per_sector))))
        (slot_key (set_slot rd.pprf_fkt (fkt_bottom_key index) random) (fkt_bottom_key index))
        bottom_no
        (set_slot rd.pprf_fkt (fkt_bottom_key index) random (rd.hp_h.fkt_top_width + index))

  bottom-bottom :
      (b : ℕ)
      → b < rd.hp_h.fkt_bottom_width
      → (b ≢ index → IsBottomStored cipher rd b)
      → IsBottomStored cipher bottom_written b
  unfolding write_fkt_bottom_sector
  bottom-bottom b lt was = elim (ℕ-cases b index) [
    | inl e ↦ subst (IsBottomStored cipher bottom_written) (sym e) bottom-here
    | inr n ↦
        rw
          (
            write-neither cipher rd.disk top_no bottom_no
                (rd.hp_h.fkt_start + rd.hp_h.fkt_top_width + b) _ _ (omega (arith, low))
                (omega arith),
            slot_key-else rd.pprf_fkt (fkt_bottom_key index) (fkt_bottom_key b) random
                (fkt_bottom_key-IsApart index b (λ q. n (sym q))),
            set_slot-else rd.pprf_fkt (fkt_bottom_key index) random (rd.hp_h.fkt_top_width + b)
                (λ q. omega (arith, bottom_sector index, low)),
          )
          (was n)
  ]

  -- The lower table keeps every key of a PPRF sector, and the regions apart.
  bottom-nodes : (n : ℕ) → IsNodesStored cipher rd n → IsNodesStored cipher bottom_written n
  unfolding write_fkt_bottom_sector
  bottom-nodes n was j lt =
      rw
        (
          write-neither cipher rd.disk top_no bottom_no (rd.hp_h.pprf_start + n) _ _
              (omega (arith, low, laid.apart)) (omega (arith, laid.apart)),
          slot_key-else rd.pprf_fkt (fkt_bottom_key index) (pprf_sector_key rd.hp_h n) random
              (levels-IsApart rd.hp_h index n low),
        )
        (was j lt)

module _ {Cipher : Type 0} (cipher : SectorCipher Cipher) (rd : Store Cipher) (sectors : ℕ)
    (laid : IsLaidOut rd.hp_h sectors) (index : ℕ) (within : index < sectors)
    (random random' : Key) where
  abbrev keyed : Store Cipher
  keyed = record rd { pprf_fkt = set_slot rd.pprf_fkt (pprf_sector_key rd.hp_h index) random }

  abbrev lower : ℕ
  lower = index / hp_fkt_per_sector

  lower-lt : lower < rd.hp_h.fkt_bottom_width
  lower-lt = omega (arith, laid.slots)

  slot_sector : (pprf_sector_key rd.hp_h index).sector ≡ lower + rd.hp_h.fkt_top_width
  unfolding pprf_sector_key
  slot_sector = refl

  keyed-top :
      (s : ℕ) → s < rd.hp_h.fkt_top_width → IsTopStored cipher rd s → IsTopStored cipher keyed s
  keyed-top s lt was =
      rw
        (set_slot-else rd.pprf_fkt (pprf_sector_key rd.hp_h index) random s
          (λ e. omega (arith, slot_sector)))
        was

  keyed-bottom :
      (b : ℕ)
      → b < rd.hp_h.fkt_bottom_width
      → b ≢ lower
      → IsBottomStored cipher rd b
      → IsBottomStored cipher keyed b
  keyed-bottom b lt n was =
      let low : b / hp_fkt_per_sector < rd.hp_h.fkt_top_width = omega (arith, laid.wide) in
      rw
        (
          slot_key-else rd.pprf_fkt (pprf_sector_key rd.hp_h index) (fkt_bottom_key b) random
              (λ e f. levels-IsApart rd.hp_h b index low (sym e) (sym f)),
          set_slot-else rd.pprf_fkt (pprf_sector_key rd.hp_h index) random
              (rd.hp_h.fkt_top_width + b) (λ e. omega (arith, slot_sector)),
        )
        was

  keyed-nodes : (n : ℕ) → n ≢ index → IsNodesStored cipher rd n → IsNodesStored cipher keyed n
  keyed-nodes n ne was j lt =
      rw
        (slot_key-else rd.pprf_fkt (pprf_sector_key rd.hp_h index) (pprf_sector_key rd.hp_h n)
          random (pprf_sector_key-IsApart rd.hp_h index n (λ e. ne (sym e))))
        (was j lt)

  pub refreshed-IsSyncedBut :
      IsSyncedBut cipher rd sectors (lower / hp_fkt_per_sector) lower index
      → IsSyncedBut cipher
          (refresh_fkt cipher rd index true random random')
          sectors
          rd.hp_h.fkt_top_width
          rd.hp_h.fkt_bottom_width
          index
  unfolding refresh_fkt write_fkt_bottom_sector
  refreshed-IsSyncedBut was = record {
    tops = λ s lt n.
        bottom-top cipher keyed sectors laid lower lower-lt random' s lt
          (λ m. keyed-top s lt (was.tops s lt m));
    bottoms = λ b lt n.
        bottom-bottom cipher keyed sectors laid lower lower-lt random' b lt
          (λ m. keyed-bottom b lt m (was.bottoms b lt m));
    nodes = λ n lt ne.
        bottom-nodes cipher keyed sectors laid lower lower-lt random' n
          (keyed-nodes n ne (was.nodes n lt ne));
  }

  -- The first part alone, with any set of PPRF sectors in step.
  pub refreshed-IsSyncedOn :
      (P : ℕ → Type 0)
      → ((s : ℕ)
          → s < rd.hp_h.fkt_top_width
          → s ≢ lower / hp_fkt_per_sector
          → IsTopStored cipher rd s)
      → ((b : ℕ) → b < rd.hp_h.fkt_bottom_width → b ≢ lower → IsBottomStored cipher rd b)
      → ((n : ℕ) → P n → n ≢ index → IsNodesStored cipher rd n)
      → IsSyncedOn cipher (refresh_fkt cipher rd index true random random') (λ n. P n × (n ≢ index))
  unfolding refresh_fkt write_fkt_bottom_sector
  refreshed-IsSyncedOn P tops bottoms nodes = record {
    tops = λ s lt.
        bottom-top cipher keyed sectors laid lower lower-lt random' s lt
          (λ m. keyed-top s lt (tops s lt m));
    bottoms = λ b lt.
        bottom-bottom cipher keyed sectors laid lower lower-lt random' b lt
          (λ m. keyed-bottom b lt m (bottoms b lt m));
    nodes = λ n p.
        bottom-nodes cipher keyed sectors laid lower lower-lt random' n
          (keyed-nodes n p.1 (nodes n p.0 p.1));
  }

  pub refreshed-laid : IsLaidOut (refresh_fkt cipher rd index true random random').hp_h sectors
  unfolding refresh_fkt write_fkt_bottom_sector
  refreshed-laid = laid

  pub refreshed-disk :
      (n : ℕ)
      → (refresh_fkt cipher rd index true random random').disk (rd.hp_h.pprf_start + n)
        ≡ rd.disk (rd.hp_h.pprf_start + n)
  unfolding refresh_fkt write_fkt_bottom_sector
  refreshed-disk n =
      let low = lower-lt in
      rw (
        write-neither cipher rd.disk
          (rd.hp_h.fkt_start + index / hp_fkt_per_sector / hp_fkt_per_sector)
          (rd.hp_h.fkt_start + rd.hp_h.fkt_top_width + index / hp_fkt_per_sector)
          (rd.hp_h.pprf_start + n) _ _ (omega (arith, laid.apart, laid.wide, low))
          (omega (arith, laid.apart, low)))

  pub refreshed-header : (refresh_fkt cipher rd index true random random').hp_h ≡ rd.hp_h
  unfolding refresh_fkt write_fkt_bottom_sector
  refreshed-header = refl
