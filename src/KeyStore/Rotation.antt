-- ===== src/KeyStore/Rotation.antt =====
-- The rotation of the master key.
use secure_deletion.Common.{
  ℕ, zero, suc, ◌+◌, ◌≤◌, ◌<◌, ◌≡◌, refl, arith, inl, inr, ◌⊎◌, ℕ-cases, sym, ◌∙◌,
}
use mathlib.Core.Path.{subst}
use secure_deletion.KeyStore.{
  Key, SectorCipher, Store, rotate_top, do_master_rotation, write_cipher,
}
use secure_deletion.KeyStore.Sync.{
  IsLaidOut, IsSynced, IsTopStored, IsBottomStored, IsNodesStored, write-sealed, write-else,
}

module _ {Cipher : Type 0} (cipher : SectorCipher Cipher) (new_key : Key) where
  -- An upper sector that is stored under the new key.
  abbrev IsRotated : Store Cipher → ℕ → Type 0
  IsRotated rd i = IsTopStored cipher (record rd { master_key = new_key }) i

  abbrev round : Store Cipher → (i : ℕ) → Store Cipher
  round rd i = record rd {
    disk =
        write_cipher cipher rd.disk (rd.hp_h.fkt_start + i)
          (cipher.seal_fkt new_key (rd.hp_h.fkt_start + i) (rd.pprf_fkt i));
  }

  -- Only the disk changes, and of it only the upper level.
  record IsRotation (rd d : Store Cipher) (from to : ℕ) : Type 0 where
    only : d ≡ record rd { disk = d.disk }
    rotated : (i : ℕ) → i < to → IsRotated d i
    kept :
        (a : ℕ)
        → ((a < rd.hp_h.fkt_start + from) ⊎ (rd.hp_h.fkt_start + to ≤ a))
        → d.disk a ≡ rd.disk a

  round-IsRotated :
      (rd : Store Cipher) (i : ℕ)
      → ((j : ℕ) → j < i → IsRotated rd j)
      → (j : ℕ) → j < i + 1
      → IsRotated (round rd i) j
  round-IsRotated rd i was j lt = elim (ℕ-cases j i) [
    | inl e ↦
        subst (IsRotated (round rd i)) (sym e)
          (write-sealed cipher rd.disk new_key (rd.hp_h.fkt_start + i) (rd.pprf_fkt i))
    | inr n ↦
        rw
          (write-else cipher rd.disk (rd.hp_h.fkt_start + i) (rd.hp_h.fkt_start + j) _
            (omega arith))
          (was j (omega arith))
  ]

  rotate_top-IsRotation :
      (n i : ℕ) (rd : Store Cipher)
      → ((j : ℕ) → j < i → IsRotated rd j)
      → IsRotation rd (rotate_top cipher n i new_key rd) i (i + n)
  unfolding rotate_top
  rotate_top-IsRotation zero i rd was =
      let e : i + 0 ≡ i = omega arith in
      rw e (record { only = refl; rotated = was; kept = λ a out. refl })
  rotate_top-IsRotation (suc n) i rd was =
      let rest = rotate_top-IsRotation n (i + 1) (round rd i) (round-IsRotated rd i was) in
      let e : i + suc n ≡ i + 1 + n = omega arith in
      rw e (record {
        only = rest.only;
        rotated = rest.rotated;
        kept = λ a out.
            rest.kept a (omega arith)
            ∙ write-else cipher rd.disk (rd.hp_h.fkt_start + i) a _ (omega arith);
      })

  module _ (rd : Store Cipher) (sectors : ℕ) (laid : IsLaidOut rd.hp_h sectors) where
    rotation-IsSynced :
        (d : Store Cipher)
        → d ≡ record rd { disk = d.disk }
        → ((i : ℕ) → i < rd.hp_h.fkt_top_width → IsRotated (record rd { disk = d.disk }) i)
        → ((a : ℕ) → rd.hp_h.fkt_start + rd.hp_h.fkt_top_width ≤ a → d.disk a ≡ rd.disk a)
        → ((b : ℕ) → b < rd.hp_h.fkt_bottom_width → IsBottomStored cipher rd b)
        → ((n : ℕ) → n < sectors → IsNodesStored cipher rd n)
        → IsSynced cipher (record d { master_key = new_key }) sectors
    rotation-IsSynced d only rotated kept bottoms nodes =
        subst (λ x. IsSynced cipher (record x { master_key = new_key }) sectors) (sym only)
          (record {
            tops = rotated;
            bottoms = λ b lt.
                rw (kept (rd.hp_h.fkt_start + rd.hp_h.fkt_top_width + b) (omega arith))
                  (bottoms b lt);
            nodes = λ n lt j m.
                rw (kept (rd.hp_h.pprf_start + n) (omega (arith, laid.apart))) (nodes n lt j m);
          })

    -- Without a journal, and when the TPM takes the new key, `holepunch_do_master_rotation` leaves
    -- the disk in step with the memory under the new master key, if before the lower level of the
    -- FKT and the sectors of the PPRF key were in step, on a device laid out for that many: it does
    -- not matter what the upper level held.
    pub do_master_rotation-IsSynced :
        ((b : ℕ) → b < rd.hp_h.fkt_bottom_width → IsBottomStored cipher rd b)
        → ((n : ℕ) → n < sectors → IsNodesStored cipher rd n)
        → IsSynced cipher (do_master_rotation cipher rd new_key) sectors
    unfolding do_master_rotation
    do_master_rotation-IsSynced bottoms nodes =
        let d = rotate_top cipher rd.hp_h.fkt_top_width 0 new_key rd in
        let r = rotate_top-IsRotation rd.hp_h.fkt_top_width 0 rd (λ j lt. ground arith) in
        rotation-IsSynced d r.only
          (λ i lt. subst (λ x. IsRotated x i) r.only (r.rotated i (omega arith)))
          (λ a out. r.kept a (omega arith)) bottoms nodes
