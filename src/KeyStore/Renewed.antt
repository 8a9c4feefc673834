-- ===== src/KeyStore/Renewed.antt =====
-- The disk and the memory after the end of `holepunch_do_pprf_rotation` in dm-holepunch-main.c.
use secure_deletion.Common.{ℕ, ◌+◌, ◌<◌, ◌≡◌, refl, sym, ap, ◌∙◌, ◌≢◌, arith}
use mathlib.Core.Path.{subst}
use secure_deletion.Layout.{Header, fkt_bottom_key}
use secure_deletion.PprfTree.{Keynode}
use secure_deletion.KeyStore.{Key, FktSector, IsSameFkt, SectorCipher, Store, slot_key}
use secure_deletion.KeyStore.Sync.{
  IsLaidOut, IsSynced, IsNodesStored, write-else, write-sealed_nodes,
}
use secure_deletion.KeyStore.Reset.{
  reset_top, reset_bottom, reset_keys, IsOpened, IsKept-IsOpened, reset_top-IsOpened,
  reset_bottom-IsKept, reset_bottom-IsOpenedBelow,
}

module _ {Cipher : Type 0} (cipher : SectorCipher Cipher) where
  same_of : (x y : FktSector) → y ≡ x → IsSameFkt x y
  same_of x y e =
      subst (IsSameFkt x) (sym e)
        (record { pprf_size = refl; tag_counter = refl; entries = λ j lt. refl })

  module _ (key_table_len : ℕ) (random : ℕ → Cipher) (new_key zero_node : Keynode)
      (rd : Store Cipher) (laid : IsLaidOut rd.hp_h 1) where
    abbrev h : Header
    h = rd.hp_h

    abbrev tops : Store Cipher
    tops = reset_top cipher h rd.master_key key_table_len random h.fkt_top_width 0 rd

    abbrev both : Store Cipher
    both = reset_bottom cipher h rd.master_key key_table_len random h.fkt_bottom_width 0 tops

    abbrev final : Store Cipher
    final = reset_keys cipher key_table_len random new_key zero_node rd

    -- The new key's sector lies behind the FKT.
    final-disk : (a : ℕ) → a ≢ h.pprf_start → final.disk a ≡ both.disk a
    unfolding reset_keys
    final-disk a ne = write-else cipher both.disk h.pprf_start a _ (λ e. ne (sym e))

    final-IsOpened :
        (key : Key) (s : ℕ)
        → s < h.fkt_top_width + h.fkt_bottom_width
        → IsOpened cipher h key s both
        → IsOpened cipher h key s final
    unfolding reset_keys
    final-IsOpened key s lt o =
        o
        ∙ ap (cipher.open_fkt key (h.fkt_start + s))
            (sym (final-disk (h.fkt_start + s) (omega (arith, laid.apart))))

    top-IsOpened : (s : ℕ) → s < h.fkt_top_width → IsOpened cipher h rd.master_key s final
    top-IsOpened s lt = final-IsOpened rd.master_key s (omega arith) (
        IsKept-IsOpened cipher h rd.master_key s tops both
          (reset_bottom-IsKept cipher h rd.master_key key_table_len random h.fkt_bottom_width 0 s
            tops (omega arith))
          (reset_top-IsOpened cipher h rd.master_key key_table_len random h.fkt_top_width 0 s rd
            (omega arith) (omega arith)))

    bottom-IsOpened :
        (b : ℕ)
        → b < h.fkt_bottom_width
        → IsOpened cipher h (slot_key both.pprf_fkt (fkt_bottom_key b)) (h.fkt_top_width + b) final
    bottom-IsOpened b lt =
        final-IsOpened (slot_key both.pprf_fkt (fkt_bottom_key b)) (h.fkt_top_width + b)
          (omega arith)
          (reset_bottom-IsOpenedBelow cipher h rd.master_key key_table_len random h.fkt_bottom_width
            0 b tops (λ u lt'. omega (arith, laid.wide)) (omega arith) (omega arith))

    new_node : IsNodesStored cipher final 0
    unfolding reset_keys
    new_node j m =
        let e : h.pprf_start + 0 ≡ h.pprf_start = omega arith in
        rw e (write-sealed_nodes cipher both.disk _ h.pprf_start _ j m)

    -- The end of `holepunch_do_pprf_rotation`, whatever the random sectors, leaves the disk in step with
    -- the memory: every sector of the FKT, and the sector of the new PPRF key, on a device laid out for
    -- one.
    pub reset_keys-IsSynced :
        IsSynced cipher (reset_keys cipher key_table_len random new_key zero_node rd) 1
    unfolding reset_keys
    reset_keys-IsSynced = record {
      tops = λ s lt. same_of _ _ (top-IsOpened s lt);
      bottoms = λ b lt.
          let e : h.fkt_start + (h.fkt_top_width + b) ≡ h.fkt_start + h.fkt_top_width + b =
            omega arith in
          subst
            (λ a.
              IsSameFkt
                (cipher.open_fkt (slot_key both.pprf_fkt (fkt_bottom_key b)) a (final.disk a))
                (both.pprf_fkt (h.fkt_top_width + b)))
            e (same_of _ _ (bottom-IsOpened b lt));
      nodes = λ n lt j m.
          let first : n ≡ 0 = omega arith in
          subst (λ x. IsNodesStored cipher final x) (sym first) new_node j m;
    }
