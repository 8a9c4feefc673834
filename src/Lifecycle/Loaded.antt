-- ===== src/Lifecycle/Loaded.antt =====
-- What the load and the recovery of dm-holepunch-main.c allocate.
use mathlib.Core.Path.{subst}
use secure_deletion.Common.{refl, sym, Bool, true, false, ◌∷◌}
use secure_deletion.Lifecycle.{
  Resource, pprf_fkt, pprf_key, Ledger, Progress, call, do_master_rotation, init_pprf,
  rotate_master, journal_replay, clear_journal, read_pprf, read_fkt, next, ◌>>=◌, acquire,
}
use secure_deletion.Lifecycle.Ledger.{Holds, Ends, Ends-bind, Ends-acquire}
use secure_deletion.Lifecycle.Recover.{
  JournalType, hpj_none, hpj_master_rot, hpj_pprf_rot, hpj_pprf_init, hpj_pprf_punct, hpj_generic,
  hpj_invalid, LoadLabel, alloc_pprf_fkt_fail, alloc_pprf_key_fail, load, load_fkt, load_pprf,
  recover, checked_read_pprf, alloc_pprf_key, need_pprf_key, read_pprf_label,
}

-- The ledger with the PPRF key, if it is allocated.
abbrev with_key : Bool → Ledger → Ledger
with_key true s = pprf_key ∷ s
with_key false s = s

-- Whether the load allocates the key.
abbrev allocates : JournalType → Bool
allocates hpj_master_rot = false
allocates _ = true

abbrev KeyHeld : Bool → Ledger → Progress → Type 0
KeyHeld b s = Holds b (with_key b s)

module _ (works : Resource → Bool) (U : LoadLabel → Ledger → Type 0) where
  module _ (s : Ledger) (undone : U alloc_pprf_key_fail s) where
    alloc_pprf_key-Ends :
        (d : Progress) → Holds false s d → Ends U (KeyHeld true s) (alloc_pprf_key works d)
    alloc_pprf_key-Ends d h =
        Ends-bind U (Holds false (pprf_key ∷ s)) (KeyHeld true s)
          (acquire works pprf_key alloc_pprf_key_fail d) _
          (Ends-acquire U works false s pprf_key alloc_pprf_key_fail d undone h)
          (λ x (key, e). (refl, e))

    need_pprf_key-Ends :
        (b : Bool) (d : Progress)
        → KeyHeld b s d
        → Ends U (KeyHeld true s) (need_pprf_key works b d)
    need_pprf_key-Ends true d h = h
    need_pprf_key-Ends false d h = alloc_pprf_key-Ends d h

    checked_read_pprf-Ends :
        (b : Bool) (d : Progress)
        → KeyHeld b s d
        → Ends U (KeyHeld true s) (checked_read_pprf works d)
    checked_read_pprf-Ends b d h =
        Ends-bind U (KeyHeld true s) (KeyHeld true s) (need_pprf_key works d.pprf_key_set d)
          (λ e. next (call read_pprf e))
          (subst (λ c. Ends U (KeyHeld true s) (need_pprf_key works c d)) (sym (h.0))
            (need_pprf_key-Ends b d h))
          (λ x k. k)

    -- The labels `read_pprf` and on.
    read_pprf_label-Ends :
        (b : Bool) (d : Progress)
        → KeyHeld b s d
        → Ends U (KeyHeld true s) (read_pprf_label works d)
    read_pprf_label-Ends b d h =
        Ends-bind U (KeyHeld true s) (KeyHeld true s) (checked_read_pprf works d)
          (λ e. next (call clear_journal e)) (checked_read_pprf-Ends b d h) (λ x k. k)

    recover-Ends :
        (ty : JournalType) (tpm_old : Bool) (d : Progress)
        → KeyHeld (allocates ty) s d
        → Ends U (KeyHeld true s) (recover works ty tpm_old d)
    unfolding recover
    recover-Ends hpj_none tpm_old d h = h
    recover-Ends hpj_master_rot true d h =
        read_pprf_label-Ends false (call read_fkt (call do_master_rotation d)) h
    recover-Ends hpj_master_rot false d h = read_pprf_label-Ends false (call read_fkt d) h
    recover-Ends hpj_pprf_rot tpm_old d h =
        Ends-bind U (KeyHeld true s) (KeyHeld true s) (checked_read_pprf works (call read_fkt d)) _
          (checked_read_pprf-Ends true (call read_fkt d) h) (λ x k. k)
    recover-Ends hpj_pprf_init tpm_old d h =
        read_pprf_label-Ends true (call rotate_master (call rotate_master (call init_pprf d))) h
    recover-Ends hpj_pprf_punct tpm_old d h =
        read_pprf_label-Ends true (call read_fkt (call journal_replay d)) h
    recover-Ends hpj_generic tpm_old d h = h
    recover-Ends hpj_invalid tpm_old d h = read_pprf_label-Ends true (call rotate_master d) h

    load_pprf-Ends :
        (ty : JournalType) (used : Bool) (d : Progress)
        → KeyHeld true s d
        → Ends U (KeyHeld true s) (load_pprf works ty used d)
    load_pprf-Ends hpj_pprf_init used d h = h
    load_pprf-Ends hpj_pprf_rot used d h = h
    load_pprf-Ends hpj_none true d h = checked_read_pprf-Ends true d h
    load_pprf-Ends hpj_none false d h = h
    load_pprf-Ends hpj_master_rot true d h = checked_read_pprf-Ends true d h
    load_pprf-Ends hpj_master_rot false d h = h
    load_pprf-Ends hpj_pprf_punct true d h = checked_read_pprf-Ends true d h
    load_pprf-Ends hpj_pprf_punct false d h = h
    load_pprf-Ends hpj_generic true d h = checked_read_pprf-Ends true d h
    load_pprf-Ends hpj_generic false d h = h
    load_pprf-Ends hpj_invalid true d h = checked_read_pprf-Ends true d h
    load_pprf-Ends hpj_invalid false d h = h

    alloc_and_load-Ends :
        (ty : JournalType) (used : Bool) (d : Progress)
        → Holds false s d
        → Ends U
            (KeyHeld true s)
            (alloc_pprf_key works (call read_fkt d) >>= load_pprf works ty used)
    alloc_and_load-Ends ty used d h =
        Ends-bind U (KeyHeld true s) (KeyHeld true s) (alloc_pprf_key works (call read_fkt d))
          (load_pprf works ty used) (alloc_pprf_key-Ends (call read_fkt d) h)
          (load_pprf-Ends ty used)

    load_fkt-Ends :
        (ty : JournalType) (used : Bool) (d : Progress)
        → Holds false s d
        → Ends U (KeyHeld (allocates ty) s) (load_fkt works ty used d)
    load_fkt-Ends hpj_master_rot used d h = h
    load_fkt-Ends hpj_none used d h = alloc_and_load-Ends hpj_none used d h
    load_fkt-Ends hpj_pprf_rot used d h = alloc_and_load-Ends hpj_pprf_rot used d h
    load_fkt-Ends hpj_pprf_init used d h = alloc_and_load-Ends hpj_pprf_init used d h
    load_fkt-Ends hpj_pprf_punct used d h = alloc_and_load-Ends hpj_pprf_punct used d h
    load_fkt-Ends hpj_generic used d h = alloc_and_load-Ends hpj_generic used d h
    load_fkt-Ends hpj_invalid used d h = alloc_and_load-Ends hpj_invalid used d h

  -- The load and the recovery end with the FKT and the key allocated.
  pub load-recover-Ends :
      (ty : JournalType) (used tpm_old : Bool) (s : Ledger) (d : Progress)
      → U alloc_pprf_fkt_fail s
      → U alloc_pprf_key_fail (pprf_fkt ∷ s)
      → Holds false s d
      → Ends U
          (Holds true (pprf_key ∷ pprf_fkt ∷ s))
          (load works ty used d >>= recover works ty tpm_old)
  unfolding load
  load-recover-Ends ty used tpm_old s d no_fkt no_key h =
      let t = pprf_fkt ∷ s in
      Ends-bind U (KeyHeld (allocates ty) t) (KeyHeld true t) (load works ty used d)
        (recover works ty tpm_old)
        (Ends-bind U (Holds false t) (KeyHeld (allocates ty) t)
          (acquire works pprf_fkt alloc_pprf_fkt_fail d) (load_fkt works ty used)
          (Ends-acquire U works false s pprf_fkt alloc_pprf_fkt_fail d no_fkt h)
          (load_fkt-Ends t no_key ty used))
        (recover-Ends t no_key ty tpm_old)
