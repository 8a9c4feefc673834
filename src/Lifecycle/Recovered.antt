-- ===== src/Lifecycle/Recovered.antt =====
-- The order in which `eraser_ctr` of dm-holepunch-main.c loads the keys and recovers the journal.
use mathlib.Core.Path.{subst}
use secure_deletion.Common.{
  ◌≡◌, refl, ap, ◌∙◌, ◌≢◌, Bool, true, false, List, ◌∷◌, Bool-cases, inl, inr,
}
use secure_deletion.Lifecycle.{
  Resource, pprf_fkt, pprf_key, Ledger, Progress, call, Call, read_fkt, do_master_rotation,
  init_pprf, rotate_master, journal_replay, Step, next, goto, ◌>>=◌, acquire,
}
use secure_deletion.Lifecycle.Ledger.{Ends, Ends-bind}
use secure_deletion.Lifecycle.Recover.{
  JournalType, hpj_none, hpj_master_rot, hpj_pprf_rot, hpj_pprf_init, hpj_pprf_punct, hpj_generic,
  hpj_invalid, LoadLabel, alloc_pprf_fkt_fail, alloc_pprf_key_fail, load, load_fkt, load_pprf,
  recover, checked_read_pprf, alloc_pprf_key, need_pprf_key, read_pprf_label, has_fkt, has_pprf,
}

abbrev Any : LoadLabel → Ledger → Type 0
Any label l = Unit

abbrev Made : List Call → Progress → Type 0
Made cs d = d.calls ≡ cs

-- The FKT in memory is the one on the disk.
abbrev HasFkt : Progress → Type 0
HasFkt d = has_fkt d.calls ≡ true

abbrev HasBoth : Progress → Type 0
HasBoth d = (has_fkt d.calls ≡ true) × (has_pprf d.calls ≡ true)

-- What the recovery needs of the load.
abbrev Ready : JournalType → Progress → Type 0
Ready hpj_master_rot d = Unit
Ready hpj_none d = HasBoth d
Ready _ d = HasFkt d

module _ (works : Resource → Bool) where
  acquire-Made :
      (r : Resource) (label : LoadLabel) (d : Progress)
      → Ends Any (Made d.calls) (acquire works r label d)
  acquire-Made r label d = elim (Bool-cases (works r)) [ inl w ↦ rw w refl | inr w ↦ rw w tt ]

  alloc_pprf_key-Made : (d : Progress) → Ends Any (Made d.calls) (alloc_pprf_key works d)
  alloc_pprf_key-Made d =
      Ends-bind Any (Made d.calls) (Made d.calls) (acquire works pprf_key alloc_pprf_key_fail d) _
        (acquire-Made pprf_key alloc_pprf_key_fail d) (λ x e. e)

  need_pprf_key-Made : (b : Bool) (d : Progress) → Ends Any (Made d.calls) (need_pprf_key works b d)
  need_pprf_key-Made true d = refl
  need_pprf_key-Made false d = alloc_pprf_key-Made d

  -- Reading the key behind the FKT.
  checked_read_pprf-HasBoth :
      (d : Progress) → HasFkt d → Ends Any HasBoth (checked_read_pprf works d)
  checked_read_pprf-HasBoth d h =
      Ends-bind Any (Made d.calls) HasBoth (need_pprf_key works d.pprf_key_set d) _
        (need_pprf_key-Made d.pprf_key_set d) (λ x e. let f = ap has_fkt e ∙ h in (f, f))

  read_pprf_label-HasBoth : (d : Progress) → HasFkt d → Ends Any HasBoth (read_pprf_label works d)
  read_pprf_label-HasBoth d h =
      Ends-bind Any HasBoth HasBoth (checked_read_pprf works d) _ (checked_read_pprf-HasBoth d h)
        (λ x k. k)

  recover-HasBoth :
      (ty : JournalType) (tpm_old : Bool) (d : Progress)
      → ty ≢ hpj_generic
      → Ready ty d
      → Ends Any HasBoth (recover works ty tpm_old d)
  unfolding recover
  recover-HasBoth hpj_none tpm_old d ne h = h
  recover-HasBoth hpj_master_rot true d ne h =
      read_pprf_label-HasBoth (call read_fkt (call do_master_rotation d)) refl
  recover-HasBoth hpj_master_rot false d ne h = read_pprf_label-HasBoth (call read_fkt d) refl
  recover-HasBoth hpj_pprf_rot tpm_old d ne h =
      Ends-bind Any HasBoth HasBoth (checked_read_pprf works (call read_fkt d)) _
        (checked_read_pprf-HasBoth (call read_fkt d) refl) (λ x (f, p). (f, f))
  recover-HasBoth hpj_pprf_init tpm_old d ne h =
      read_pprf_label-HasBoth (call rotate_master (call rotate_master (call init_pprf d))) h
  recover-HasBoth hpj_pprf_punct tpm_old d ne h =
      read_pprf_label-HasBoth (call read_fkt (call journal_replay d)) refl
  recover-HasBoth hpj_generic tpm_old d ne h = elim (ne refl) [ ]
  recover-HasBoth hpj_invalid tpm_old d ne h = read_pprf_label-HasBoth (call rotate_master d) h

  fkt_only : (m : Step LoadLabel) → Ends Any HasBoth m → Ends Any HasFkt m
  fkt_only (next d) (f, p) = f
  fkt_only (goto label d) h = tt

  ends : (m : Step LoadLabel) → Ends Any (λ d. Unit) m
  ends (next d) = tt
  ends (goto label d) = tt

  load_pprf-Ready :
      (ty : JournalType) (used : Bool) (d : Progress)
      → (ty ≡ hpj_none → used ≡ true)
      → HasFkt d
      → Ends Any (Ready ty) (load_pprf works ty used d)
  load_pprf-Ready hpj_pprf_init used d k h = h
  load_pprf-Ready hpj_pprf_rot used d k h = h
  load_pprf-Ready hpj_none true d k h = checked_read_pprf-HasBoth d h
  load_pprf-Ready hpj_none false d k h = let absurd : false ≡ true = k refl in cc
  load_pprf-Ready hpj_master_rot used d k h = ends (load_pprf works hpj_master_rot used d)
  load_pprf-Ready hpj_pprf_punct true d k h = fkt_only _ (checked_read_pprf-HasBoth d h)
  load_pprf-Ready hpj_pprf_punct false d k h = h
  load_pprf-Ready hpj_generic true d k h = fkt_only _ (checked_read_pprf-HasBoth d h)
  load_pprf-Ready hpj_generic false d k h = h
  load_pprf-Ready hpj_invalid true d k h = fkt_only _ (checked_read_pprf-HasBoth d h)
  load_pprf-Ready hpj_invalid false d k h = h

  read_and_load-Ready :
      (ty : JournalType) (used : Bool) (d : Progress)
      → (ty ≡ hpj_none → used ≡ true)
      → Ends Any (Ready ty) (alloc_pprf_key works (call read_fkt d) >>= load_pprf works ty used)
  read_and_load-Ready ty used d k =
      Ends-bind Any (Made (read_fkt ∷ d.calls)) (Ready ty) (alloc_pprf_key works (call read_fkt d))
        _ (alloc_pprf_key-Made (call read_fkt d))
        (λ x e. load_pprf-Ready ty used x k (ap has_fkt e))

  load_fkt-Ready :
      (ty : JournalType) (used : Bool) (d : Progress)
      → (ty ≡ hpj_none → used ≡ true)
      → Ends Any (Ready ty) (load_fkt works ty used d)
  load_fkt-Ready hpj_master_rot used d k = tt
  load_fkt-Ready hpj_none used d k = read_and_load-Ready hpj_none used d k
  load_fkt-Ready hpj_pprf_rot used d k = read_and_load-Ready hpj_pprf_rot used d k
  load_fkt-Ready hpj_pprf_init used d k = read_and_load-Ready hpj_pprf_init used d k
  load_fkt-Ready hpj_pprf_punct used d k = read_and_load-Ready hpj_pprf_punct used d k
  load_fkt-Ready hpj_generic used d k = read_and_load-Ready hpj_generic used d k
  load_fkt-Ready hpj_invalid used d k = read_and_load-Ready hpj_invalid used d k

  load-recover-HasBoth :
      (ty : JournalType) (used tpm_old : Bool) (d : Progress)
      → ty ≢ hpj_generic
      → (ty ≡ hpj_none → used ≡ true)
      → Ends Any HasBoth (load works ty used d >>= recover works ty tpm_old)
  unfolding load
  load-recover-HasBoth ty used tpm_old d ne k =
      Ends-bind Any (Ready ty) HasBoth (load works ty used d) (recover works ty tpm_old)
        (Ends-bind Any (Made d.calls) (Ready ty) (acquire works pprf_fkt alloc_pprf_fkt_fail d) _
          (acquire-Made pprf_fkt alloc_pprf_fkt_fail d) (λ x e. load_fkt-Ready ty used x k))
        (λ x r. recover-HasBoth ty tpm_old x ne r)

-- When the load and the recovery of a journal of any type but HPJ_GENERIC reach the end, the FKT and
-- the PPRF key in memory are those that the disk then has: each was read or written last after every
-- replay and master rotation of the disk, the key with an FKT for which this is so. A device with an
-- empty journal must have been in use.
pub load-recover :
    (works : Resource → Bool) (ty : JournalType) (used tpm_old : Bool) (d e : Progress)
    → ty ≢ hpj_generic
    → (ty ≡ hpj_none → used ≡ true)
    → load works ty used d >>= recover works ty tpm_old ≡ next e
    → (has_fkt e.calls ≡ true) × (has_pprf e.calls ≡ true)
load-recover works ty used tpm_old d e ne k same =
    subst (Ends Any HasBoth) same (load-recover-HasBoth works ty used tpm_old d ne k)
