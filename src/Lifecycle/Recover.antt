-- ===== src/Lifecycle/Recover.antt =====
-- The part of `eraser_ctr` of dm-holepunch-main.c that loads the FKT and the PPRF key and recovers
-- the journal: which routines it calls for which type of the journal's control block.
use secure_deletion.Common.{ℕ, Bool, true, false, List, [], ◌∷◌, ◌==◌, if◌then◌else◌}
use secure_deletion.Lifecycle.{
  Resource, journal_sector, pprf_fkt, pprf_key, Progress, drop, call, Call, read_fkt, read_pprf,
  do_master_rotation, do_pprf_rotation, init_pprf, rotate_master, journal_replay, clear_journal,
  write_header, Step, next, ◌>>=◌, acquire,
}

-- The types of the control block: the enum of dm-holepunch-main.h, and any other word.
pub data JournalType : Type 0 where
  hpj_none hpj_master_rot hpj_pprf_rot hpj_pprf_init hpj_pprf_punct hpj_generic : JournalType
  hpj_invalid : JournalType

abbrev pub type_of : ℕ → JournalType
type_of w =
    if w == 0
    then hpj_none
    else if w == 1
    then hpj_master_rot
    else if w == 2
    then hpj_pprf_rot
    else if w == 3
    then hpj_pprf_init
    else if w == 4
    then hpj_pprf_punct
    else if w == 5
    then hpj_generic
    else hpj_invalid

-- Where the load and the recovery fail.
pub data LoadLabel : Type 0 where
  alloc_pprf_fkt_fail alloc_pprf_key_fail : LoadLabel

module _ (works : Resource → Bool) where
  abbrev pub alloc_pprf_key : Progress → Step LoadLabel
  alloc_pprf_key d =
      acquire works pprf_key alloc_pprf_key_fail d >>= λ e. next (record e { pprf_key_set = true })

  -- `if (!rd->pprf_key)` at the beginning of `holepunch_read_pprf` ...
  abbrev pub need_pprf_key : (pprf_key_set : Bool) → Progress → Step LoadLabel
  need_pprf_key true d = next d
  need_pprf_key false d = alloc_pprf_key d

  -- ... and `holepunch_read_pprf`.
  abbrev pub checked_read_pprf : Progress → Step LoadLabel
  checked_read_pprf d = need_pprf_key d.pprf_key_set d >>= λ e. next (call read_pprf e)

  -- The load of the PPRF key once it is allocated.
  abbrev pub load_pprf : JournalType → (in_use : Bool) → Progress → Step LoadLabel
  load_pprf hpj_pprf_init in_use d = next d
  load_pprf hpj_pprf_rot in_use d = next d
  load_pprf _ in_use d = if in_use then checked_read_pprf d else next d

  abbrev pub load_fkt : JournalType → (in_use : Bool) → Progress → Step LoadLabel
  load_fkt hpj_master_rot in_use d = next d
  load_fkt ty in_use d = alloc_pprf_key (call read_fkt d) >>= load_pprf ty in_use

  -- From the allocation of the FKT to `skip_pprf_load`.
  unfoldable pub load : JournalType → (in_use : Bool) → Progress → Step LoadLabel
  load ty in_use d = acquire works pprf_fkt alloc_pprf_fkt_fail d >>= load_fkt ty in_use

  -- The labels at the end of the switch, each falling through to the next one.
  abbrev pub journal_clear : Progress → Step LoadLabel
  journal_clear d = next (call clear_journal d)

  abbrev pub read_pprf_label : Progress → Step LoadLabel
  read_pprf_label d = checked_read_pprf d >>= journal_clear

  abbrev pub read_fkt_label : Progress → Step LoadLabel
  read_fkt_label d = read_pprf_label (call read_fkt d)

  abbrev pub journal_pprf_finish : Progress → Step LoadLabel
  journal_pprf_finish d = read_pprf_label (call rotate_master d)

  -- The switch on the type; `tpm_old` tells that the hash of the master key is the one in the
  -- control block, so that the TPM still has the old key.
  unfoldable pub recover : JournalType → (tpm_old : Bool) → Progress → Step LoadLabel
  recover hpj_none tpm_old d = next d
  recover hpj_master_rot tpm_old d =
      read_fkt_label (if tpm_old then call do_master_rotation d else d)
  recover hpj_pprf_rot tpm_old d = checked_read_pprf (call read_fkt d) >>= λ e.
      journal_clear (call rotate_master (call do_pprf_rotation e))
  recover hpj_pprf_init tpm_old d = journal_pprf_finish (call rotate_master (call init_pprf d))
  recover hpj_pprf_punct tpm_old d = read_fkt_label (call journal_replay d)
  recover hpj_generic tpm_old d = journal_clear (call journal_replay d)
  recover hpj_invalid tpm_old d = journal_pprf_finish d

-- Behind the switch: the control block's page is freed; a device in use was not shut down.
abbrev pub after_recovery : (in_use : Bool) → Progress → Progress
after_recovery in_use d =
    let e = drop journal_sector d in if in_use then call rotate_master e else call write_header e

-- Whether the FKT in memory is the one on the disk, from the calls, the latest first: a replay
-- changes the one on the disk, and a rotation that does not start from memory does as well.
abbrev pub has_fkt : List Call → Bool
has_fkt [] = false
has_fkt (read_fkt ∷ cs) = true
has_fkt (journal_replay ∷ cs) = false
has_fkt (do_master_rotation ∷ cs) = false
has_fkt (_ ∷ cs) = has_fkt cs

-- Whether the PPRF key in memory is the one on the disk: reading or writing it takes the FKT.
abbrev pub has_pprf : List Call → Bool
has_pprf [] = false
has_pprf (read_pprf ∷ cs) = has_fkt cs
has_pprf (do_pprf_rotation ∷ cs) = has_fkt cs
has_pprf (init_pprf ∷ cs) = has_fkt cs
has_pprf (journal_replay ∷ cs) = false
has_pprf (do_master_rotation ∷ cs) = false
has_pprf (_ ∷ cs) = has_pprf cs
