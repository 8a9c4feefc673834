-- ===== src/Lifecycle.antt =====
-- What the constructors and destructors of the kernel modules acquire and release, from
-- holepunch/kernel_module/dm-holepunch-main.c and eraser/kernel_module/dm-eraser.c: the resources, the
-- ledger of the live ones, and the steps that end in the next one or in a `goto`.
pub mod Ledger
pub mod Recover
pub mod Construct
pub mod Unwind
pub mod Loaded
pub mod Recovered
pub mod Failure
pub mod Destruct
pub mod Registry
mod Tests
use secure_deletion.Common.{ℕ, zero, suc, ◌+◌, Bool, List, [], ◌∷◌, ◌==◌, ◌&&◌, if◌then◌else◌}

-- What there is one of for every CPU.
pub data Family : Type 0 where
  ecb_tfm cbc_tfm rand_tfm rand_buf essiv_tfm : Family

-- The array of a family, the member of a CPU, and what there is one of.
pub data Resource : Type 0 where
  array : Family → Resource
  member : Family → (cpu : ℕ) → Resource
  dev_lock dev_struct dm_device dev_entry enc_key ctr_tfm sha_tfm prg_input : Resource
  bioset page_pool header_sector io_work_cache io_work_pool io_queue : Resource
  unlink_work_cache unlink_work_pool unlink_queue map_cache_cache map_cache_pool : Resource
  journal_sector pprf_fkt pprf_key slot_map evict_thread real_dev_path virt_dev_path : Resource
  netlink_socket unlink_kprobe dm_target proc_file : Resource

abbrev family_code : Family → ℕ
family_code ecb_tfm = 0
family_code cbc_tfm = 1
family_code rand_tfm = 2
family_code rand_buf = 3
family_code essiv_tfm = 4

-- A number for each kind of resource, and the CPU.
abbrev pub kind : Resource → ℕ
kind (array f) = 100 + family_code f
kind (member f i) = 110 + family_code f
kind dev_lock = 0
kind dev_struct = 1
kind dm_device = 2
kind dev_entry = 3
kind enc_key = 4
kind ctr_tfm = 5
kind sha_tfm = 6
kind prg_input = 7
kind bioset = 8
kind page_pool = 9
kind header_sector = 10
kind io_work_cache = 11
kind io_work_pool = 12
kind io_queue = 13
kind unlink_work_cache = 14
kind unlink_work_pool = 15
kind unlink_queue = 16
kind map_cache_cache = 17
kind map_cache_pool = 18
kind journal_sector = 19
kind pprf_fkt = 20
kind pprf_key = 21
kind slot_map = 22
kind evict_thread = 23
kind real_dev_path = 24
kind virt_dev_path = 25
kind netlink_socket = 26
kind unlink_kprobe = 27
kind dm_target = 28
kind proc_file = 29

abbrev pub cpu_of : Resource → ℕ
cpu_of (member f i) = i
cpu_of _ = 0

abbrev pub same : Resource → Resource → Bool
same r s = (kind r == kind s) && (cpu_of r == cpu_of s)

-- The live resources, the latest first.
abbrev pub Ledger : Type 0
Ledger = List Resource

-- A release of what is not live leaves it behind, at the bottom.
abbrev pub release : Resource → Ledger → Ledger
release r [] = r ∷ []
release r (s ∷ l) = let rest = s ∷ release r l in if same r s then l else rest

-- What a constructor asks of the rest of the module and of the helper.
pub data Call : Type 0 where
  get_master_key read_header read_journal read_fkt read_pprf do_master_rotation : Call
  do_pprf_rotation init_pprf rotate_master journal_replay clear_journal write_header : Call
  force_evict_map_cache kill_helper set_master_key write_slot_map : Call

-- A constructor at work: the ledger, whether `rd->pprf_key` is set, and the calls, the latest first.
pub record Progress : Type 0 where
  pub live : Ledger
  pub pprf_key_set : Bool
  pub calls : List Call

abbrev pub push : Resource → Progress → Progress
push r d = record d { live = r ∷ d.live }

abbrev pub drop : Resource → Progress → Progress
drop r d = record d { live = release r d.live }

abbrev pub call : Call → Progress → Progress
call c d = record d { calls = c ∷ d.calls }

-- The next statement, or a `goto` to one of the labels.
pub data Step (L : Type 0) : Type 0 where
  next : Progress → Step L
  goto : L → Progress → Step L

infixl 5 ◌>>=◌
abbrev pub ◌>>=◌ : {L : Type 0} → Step L → (Progress → Step L) → Step L
next d >>= f = f d
goto label d >>= f = goto label d

-- How a constructor returns: with a device, from a label, or at once with bad arguments.
pub data Outcome (L : Type 0) : Type 0 where
  built : Progress → Outcome L
  failed : L → Progress → Outcome L
  refused : Progress → Outcome L

-- `works r` says whether the allocation of `r` succeeds.
module _ (works : Resource → Bool) {L : Type 0} where
  -- An allocation that is checked.
  abbrev pub acquire : Resource → L → Progress → Step L
  acquire r label d = if works r then next (push r d) else goto label d

  -- A loop over the CPUs, from `cpu` with the rounds left; `label` is given the CPU that fails.
  abbrev pub acquire_members : Family → (rounds cpu : ℕ) → (label : ℕ → L) → Progress → Step L
  acquire_members f zero cpu label d = next d
  acquire_members f (suc n) cpu label d =
      let rest = acquire_members f n (suc cpu) label (push (member f cpu) d) in
      if works (member f cpu) then rest else goto (label cpu) d

-- `for (i = i - 1; i >= 0; --i)`, as the labels free a family.
abbrev pub free_down : Family → ℕ → Ledger → Ledger
free_down f zero l = l
free_down f (suc i) l = free_down f i (release (member f i) l)

-- `for (i = 0; i < rd->cpus; ++i)`, as the destructors free a family.
abbrev pub free_up : Family → (rounds cpu : ℕ) → Ledger → Ledger
free_up f zero cpu l = l
free_up f (suc n) cpu l = free_up f n (suc cpu) (release (member f cpu) l)
