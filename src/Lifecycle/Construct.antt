-- ===== src/Lifecycle/Construct.antt =====
-- `eraser_ctr` of holepunch/kernel_module/dm-holepunch-main.c: what it acquires, in order, and its
-- cleanup labels, each of which falls through to the next one. The messages in `ti->error` are not
-- modelled.
use secure_deletion.Common.{
  ℕ, Bool, false, not, Option, none, some, List, [], ◌∷◌, ◌==◌, ◌||◌, ◌&&◌, if◌then◌else◌,
}
use secure_deletion.Layout.{Header, Checked, accepted, rejected, check_header}
use secure_deletion.Lifecycle.{
  ecb_tfm, cbc_tfm, Resource, array, dev_lock, dev_struct, dm_device, dev_entry, enc_key, ctr_tfm,
  sha_tfm, prg_input, bioset, page_pool, header_sector, io_work_cache, io_work_pool, io_queue,
  unlink_work_cache, unlink_work_pool, unlink_queue, map_cache_cache, map_cache_pool,
  journal_sector, pprf_fkt, pprf_key, evict_thread, real_dev_path, virt_dev_path, Ledger, release,
  Progress, push, drop, call, get_master_key, read_header, read_journal, Step, next, goto, ◌>>=◌,
  Outcome, built, failed, refused, acquire, acquire_members, free_down,
}
use secure_deletion.Lifecycle.Recover.{
  type_of, LoadLabel, alloc_pprf_fkt_fail, alloc_pprf_key_fail, load, recover, after_recovery,
}

pub data Label : Type 0 where
  lookup_dev_fail create_dev_fail : Label
  init_ecb_tfm_fail init_cbc_tfm_fail : (cpu : ℕ) → Label
  init_ctr_tfm_fail init_sha_tfm_fail init_prg_input_fail create_bioset_fail : Label
  create_page_pool_fail read_header_fail create_io_cache_fail create_io_pool_fail : Label
  create_io_queue_fail create_unlink_cache_fail create_unlink_pool_fail : Label
  create_unlink_queue_fail create_map_cache_cache_fail create_map_cache_pool_fail : Label
  loading_fail : LoadLabel → Label
  create_evict_thread_fail : Label

-- What the constructor is given, and what it finds.
pub record Target : Type 0 where
  pub argc : ℕ
  -- whether argv[4] is a number
  pub pid_ok : Bool
  -- the device of argv[0], by `lookup_bdev`, and those of holepunch_dev_list
  pub bdev : Option ℕ
  pub dev_list : List ℕ
  pub cpus : ℕ
  -- the header that is read, the first word of the journal's control block, and whether it has the hash
  -- of the master key
  pub header : Header
  pub journal_word : ℕ
  pub tpm_old : Bool

unfoldable pub find_dev : (dev : ℕ) → List ℕ → Bool
find_dev dev [] = false
find_dev dev (cur ∷ l) = (cur == dev) || find_dev dev l

-- `eraser_lookup_dev`: NULL also when the path is of no device.
unfoldable pub lookup_dev : Option ℕ → List ℕ → Bool
unfolding find_dev
lookup_dev none l = false
lookup_dev (some dev) l = find_dev dev l

-- `eraser_destroy_dev`
abbrev pub destroy_dev : Ledger → Ledger
destroy_dev l = release dev_struct (release dm_device (release dev_entry l))

module _ (cpus : ℕ) where
  -- From `init_ecb_tfm_fail` to the end: the members below `i` are freed, and the lock is taken to
  -- take the device off the list.
  abbrev pub free_ecb : (i : ℕ) → Ledger → Ledger
  free_ecb i l =
      release dev_lock
        (destroy_dev (dev_lock ∷ release enc_key (release (array ecb_tfm) (free_down ecb_tfm i l))))

  abbrev pub free_cbc : (i : ℕ) → Ledger → Ledger
  free_cbc i l = free_ecb cpus (release (array cbc_tfm) (free_down cbc_tfm i l))

  -- The single crypto contexts, from `create_bioset_fail` on.
  abbrev pub free_crypto : Ledger → Ledger
  free_crypto l = free_cbc cpus (release ctr_tfm (release sha_tfm (release prg_input l)))

  -- From `create_io_cache_fail` on.
  abbrev free_header : Ledger → Ledger
  free_header l = free_crypto (release bioset (release page_pool (release header_sector l)))

  -- From `create_unlink_cache_fail` on.
  abbrev free_io : Ledger → Ledger
  free_io l = free_header (release io_work_cache (release io_work_pool (release io_queue l)))

  -- From `create_map_cache_cache_fail` on.
  abbrev free_unlink : Ledger → Ledger
  free_unlink l =
      free_io (release unlink_work_cache (release unlink_work_pool (release unlink_queue l)))

  -- From `alloc_pprf_fkt_fail` on.
  abbrev free_map_cache : Ledger → Ledger
  free_map_cache l = free_unlink (release map_cache_cache (release map_cache_pool l))

  -- The statements from a label on.
  unfoldable pub cleanup : Label → Ledger → Ledger
  cleanup create_evict_thread_fail l = free_map_cache (release pprf_fkt (release pprf_key l))
  cleanup (loading_fail alloc_pprf_key_fail) l = free_map_cache (release pprf_fkt l)
  cleanup (loading_fail alloc_pprf_fkt_fail) l = free_map_cache l
  cleanup create_map_cache_pool_fail l = free_unlink (release map_cache_cache l)
  cleanup create_map_cache_cache_fail l = free_unlink l
  cleanup create_unlink_queue_fail l =
      free_io (release unlink_work_cache (release unlink_work_pool l))
  cleanup create_unlink_pool_fail l = free_io (release unlink_work_cache l)
  cleanup create_unlink_cache_fail l = free_io l
  cleanup create_io_queue_fail l = free_header (release io_work_cache (release io_work_pool l))
  cleanup create_io_pool_fail l = free_header (release io_work_cache l)
  cleanup create_io_cache_fail l = free_header l
  cleanup read_header_fail l = free_crypto (release bioset (release page_pool l))
  cleanup create_page_pool_fail l = free_crypto (release bioset l)
  cleanup create_bioset_fail l = free_crypto l
  cleanup init_prg_input_fail l = free_cbc cpus (release ctr_tfm (release sha_tfm l))
  cleanup init_sha_tfm_fail l = free_cbc cpus (release ctr_tfm l)
  cleanup init_ctr_tfm_fail l = free_cbc cpus l
  cleanup (init_cbc_tfm_fail i) l = free_cbc i l
  cleanup (init_ecb_tfm_fail i) l = free_ecb i l
  cleanup create_dev_fail l = release dev_lock l
  cleanup lookup_dev_fail l = release dev_lock l

module _ (works : Resource → Bool) (t : Target) where
  -- `eraser_create_dev`, and the end of the lock; the caller ends in `fail` when there is no device.
  abbrev pub create_dev : {L : Type 0} → (fail : L) → Progress → Step L
  create_dev fail d =
      if works dm_device
      then next
          (record (push dev_entry (push dm_device (push dev_struct d))) { pprf_key_set = false })
      else goto fail (drop dev_struct (push dev_struct d))

  -- The test for a running device, the new one, and its key, which is decoded from argv[2].
  unfoldable pub open_device : Progress → Step Label
  open_device d =
      let locked = push dev_lock d in
      if lookup_dev t.bdev t.dev_list
      then goto lookup_dev_fail locked
      else create_dev create_dev_fail locked >>= λ e. next (push enc_key (drop dev_lock e))

  unfoldable pub init_tfms : Progress → Step Label
  init_tfms d =
      acquire_members works ecb_tfm t.cpus 0 init_ecb_tfm_fail (push (array ecb_tfm) d) >>= λ d.
      acquire_members works cbc_tfm t.cpus 0 init_cbc_tfm_fail (push (array cbc_tfm) d)

  unfoldable pub init_crypto : Progress → Step Label
  init_crypto d =
      acquire works ctr_tfm init_ctr_tfm_fail d
      >>= acquire works sha_tfm init_sha_tfm_fail
      >>= acquire works prg_input init_prg_input_fail

  -- The bioset, the page pool, the header and its checks.
  abbrev pub test_header : Checked → Progress → Step Label
  test_header (accepted lengths) d = next d
  test_header (rejected why) d = goto read_header_fail d

  unfoldable pub open_header : Progress → Step Label
  open_header d =
      acquire works bioset create_bioset_fail (call get_master_key d)
      >>= acquire works page_pool create_page_pool_fail
      >>= λ d. test_header (check_header t.header) (call read_header (push header_sector d))

  unfoldable pub create_queues : Progress → Step Label
  create_queues d =
      acquire works io_work_cache create_io_cache_fail d
      >>= acquire works io_work_pool create_io_pool_fail
      >>= acquire works io_queue create_io_queue_fail
      >>= acquire works unlink_work_cache create_unlink_cache_fail
      >>= acquire works unlink_work_pool create_unlink_pool_fail
      >>= acquire works unlink_queue create_unlink_queue_fail
      >>= acquire works map_cache_cache create_map_cache_cache_fail
      >>= acquire works map_cache_pool create_map_cache_pool_fail

  -- A failure of the load ends at a label of the constructor.
  abbrev pub loading : Step LoadLabel → Step Label
  loading (next d) = next d
  loading (goto label d) = goto (loading_fail label) d

  abbrev pub in_use : Bool
  in_use = not (t.header.in_use == 0)

  -- From the read of the journal to the last rotation.
  unfoldable pub recover_device : Progress → Step Label
  recover_device d =
      loading (
        load works (type_of t.journal_word) in_use (call read_journal (push journal_sector d))
        >>= recover works (type_of t.journal_word) t.tpm_old)
      >>= λ e. next (after_recovery in_use e)

  unfoldable pub start_device : Progress → Step Label
  start_device d = acquire works evict_thread create_evict_thread_fail d >>= λ e.
      next (push virt_dev_path (push real_dev_path e))

  abbrev pub finish : Step Label → Outcome Label
  finish (next d) = built d
  finish (goto label d) = failed label (record d { live = cleanup t.cpus label d.live })

  -- `eraser_ctr` behind the checks of its arguments, up to the return.
  unfoldable pub stages : Progress → Step Label
  stages d =
      open_device d
      >>= init_tfms
      >>= init_crypto
      >>= open_header
      >>= create_queues
      >>= recover_device
      >>= start_device

  -- `eraser_ctr`
  unfoldable pub eraser_ctr : Progress → Outcome Label
  eraser_ctr d = if (t.argc == 5) && t.pid_ok then finish (stages d) else refused d
