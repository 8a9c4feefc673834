-- ===== src/Eraser.antt =====
-- The older module, eraser/kernel_module/dm-eraser.c: its constructor and destructor, as changes of the
-- ledger of Lifecycle. The messages in `ti->error` are not modelled.
pub mod Random
pub mod Rollback
pub mod Construct
pub mod Failure
pub mod Destruct
pub mod Buffer
mod Tests
use secure_deletion.Common.{
  ℕ, zero, suc, Bool, true, false, Option, none, some, List, [], ◌∷◌, ◌==◌, ◌&&◌, if◌then◌else◌,
}
use secure_deletion.Lifecycle.{
  Family, ecb_tfm, cbc_tfm, rand_tfm, rand_buf, essiv_tfm, Resource, array, member, dev_lock,
  dev_struct, dm_device, dev_entry, enc_key, bioset, page_pool, header_sector, io_work_cache,
  io_work_pool, io_queue, unlink_work_cache, unlink_work_pool, unlink_queue, map_cache_cache,
  map_cache_pool, slot_map, evict_thread, real_dev_path, virt_dev_path, Ledger, release, Progress,
  push, drop, call, get_master_key, Step, next, goto, ◌>>=◌, Outcome, built, failed, refused,
  acquire, acquire_members, free_down,
}
use secure_deletion.Lifecycle.Construct.{destroy_dev, lookup_dev}

pub data Label : Type 0 where
  lookup_dev_fail create_dev_fail create_bioset_fail create_page_pool_fail read_header_fail : Label
  init_rand_context_fail init_tfm_fail init_pprf_tfm_fail init_essiv_fail : (cpu : ℕ) → Label
  compute_essiv_salt_fail create_io_cache_fail create_io_pool_fail create_io_queue_fail : Label
  create_unlink_cache_fail create_unlink_pool_fail create_unlink_queue_fail : Label
  create_map_cache_cache_fail create_map_cache_pool_fail read_slot_map_fail : Label
  create_evict_thread_fail : Label

-- What the constructor is given, and what it finds.
pub record Target : Type 0 where
  pub argc : ℕ
  -- whether argv[4] is a number
  pub pid_ok : Bool
  -- the device of argv[0], by `lookup_bdev`, and those of eraser_dev_list
  pub bdev : Option ℕ
  pub dev_list : List ℕ
  pub cpus : ℕ
  -- whether `eraser_get_essiv_salt` succeeds; it frees what it allocates
  pub salt_ok : Bool

-- `eraser_destroy_rand_context`
abbrev pub destroy_rand_context : (cpu : ℕ) → Ledger → Ledger
destroy_rand_context i l = release (member rand_buf i) (release (member rand_tfm i) l)

-- The loops that destroy the random contexts, at a label and in the destructor.
abbrev pub free_rand_down : ℕ → Ledger → Ledger
free_rand_down zero l = l
free_rand_down (suc i) l = free_rand_down i (destroy_rand_context i l)

abbrev pub free_rand_up : (rounds cpu : ℕ) → Ledger → Ledger
free_rand_up zero i l = l
free_rand_up (suc n) i l = free_rand_up n (suc i) (destroy_rand_context i l)

module _ (cpus : ℕ) where
  -- `create_bioset_fail`
  abbrev pub free_device : Ledger → Ledger
  free_device l = release dev_lock (destroy_dev (dev_lock ∷ l))

  -- From `init_rand_context_fail` on: the contexts below `i`, the header and the pools.
  abbrev pub free_rand : (i : ℕ) → Ledger → Ledger
  free_rand i l = free_device (
      release bioset
        (release page_pool (release header_sector (release (array rand_tfm) (free_rand_down i l)))))

  abbrev pub free_tfm : (i : ℕ) → Ledger → Ledger
  free_tfm i l = free_rand cpus (release (array cbc_tfm) (free_down cbc_tfm i l))

  abbrev pub free_pprf_tfm : (i : ℕ) → Ledger → Ledger
  free_pprf_tfm i l = free_tfm cpus (release (array ecb_tfm) (free_down ecb_tfm i l))

  abbrev pub free_essiv : (i : ℕ) → Ledger → Ledger
  free_essiv i l = free_pprf_tfm cpus (release (array essiv_tfm) (free_down essiv_tfm i l))

  -- From `create_unlink_cache_fail` on.
  abbrev free_io : Ledger → Ledger
  free_io l = free_essiv cpus (release io_work_cache (release io_work_pool (release io_queue l)))

  -- From `create_map_cache_cache_fail` on.
  abbrev free_unlink : Ledger → Ledger
  free_unlink l =
      free_io (release unlink_work_cache (release unlink_work_pool (release unlink_queue l)))

  -- The statements from a label on.
  unfoldable pub cleanup : Label → Ledger → Ledger
  cleanup create_evict_thread_fail l =
      free_unlink (release map_cache_cache (release map_cache_pool (release slot_map l)))
  cleanup read_slot_map_fail l = free_unlink (release map_cache_cache (release map_cache_pool l))
  cleanup create_map_cache_pool_fail l = free_unlink (release map_cache_cache l)
  cleanup create_map_cache_cache_fail l = free_unlink l
  cleanup create_unlink_queue_fail l =
      free_io (release unlink_work_cache (release unlink_work_pool l))
  cleanup create_unlink_pool_fail l = free_io (release unlink_work_cache l)
  cleanup create_unlink_cache_fail l = free_io l
  cleanup create_io_queue_fail l = free_essiv cpus (release io_work_cache (release io_work_pool l))
  cleanup create_io_pool_fail l = free_essiv cpus (release io_work_cache l)
  cleanup create_io_cache_fail l = free_essiv cpus l
  cleanup (init_essiv_fail i) l = free_essiv i l
  cleanup compute_essiv_salt_fail l = free_pprf_tfm cpus l
  cleanup (init_pprf_tfm_fail i) l = free_pprf_tfm i l
  cleanup (init_tfm_fail i) l = free_tfm i l
  cleanup (init_rand_context_fail i) l = free_rand i l
  cleanup read_header_fail l = free_device (release bioset (release page_pool l))
  cleanup create_page_pool_fail l = free_device (release bioset l)
  cleanup create_bioset_fail l = free_device l
  cleanup create_dev_fail l = l
  cleanup lookup_dev_fail l = l
