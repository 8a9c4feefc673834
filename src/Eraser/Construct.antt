-- ===== src/Eraser/Construct.antt =====
-- `eraser_ctr` of dm-eraser.c: what it acquires, in order.
use secure_deletion.Common.{ℕ, zero, suc, Bool, ◌==◌, ◌&&◌, if◌then◌else◌}
use secure_deletion.Lifecycle.{
  ecb_tfm, cbc_tfm, rand_tfm, rand_buf, essiv_tfm, Resource, array, member, dev_lock, dev_struct,
  dm_device, dev_entry, enc_key, bioset, page_pool, header_sector, io_work_cache, io_work_pool,
  io_queue, unlink_work_cache, unlink_work_pool, unlink_queue, map_cache_cache, map_cache_pool,
  slot_map, evict_thread, real_dev_path, virt_dev_path, Progress, push, drop, call, get_master_key,
  Step, next, goto, ◌>>=◌, Outcome, built, failed, refused, acquire, acquire_members,
}
use secure_deletion.Lifecycle.Construct.{lookup_dev}
use secure_deletion.Eraser.{
  Label, Target, cleanup, lookup_dev_fail, create_dev_fail, create_bioset_fail,
  create_page_pool_fail, read_header_fail, init_rand_context_fail, init_tfm_fail,
  init_pprf_tfm_fail, init_essiv_fail, compute_essiv_salt_fail, create_io_cache_fail,
  create_io_pool_fail, create_io_queue_fail, create_unlink_cache_fail, create_unlink_pool_fail,
  create_unlink_queue_fail, create_map_cache_cache_fail, create_map_cache_pool_fail,
  read_slot_map_fail, create_evict_thread_fail,
}

module _ (works : Resource → Bool) (t : Target) where
  -- `eraser_create_dev`, with the lock held, which is released behind it.
  abbrev pub create_dev : Progress → Step Label
  create_dev d =
      if works dm_device
      then next (push dev_entry (push dm_device (push dev_struct d)))
      else goto create_dev_fail (drop dev_struct (push dev_struct d))

  unfoldable pub open_device : Progress → Step Label
  open_device d =
      let locked = push dev_lock d in
      if lookup_dev t.bdev t.dev_list
      then goto lookup_dev_fail locked
      else create_dev locked >>= λ e. next (drop dev_lock e)

  unfoldable pub open_pools : Progress → Step Label
  open_pools d =
      acquire works bioset create_bioset_fail d
      >>= acquire works page_pool create_page_pool_fail
      >>= acquire works header_sector read_header_fail

  -- `eraser_init_rand_context`: the transform, and the buffer, without which the transform is freed.
  abbrev pub init_rand_buf : (cpu : ℕ) → Progress → Step Label
  init_rand_buf i d =
      if works (member rand_buf i)
      then next (push (member rand_buf i) d)
      else goto (init_rand_context_fail i) (drop (member rand_tfm i) d)

  abbrev pub init_rand_context : (cpu : ℕ) → Progress → Step Label
  init_rand_context i d =
      acquire works (member rand_tfm i) (init_rand_context_fail i) d >>= init_rand_buf i

  -- The loop over the CPUs.
  unfoldable pub init_rand_from : (rounds cpu : ℕ) → Progress → Step Label
  init_rand_from zero i d = next d
  init_rand_from (suc n) i d = init_rand_context i d >>= init_rand_from n (suc i)

  unfoldable pub init_rand : Progress → Step Label
  init_rand d = init_rand_from t.cpus 0 (push (array rand_tfm) d) >>= λ e. next (push enc_key e)

  abbrev pub test_salt : Progress → Step Label
  test_salt d = if t.salt_ok then next d else goto compute_essiv_salt_fail d

  unfoldable pub init_tfms : Progress → Step Label
  init_tfms d =
      acquire_members works cbc_tfm t.cpus 0 init_tfm_fail (push (array cbc_tfm) d) >>= λ d.
      acquire_members works ecb_tfm t.cpus 0 init_pprf_tfm_fail (push (array ecb_tfm) d)

  unfoldable pub init_essiv : Progress → Step Label
  init_essiv d = test_salt d >>= λ d.
      acquire_members works essiv_tfm t.cpus 0 init_essiv_fail (push (array essiv_tfm) d)

  unfoldable pub create_queues : Progress → Step Label
  create_queues d =
      acquire works io_work_cache create_io_cache_fail d
      >>= acquire works io_work_pool create_io_pool_fail
      >>= acquire works io_queue create_io_queue_fail
      >>= acquire works unlink_work_cache create_unlink_cache_fail
      >>= acquire works unlink_work_pool create_unlink_pool_fail
      >>= acquire works unlink_queue create_unlink_queue_fail
      >>= acquire works map_cache_cache create_map_cache_cache_fail
      >>= acquire works map_cache_pool create_map_cache_pool_fail

  unfoldable pub start_device : Progress → Step Label
  start_device d =
      acquire works slot_map read_slot_map_fail (call get_master_key d)
      >>= acquire works evict_thread create_evict_thread_fail
      >>= λ e. next (push virt_dev_path (push real_dev_path e))

  -- `eraser_ctr` behind the checks of its arguments, up to the return.
  unfoldable pub stages : Progress → Step Label
  stages d =
      open_device d
      >>= open_pools
      >>= init_rand
      >>= init_tfms
      >>= init_essiv
      >>= create_queues
      >>= start_device

  abbrev pub finish : Step Label → Outcome Label
  finish (next d) = built d
  finish (goto label d) = failed label (record d { live = cleanup t.cpus label d.live })

  -- `eraser_ctr`
  unfoldable pub eraser_ctr : Progress → Outcome Label
  eraser_ctr d = if (t.argc == 5) && t.pid_ok then finish (stages d) else refused d
