-- ===== src/Eraser/Failure.antt =====
-- When `eraser_ctr` of dm-eraser.c fails, what is left behind.
use secure_deletion.Common.{
  ℕ, zero, suc, ◌+◌, ◌≡◌, refl, ap, ◌∙◌, arith, Bool, ◌∷◌, Bool-cases, inl, inr,
}
use secure_deletion.Lifecycle.{
  Resource, ecb_tfm, cbc_tfm, rand_tfm, rand_buf, essiv_tfm, array, member, dev_lock, dev_struct,
  dm_device, dev_entry, enc_key, bioset, page_pool, header_sector, io_work_cache, io_work_pool,
  io_queue, unlink_work_cache, unlink_work_pool, unlink_queue, map_cache_cache, map_cache_pool,
  slot_map, evict_thread, real_dev_path, virt_dev_path, Ledger, release, Progress, push, drop, call,
  get_master_key, Step, next, ◌>>=◌, acquire_members,
}
use secure_deletion.Lifecycle.Ledger.{
  release-top, Holds, Ends, Ends-bind, Ends-acquire, Ends-then, Ends-members,
}
use secure_deletion.Lifecycle.Construct.{lookup_dev}
use secure_deletion.Eraser.{
  Label, Target, cleanup, create_bioset_fail, create_page_pool_fail, read_header_fail,
  init_rand_context_fail, init_tfm_fail, init_pprf_tfm_fail, init_essiv_fail,
  compute_essiv_salt_fail, create_io_cache_fail, create_io_pool_fail, create_io_queue_fail,
  create_unlink_cache_fail, create_unlink_pool_fail, create_unlink_queue_fail,
  create_map_cache_cache_fail, create_map_cache_pool_fail, read_slot_map_fail,
  create_evict_thread_fail,
}
use secure_deletion.Eraser.Construct.{
  create_dev, open_device, open_pools, init_rand_buf, init_rand_context, init_rand_from, init_rand,
  test_salt, init_tfms, init_essiv, create_queues, start_device, stages,
}
use secure_deletion.Eraser.Random.{rands}
use secure_deletion.Eraser.Rollback.{
  with_device, with_pools, with_rand, with_tfm, with_tfms, with_essiv, with_queues, with_paths,
  free_rand-rands, free_tfm-members, free_pprf_tfm-members, free_essiv-members, Undone,
}

module _ (works : Resource → Bool) (t : Target) (l : Ledger) (b : Bool) where
  abbrev U : Label → Ledger → Type 0
  U = Undone t.cpus l

  -- A stage of the constructor.
  abbrev Stage : (before after : Ledger) → (Progress → Step Label) → Type 0
  Stage s s' f = (d : Progress) → Holds b s d → Ends U (Holds b s') (f d)

  then-Ends :
      (s s' : Ledger) (m : Step Label) (f : Progress → Step Label)
      → Stage s s' f
      → Ends U (Holds b s) m
      → Ends U (Holds b s') (m >>= f)
  then-Ends s s' m f stage e = Ends-bind U (Holds b s) (Holds b s') m f e stage

  create_dev-Ends :
      Stage (dev_lock ∷ l) (dev_entry ∷ dm_device ∷ dev_struct ∷ dev_lock ∷ l) (create_dev works t)
  unfolding cleanup
  create_dev-Ends d (key, e) = elim (Bool-cases (works dm_device)) [
    | inl w ↦ rw w (key, ap (λ s. dev_entry ∷ dm_device ∷ dev_struct ∷ s) e)
    | inr w ↦ rw w e
  ]

  open_device-Ends : Stage l (with_device l) (open_device works t)
  unfolding open_device cleanup
  open_device-Ends d (key, e) = elim (Bool-cases (lookup_dev t.bdev t.dev_list)) [
    | inl w ↦ rw w (ap (λ s. dev_lock ∷ s) e)
    | inr w ↦ rw w (
        then-Ends (dev_entry ∷ dm_device ∷ dev_struct ∷ dev_lock ∷ l) (with_device l) _
          (λ x. next (drop dev_lock x)) (λ x (key', e'). (key', ap (release dev_lock) e'))
          (create_dev-Ends (push dev_lock d) (key, ap (λ s. dev_lock ∷ s) e)))
  ]

  open_pools-Ends : Stage (with_device l) (with_pools l) (open_pools works t)
  unfolding open_pools cleanup
  open_pools-Ends d h = Ends-then U works b _ header_sector read_header_fail _ refl (
      Ends-then U works b _ page_pool create_page_pool_fail _ refl
        (Ends-acquire U works b _ bioset create_bioset_fail d refl h))

  init_rand_context-Ends :
      (i : ℕ)
      → Stage
          (rands i (array rand_tfm ∷ with_pools l))
          (rands (suc i) (array rand_tfm ∷ with_pools l))
          (init_rand_context works t i)
  unfolding cleanup
  init_rand_context-Ends i d h =
      let s = rands i (array rand_tfm ∷ with_pools l) in
      then-Ends (member rand_tfm i ∷ s) (rands (suc i) (array rand_tfm ∷ with_pools l)) _
        (init_rand_buf works t i)
        (λ x (key, e). elim (Bool-cases (works (member rand_buf i))) [
          | inl w ↦ rw w (key, ap (λ r. member rand_buf i ∷ r) e)
          | inr w ↦ rw w (
              ap (λ r. cleanup t.cpus (init_rand_context_fail i) (release (member rand_tfm i) r)) e
              ∙ ap (cleanup t.cpus (init_rand_context_fail i)) (release-top (member rand_tfm i) s)
              ∙ free_rand-rands t.cpus l i)
        ])
        (Ends-acquire U works b s (member rand_tfm i) (init_rand_context_fail i) d
          (free_rand-rands t.cpus l i) h)

  init_rand_from-Ends :
      (n i k : ℕ)
      → k ≡ n + i
      → Stage
          (rands i (array rand_tfm ∷ with_pools l))
          (rands k (array rand_tfm ∷ with_pools l))
          (init_rand_from works t n i)
  unfolding init_rand_from
  init_rand_from-Ends zero i k sum d (key, e) =
      let same : i ≡ k = omega arith in
      (key, e ∙ ap (λ j. rands j (array rand_tfm ∷ with_pools l)) same)
  init_rand_from-Ends (suc n) i k sum d h =
      then-Ends (rands (suc i) (array rand_tfm ∷ with_pools l))
        (rands k (array rand_tfm ∷ with_pools l)) _ (init_rand_from works t n (suc i))
        (init_rand_from-Ends n (suc i) k (omega arith)) (init_rand_context-Ends i d h)

  init_rand-Ends : Stage (with_pools l) (with_rand t.cpus l) (init_rand works t)
  unfolding init_rand
  init_rand-Ends d (key, e) =
      then-Ends (rands t.cpus (array rand_tfm ∷ with_pools l)) (with_rand t.cpus l) _
        (λ x. next (push enc_key x)) (λ x (key', e'). (key', ap (λ s. enc_key ∷ s) e'))
        (init_rand_from-Ends t.cpus 0 t.cpus (omega arith) (push (array rand_tfm) d)
          (key, ap (λ s. array rand_tfm ∷ s) e))

  init_tfms-Ends : Stage (with_rand t.cpus l) (with_tfms t.cpus l) (init_tfms works t)
  unfolding init_tfms cleanup
  init_tfms-Ends d (key, e) =
      then-Ends (with_tfm t.cpus l) (with_tfms t.cpus l) _
        (λ x. acquire_members works ecb_tfm t.cpus 0 init_pprf_tfm_fail (push (array ecb_tfm) x))
        (λ x (key', e').
          Ends-members U works b (array ecb_tfm ∷ with_tfm t.cpus l) ecb_tfm t.cpus 0 t.cpus
            init_pprf_tfm_fail (push (array ecb_tfm) x) (omega arith)
            (λ j. free_pprf_tfm-members t.cpus l j) (key', ap (λ s. array ecb_tfm ∷ s) e'))
        (Ends-members U works b (array cbc_tfm ∷ with_rand t.cpus l) cbc_tfm t.cpus 0 t.cpus
          init_tfm_fail (push (array cbc_tfm) d) (omega arith) (λ j. free_tfm-members t.cpus l j)
          (key, ap (λ s. array cbc_tfm ∷ s) e))

  test_salt-Ends : Stage (with_tfms t.cpus l) (with_tfms t.cpus l) (test_salt works t)
  unfolding cleanup
  test_salt-Ends d (key, e) = elim (Bool-cases t.salt_ok) [
    | inl w ↦ rw w (key, e)
    | inr w ↦
        rw w (ap (cleanup t.cpus compute_essiv_salt_fail) e ∙ free_pprf_tfm-members t.cpus l t.cpus)
  ]

  init_essiv-Ends : Stage (with_tfms t.cpus l) (with_essiv t.cpus l) (init_essiv works t)
  unfolding init_essiv cleanup
  init_essiv-Ends d h =
      then-Ends (with_tfms t.cpus l) (with_essiv t.cpus l) (test_salt works t d)
        (λ x. acquire_members works essiv_tfm t.cpus 0 init_essiv_fail (push (array essiv_tfm) x))
        (λ x (key', e').
          Ends-members U works b (array essiv_tfm ∷ with_tfms t.cpus l) essiv_tfm t.cpus 0 t.cpus
            init_essiv_fail (push (array essiv_tfm) x) (omega arith)
            (λ j. free_essiv-members t.cpus l j) (key', ap (λ s. array essiv_tfm ∷ s) e'))
        (test_salt-Ends d h)

  create_queues-Ends : Stage (with_essiv t.cpus l) (with_queues t.cpus l) (create_queues works t)
  unfolding create_queues cleanup
  create_queues-Ends d h =
      let undone = free_essiv-members t.cpus l t.cpus in
      Ends-then U works b _ map_cache_pool create_map_cache_pool_fail _ undone (
        Ends-then U works b _ map_cache_cache create_map_cache_cache_fail _ undone (
          Ends-then U works b _ unlink_queue create_unlink_queue_fail _ undone (
            Ends-then U works b _ unlink_work_pool create_unlink_pool_fail _ undone (
              Ends-then U works b _ unlink_work_cache create_unlink_cache_fail _ undone (
                Ends-then U works b _ io_queue create_io_queue_fail _ undone (
                  Ends-then U works b _ io_work_pool create_io_pool_fail _ undone
                    (Ends-acquire U works b _ io_work_cache create_io_cache_fail d undone h)))))))

  start_device-Ends : Stage (with_queues t.cpus l) (with_paths t.cpus l) (start_device works t)
  unfolding start_device cleanup
  start_device-Ends d h =
      let undone = free_essiv-members t.cpus l t.cpus in
      then-Ends (evict_thread ∷ slot_map ∷ with_queues t.cpus l) (with_paths t.cpus l) _
        (λ x. next (push virt_dev_path (push real_dev_path x)))
        (λ x (key, e). (key, ap (λ s. virt_dev_path ∷ real_dev_path ∷ s) e))
        (Ends-then U works b _ evict_thread create_evict_thread_fail _ undone
          (Ends-acquire U works b _ slot_map read_slot_map_fail (call get_master_key d) undone h))

  -- Where the whole constructor ends.
  pub stages-Ends : Stage l (with_paths t.cpus l) (stages works t)
  unfolding stages
  stages-Ends d h = then-Ends (with_queues t.cpus l) (with_paths t.cpus l) _ _ start_device-Ends (
      then-Ends (with_essiv t.cpus l) (with_queues t.cpus l) _ _ create_queues-Ends (
        then-Ends (with_tfms t.cpus l) (with_essiv t.cpus l) _ _ init_essiv-Ends (
          then-Ends (with_rand t.cpus l) (with_tfms t.cpus l) _ _ init_tfms-Ends (
            then-Ends (with_pools l) (with_rand t.cpus l) _ _ init_rand-Ends (
              then-Ends (with_device l) (with_pools l) _ _ open_pools-Ends
                (open_device-Ends d h))))))
