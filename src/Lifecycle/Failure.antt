-- ===== src/Lifecycle/Failure.antt =====
-- The later stages of `eraser_ctr` of dm-holepunch-main.c, and the whole: a failure leaves nothing
-- behind, but for the journal's sector.
use secure_deletion.Common.{◌≡◌, ap, ◌∙◌, Bool, true, false, ◌∷◌}
use secure_deletion.Layout.{Checked, accepted, rejected, check_header}
use secure_deletion.Lifecycle.{
  Resource, bioset, page_pool, header_sector, io_work_cache, io_work_pool, io_queue,
  unlink_work_cache, unlink_work_pool, unlink_queue, map_cache_cache, map_cache_pool,
  journal_sector, pprf_fkt, pprf_key, evict_thread, real_dev_path, virt_dev_path, Ledger, release,
  Progress, push, call, get_master_key, read_header, read_journal, Step, next, goto, ◌>>=◌,
}
use secure_deletion.Lifecycle.Ledger.{Holds, Ends, Ends-bind, Ends-acquire, Ends-then}
use secure_deletion.Lifecycle.Recover.{type_of, LoadLabel, load, recover, after_recovery}
use secure_deletion.Lifecycle.Loaded.{load-recover-Ends}
use secure_deletion.Lifecycle.Construct.{
  Label, Target, cleanup, create_bioset_fail, create_page_pool_fail, read_header_fail,
  create_io_cache_fail, create_io_pool_fail, create_io_queue_fail, create_unlink_cache_fail,
  create_unlink_pool_fail, create_unlink_queue_fail, create_map_cache_cache_fail,
  create_map_cache_pool_fail, loading_fail, create_evict_thread_fail, test_header, open_header,
  create_queues, stages, loading, recover_device, start_device, init_tfms, init_crypto, in_use,
}
use secure_deletion.Lifecycle.Unwind.{
  with_device, with_tfms, with_crypto, with_header, with_queues, with_keys, with_paths,
  free_cbc-members, free_cbc-journal, free_cbc-header, Undone, Stage, open_device-Ends,
  init_tfms-Ends, init_crypto-Ends,
}

module _ (works : Resource → Bool) (t : Target) (l : Ledger) where
  abbrev U : Label → Ledger → Type 0
  U = Undone t.cpus l

  -- A stage after another.
  then-Ends :
      (s s' : Ledger) (m : Step Label) (f : Progress → Step Label)
      → Stage works t l s s' f
      → Ends U (Holds false s) m
      → Ends U (Holds false s') (m >>= f)
  then-Ends s s' m f stage e = Ends-bind U (Holds false s) (Holds false s') m f e stage

  test_header-Ends :
      (c : Checked)
      → Stage works t l (with_header t.cpus l) (with_header t.cpus l) (test_header works t c)
  unfolding cleanup
  test_header-Ends (accepted lengths) d h = h
  test_header-Ends (rejected why) d (key, e) =
      ap (cleanup t.cpus read_header_fail) e ∙ free_cbc-header t.cpus l

  open_header-Ends :
      Stage works t l (with_crypto t.cpus l) (with_header t.cpus l) (open_header works t)
  unfolding open_header cleanup
  open_header-Ends d h =
      let undone = free_cbc-members t.cpus l t.cpus in
      let pools = page_pool ∷ bioset ∷ with_crypto t.cpus l in
      then-Ends pools (with_header t.cpus l) _ _
        (λ x (key, e).
          test_header-Ends (check_header t.header) (call read_header (push header_sector x))
            (key, ap (λ s. header_sector ∷ s) e))
        (Ends-then U works false _ page_pool create_page_pool_fail _ undone
          (Ends-acquire U works false _ bioset create_bioset_fail (call get_master_key d) undone h))

  create_queues-Ends :
      Stage works t l (with_header t.cpus l) (with_queues t.cpus l) (create_queues works t)
  unfolding create_queues cleanup
  create_queues-Ends d h =
      let undone = free_cbc-members t.cpus l t.cpus in
      Ends-then U works false _ map_cache_pool create_map_cache_pool_fail _ undone (
        Ends-then U works false _ map_cache_cache create_map_cache_cache_fail _ undone (
          Ends-then U works false _ unlink_queue create_unlink_queue_fail _ undone (
            Ends-then U works false _ unlink_work_pool create_unlink_pool_fail _ undone (
              Ends-then U works false _ unlink_work_cache create_unlink_cache_fail _ undone (
                Ends-then U works false _ io_queue create_io_queue_fail _ undone (
                  Ends-then U works false _ io_work_pool create_io_pool_fail _ undone (
                    Ends-acquire U works false _ io_work_cache create_io_cache_fail d undone
                      h)))))))

  loading-Ends :
      (P : Progress → Type 0) (m : Step LoadLabel)
      → Ends (λ label. U (loading_fail label)) P m
      → Ends U P (loading works t m)
  loading-Ends P (next d) h = h
  loading-Ends P (goto label d) h = h

  after_recovery-Holds :
      (used : Bool) (d : Progress)
      → Holds true (pprf_key ∷ pprf_fkt ∷ journal_sector ∷ with_queues t.cpus l) d
      → Holds true (with_keys t.cpus l) (after_recovery used d)
  after_recovery-Holds true d (key, e) = (key, ap (release journal_sector) e)
  after_recovery-Holds false d (key, e) = (key, ap (release journal_sector) e)

  recover_device-Ends :
      (d : Progress)
      → Holds false (with_queues t.cpus l) d
      → Ends U (Holds true (with_keys t.cpus l)) (recover_device works t d)
  unfolding recover_device cleanup
  recover_device-Ends d (key, e) =
      let journal = journal_sector ∷ with_queues t.cpus l in
      let ty = type_of t.journal_word in
      let begun = call read_journal (push journal_sector d) in
      let m = load works ty (in_use works t) begun >>= recover works ty t.tpm_old in
      Ends-bind U (Holds true (pprf_key ∷ pprf_fkt ∷ journal)) (Holds true (with_keys t.cpus l))
        (loading works t m) (λ x. next (after_recovery (in_use works t) x))
        (loading-Ends (Holds true (pprf_key ∷ pprf_fkt ∷ journal)) m (
          load-recover-Ends works (λ label. U (loading_fail label)) ty (in_use works t) t.tpm_old
            journal begun (free_cbc-journal t.cpus l) (free_cbc-journal t.cpus l)
            (key, ap (λ s. journal_sector ∷ s) e)))
        (after_recovery-Holds (in_use works t))

  start_device-Ends :
      (d : Progress)
      → Holds true (with_keys t.cpus l) d
      → Ends U (Holds true (with_paths t.cpus l)) (start_device works t d)
  unfolding start_device cleanup
  start_device-Ends d h =
      Ends-bind U (Holds true (evict_thread ∷ with_keys t.cpus l))
        (Holds true (with_paths t.cpus l)) _ _
        (Ends-acquire U works true (with_keys t.cpus l) evict_thread create_evict_thread_fail d
          (free_cbc-members t.cpus l t.cpus) h)
        (λ x (key, e). (key, ap (λ s. virt_dev_path ∷ real_dev_path ∷ s) e))

  -- Where the whole constructor ends.
  pub stages-Ends :
      (d : Progress) → d.live ≡ l → Ends U (Holds true (with_paths t.cpus l)) (stages works t d)
  unfolding stages
  stages-Ends d e =
      Ends-bind U (Holds true (with_keys t.cpus l)) (Holds true (with_paths t.cpus l)) _
        (start_device works t)
        (Ends-bind U (Holds false (with_queues t.cpus l)) (Holds true (with_keys t.cpus l)) _
          (recover_device works t)
          (then-Ends (with_header t.cpus l) (with_queues t.cpus l) _ (create_queues works t)
            create_queues-Ends
            (then-Ends (with_crypto t.cpus l) (with_header t.cpus l) _ (open_header works t)
              open_header-Ends
              (then-Ends (with_tfms t.cpus l) (with_crypto t.cpus l) _ (init_crypto works t)
                (init_crypto-Ends works t l)
                (then-Ends (with_device l) (with_tfms t.cpus l) _ (init_tfms works t)
                  (init_tfms-Ends works t l) (open_device-Ends works t l d e)))))
          recover_device-Ends)
        start_device-Ends
