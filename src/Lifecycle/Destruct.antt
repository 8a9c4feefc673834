-- ===== src/Lifecycle/Destruct.antt =====
-- `eraser_dtr` of dm-holepunch-main.c, and what a device's life leaves.
use mathlib.Core.Path.{subst}
use secure_deletion.Common.{
  ℕ, ◌≡◌, refl, ap, ◌∙◌, Bool, true, ◌∷◌, ◌++◌, Bool-cases, inl, inr, ◌==◌, ◌&&◌,
}
use secure_deletion.Lifecycle.{
  ecb_tfm, cbc_tfm, Resource, array, dev_lock, enc_key, ctr_tfm, sha_tfm, prg_input, bioset,
  page_pool, header_sector, io_work_cache, io_work_pool, io_queue, unlink_work_cache,
  unlink_work_pool, unlink_queue, map_cache_cache, map_cache_pool, pprf_fkt, pprf_key, evict_thread,
  real_dev_path, virt_dev_path, Ledger, release, Progress, call, force_evict_map_cache, kill_helper,
  write_header, Step, next, goto, Outcome, built, failed, refused, free_up,
}
use secure_deletion.Lifecycle.Ledger.{Holds, Ends, free_up-members}
use secure_deletion.Lifecycle.Construct.{Label, Target, destroy_dev, stages, finish, eraser_ctr}
use secure_deletion.Lifecycle.Unwind.{leaked, Undone, with_paths, with_tfms, with_device}
use secure_deletion.Lifecycle.Failure.{stages-Ends}

-- The paths, the eviction thread, the header and the keys.
abbrev free_state : Ledger → Ledger
free_state l = release pprf_fkt (
    release pprf_key (
      release header_sector
        (release evict_thread (release virt_dev_path (release real_dev_path l)))))

-- The map cache and the work queues.
abbrev free_queues : Ledger → Ledger
free_queues l = release io_work_cache (
    release io_work_pool (
      release io_queue (
        release unlink_work_cache (
          release unlink_work_pool
            (release unlink_queue (release map_cache_cache (release map_cache_pool l)))))))

-- The pools, and the crypto contexts.
abbrev free_pools : Ledger → Ledger
free_pools l =
    release ctr_tfm (release sha_tfm (release prg_input (release bioset (release page_pool l))))

abbrev free_tfms : (cpus : ℕ) → Ledger → Ledger
free_tfms cpus l =
    release (array ecb_tfm)
      (free_up ecb_tfm cpus 0 (release (array cbc_tfm) (free_up cbc_tfm cpus 0 l)))

-- `eraser_dtr`, once no job is left. Its last message reads counters of the device that
-- `eraser_destroy_dev` has freed.
unfoldable pub eraser_dtr : (cpus : ℕ) → Progress → Progress
eraser_dtr cpus d = call write_header (
    call kill_helper (
      call force_evict_map_cache (record d {
        live = release dev_lock (
            destroy_dev (
              dev_lock
              ∷ release enc_key (free_tfms cpus (free_pools (free_queues (free_state d.live))))));
      })))

free_tfms-with_tfms : (cpus : ℕ) (l : Ledger) → free_tfms cpus (with_tfms cpus l) ≡ with_device l
free_tfms-with_tfms cpus l =
    ap (λ s. release (array ecb_tfm) (free_up ecb_tfm cpus 0 (release (array cbc_tfm) s)))
      (free_up-members cbc_tfm cpus _)
    ∙ ap (release (array ecb_tfm)) (free_up-members ecb_tfm cpus _)

eraser_dtr-with_paths :
    (cpus : ℕ) (l : Ledger) (d : Progress)
    → d.live ≡ with_paths cpus l
    → (eraser_dtr cpus d).live ≡ l
unfolding eraser_dtr
eraser_dtr-with_paths cpus l d e =
    ap
      (λ s. release dev_lock (
        destroy_dev
          (dev_lock ∷ release enc_key (free_tfms cpus (free_pools (free_queues (free_state s)))))))
      e
    ∙ ap (λ s. release dev_lock (destroy_dev (dev_lock ∷ release enc_key s)))
        (free_tfms-with_tfms cpus l)

module _ (works : Resource → Bool) (t : Target) (d : Progress) where
  -- The outcomes of the constructor.
  abbrev Life : Outcome Label → Type 0
  Life (built e) = e.live ≡ with_paths t.cpus d.live
  Life (failed label e) = e.live ≡ leaked label ++ d.live
  Life (refused e) = e.live ≡ d.live

  finish-Life :
      (m : Step Label)
      → Ends (Undone t.cpus d.live) (Holds true (with_paths t.cpus d.live)) m
      → Life (finish works t m)
  finish-Life (next e) (key, same) = same
  finish-Life (goto label e) h = h

  eraser_ctr-Life : Life (eraser_ctr works t d)
  unfolding eraser_ctr
  eraser_ctr-Life = elim (Bool-cases ((t.argc == 5) && t.pid_ok)) [
    | inl w ↦ rw w (finish-Life (stages works t d) (stages-Ends works t d.live d refl))
    | inr w ↦ rw w refl
  ]

-- When `eraser_ctr` fails at a label, then after the statements from the label on every resource and
-- the device lock are as they were before the call, but for the sector of the header when a check of
-- it fails, and that of the journal when the FKT or the PPRF key is not allocated.
pub eraser_ctr-failed :
    (works : Resource → Bool) (t : Target) (d : Progress) (label : Label) (e : Progress)
    → eraser_ctr works t d ≡ failed label e
    → e.live ≡ leaked label ++ d.live
eraser_ctr-failed works t d label e same = subst (Life works t d) same (eraser_ctr-Life works t d)

-- When `eraser_ctr` makes a device, then `eraser_dtr`, on as many CPUs, releases all that it acquired
-- and nothing else, whatever the journal had to recover.
pub eraser_dtr-eraser_ctr :
    (works : Resource → Bool) (t : Target) (d e : Progress)
    → eraser_ctr works t d ≡ built e
    → (eraser_dtr t.cpus e).live ≡ d.live
eraser_dtr-eraser_ctr works t d e same =
    eraser_dtr-with_paths t.cpus d.live e (subst (Life works t d) same (eraser_ctr-Life works t d))
