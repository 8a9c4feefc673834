-- ===== src/Eraser/Destruct.antt =====
-- `eraser_dtr` of dm-eraser.c, and what a device's life leaves.
use mathlib.Core.Path.{subst}
use secure_deletion.Common.{
  ℕ, ◌≡◌, refl, ◌≢◌, ap, ◌∙◌, arith, Bool, ◌∷◌, ◌++◌, Bool-cases, inl, inr, ◌==◌, ◌&&◌,
  if◌then◌else◌,
}
use secure_deletion.Lifecycle.{
  Resource, ecb_tfm, cbc_tfm, rand_tfm, essiv_tfm, array, member, kind, dev_lock, dev_struct,
  dm_device, dev_entry, enc_key, bioset, page_pool, header_sector, io_work_cache, io_work_pool,
  io_queue, unlink_work_cache, unlink_work_pool, unlink_queue, map_cache_cache, map_cache_pool,
  slot_map, evict_thread, real_dev_path, virt_dev_path, Ledger, release, free_up, Progress, call,
  force_evict_map_cache, set_master_key, kill_helper, write_slot_map, write_header, Step, next,
  goto, Outcome, built, failed, refused,
}
use secure_deletion.Lifecycle.Ledger.{
  members, release-other, same-kind_ne, release-members, free_up-members, free_up-other,
  free_up-over, Holds, Ends,
}
use secure_deletion.Lifecycle.Construct.{destroy_dev}
use secure_deletion.Eraser.{Label, Target, free_rand_up}
use secure_deletion.Eraser.Construct.{stages, finish, eraser_ctr}
use secure_deletion.Eraser.Random.{
  rands, free_rand_up-rands, free_rand_up-over, free_rand_up-members, release-rands,
}
use secure_deletion.Eraser.Rollback.{with_paths, leaked, Undone}
use secure_deletion.Eraser.Failure.{stages-Ends}

-- The paths, the eviction thread, the slot map and the header.
abbrev free_state : Ledger → Ledger
free_state l =
    release header_sector
      (release slot_map (release evict_thread (release virt_dev_path (release real_dev_path l))))

abbrev free_queues : Ledger → Ledger
free_queues l = release io_work_cache (
    release io_work_pool (
      release io_queue (
        release unlink_work_cache (
          release unlink_work_pool
            (release unlink_queue (release map_cache_cache (release map_cache_pool l)))))))

-- The contexts of every CPU: the destructor has no loop over `pprf_tfm`.
abbrev free_contexts : (cpus : ℕ) → Ledger → Ledger
free_contexts cpus l = release (array rand_tfm) (
    free_rand_up cpus 0 (
      release (array cbc_tfm)
        (free_up cbc_tfm cpus 0 (release (array essiv_tfm) (free_up essiv_tfm cpus 0 l)))))

abbrev free_locked : Ledger → Ledger
free_locked l = release dev_lock (destroy_dev (dev_lock ∷ l))

abbrev free_device : Ledger → Ledger
free_device l = free_locked (release bioset (release page_pool l))

-- The calls: a dirty slot map is written under a new master key.
abbrev close : (dirty : Bool) → Progress → Progress
close dirty d =
    let evicted = call force_evict_map_cache d in
    if dirty
    then call write_header (call write_slot_map (call kill_helper (call set_master_key evicted)))
    else call write_header (call kill_helper evicted)

-- `eraser_dtr`
unfoldable pub eraser_dtr : (cpus : ℕ) → (dirty : Bool) → Progress → Progress
eraser_dtr cpus dirty d = record (close dirty d) {
  live = free_device (free_contexts cpus (free_queues (free_state d.live)));
}

module _ (cpus : ℕ) where
  -- What the destructor leaves: the transforms of the PPRF, and the key.
  abbrev pub kept : Ledger → Ledger
  kept s = members ecb_tfm cpus (array ecb_tfm ∷ enc_key ∷ s)

  abbrev contexts : Ledger → Ledger
  contexts s = members essiv_tfm cpus (
      array essiv_tfm
      ∷ members ecb_tfm cpus (
          array ecb_tfm
          ∷ members cbc_tfm cpus (array cbc_tfm ∷ enc_key ∷ rands cpus (array rand_tfm ∷ s))))

  -- The header's sector is freed from below the contexts.
  release-contexts :
      (s : Ledger) → release header_sector (contexts (header_sector ∷ s)) ≡ contexts s
  release-contexts s =
      release-members header_sector essiv_tfm cpus _ (omega arith)
      ∙ ap (λ r. members essiv_tfm cpus (array essiv_tfm ∷ r))
          (release-members header_sector ecb_tfm cpus _ (omega arith)
            ∙ ap (λ r. members ecb_tfm cpus (array ecb_tfm ∷ r))
                (release-members header_sector cbc_tfm cpus _ (omega arith)
                  ∙ ap (λ r. members cbc_tfm cpus (array cbc_tfm ∷ enc_key ∷ r))
                      (release-rands header_sector cpus _ (omega arith) (omega arith))))

  release-kept :
      (r : Resource) (s : Ledger)
      → kind r ≢ kind (member ecb_tfm 0)
      → kind r ≢ kind (array ecb_tfm)
      → kind r ≢ kind enc_key
      → release r (kept s) ≡ kept (release r s)
  release-kept r s ne ne' ne'' =
      release-members r ecb_tfm cpus _ ne
      ∙ ap (members ecb_tfm cpus) (
          release-other r (array ecb_tfm) _ (same-kind_ne r (array ecb_tfm) ne')
          ∙ ap (λ l. array ecb_tfm ∷ l) (release-other r enc_key s (same-kind_ne r enc_key ne'')))

  free_cbc-kept :
      (s : Ledger)
      → free_up cbc_tfm cpus 0
          (members ecb_tfm cpus (array ecb_tfm ∷ members cbc_tfm cpus (array cbc_tfm ∷ s)))
        ≡ members ecb_tfm cpus (array ecb_tfm ∷ array cbc_tfm ∷ s)
  free_cbc-kept s =
      free_up-other cbc_tfm ecb_tfm cpus 0 cpus _ (omega arith)
      ∙ ap (members ecb_tfm cpus) (
          free_up-over (array ecb_tfm) cbc_tfm cpus 0 _ (omega arith)
          ∙ ap (λ l. array ecb_tfm ∷ l) (free_up-members cbc_tfm cpus (array cbc_tfm ∷ s)))

  free_rand-kept : (s : Ledger) → free_rand_up cpus 0 (kept (rands cpus s)) ≡ kept s
  free_rand-kept s =
      free_rand_up-members ecb_tfm cpus 0 cpus _ (omega arith) (omega arith)
      ∙ ap (members ecb_tfm cpus) (
          free_rand_up-over cpus 0 (array ecb_tfm) _ (omega arith) (omega arith)
          ∙ ap (λ l. array ecb_tfm ∷ l)
              (free_rand_up-over cpus 0 enc_key _ (omega arith) (omega arith)
                ∙ ap (λ l. enc_key ∷ l) (free_rand_up-rands cpus s)))

  free_contexts-contexts : (s : Ledger) → free_contexts cpus (contexts s) ≡ kept s
  free_contexts-contexts s =
      ap
        (λ l. release (array rand_tfm) (
          free_rand_up cpus 0
            (release (array cbc_tfm) (free_up cbc_tfm cpus 0 (release (array essiv_tfm) l)))))
        (free_up-members essiv_tfm cpus _)
      ∙ ap (λ l. release (array rand_tfm) (free_rand_up cpus 0 (release (array cbc_tfm) l)))
          (free_cbc-kept _)
      ∙ ap (λ l. release (array rand_tfm) (free_rand_up cpus 0 l))
          (release-members (array cbc_tfm) ecb_tfm cpus _ (omega arith))
      ∙ ap (release (array rand_tfm)) (free_rand-kept (array rand_tfm ∷ s))
      ∙ release-kept (array rand_tfm) (array rand_tfm ∷ s) (omega arith) (omega arith) (omega arith)

  free_device-kept :
      (l : Ledger)
      → free_device (kept (page_pool ∷ bioset ∷ dev_entry ∷ dm_device ∷ dev_struct ∷ l)) ≡ kept l
  free_device-kept l =
      ap (λ s. free_locked (release bioset s))
        (release-kept page_pool _ (omega arith) (omega arith) (omega arith))
      ∙ ap free_locked (release-kept bioset _ (omega arith) (omega arith) (omega arith))
      ∙ ap (λ s. release dev_struct (release dm_device s))
          (release-kept dev_entry _ (omega arith) (omega arith) (omega arith))
      ∙ ap (release dev_struct) (release-kept dm_device _ (omega arith) (omega arith) (omega arith))
      ∙ release-kept dev_struct _ (omega arith) (omega arith) (omega arith)

  eraser_dtr-with_paths :
      (l : Ledger) (dirty : Bool) (d : Progress)
      → d.live ≡ with_paths cpus l
      → (eraser_dtr cpus dirty d).live ≡ kept l
  unfolding eraser_dtr
  eraser_dtr-with_paths l dirty d e =
      ap (λ s. free_device (free_contexts cpus (free_queues (free_state s)))) e
      ∙ ap (λ s. free_device (free_contexts cpus s)) (release-contexts _)
      ∙ ap free_device (free_contexts-contexts _)
      ∙ free_device-kept l

module _ (works : Resource → Bool) (t : Target) (d : Progress) where
  -- The outcomes of the constructor.
  abbrev Life : Outcome Label → Type 0
  Life (built e) = e.live ≡ with_paths t.cpus d.live
  Life (failed label e) = e.live ≡ leaked label ++ d.live
  Life (refused e) = e.live ≡ d.live

  finish-Life :
      (m : Step Label)
      → Ends (Undone t.cpus d.live) (Holds d.pprf_key_set (with_paths t.cpus d.live)) m
      → Life (finish works t m)
  finish-Life (next e) (key, same) = same
  finish-Life (goto label e) h = h

  eraser_ctr-Life : Life (eraser_ctr works t d)
  unfolding eraser_ctr
  eraser_ctr-Life = elim (Bool-cases ((t.argc == 5) && t.pid_ok)) [
    | inl w ↦
        rw w (
          finish-Life (stages works t d) (stages-Ends works t d.live d.pprf_key_set d (refl, refl)))
    | inr w ↦ rw w refl
  ]

-- When `eraser_ctr` of dm-eraser.c fails at a label, then after the statements from the label on every
-- resource is as it was before the call, but for the device lock, which is still held when the device
-- is in use or cannot be opened, and the decoded key, once there is one.
pub constructor-failed :
    (works : Resource → Bool) (t : Target) (d : Progress) (label : Label) (e : Progress)
    → eraser_ctr works t d ≡ failed label e
    → e.live ≡ leaked label ++ d.live
constructor-failed works t d label e same = subst (Life works t d) same (eraser_ctr-Life works t d)

-- When `eraser_ctr` of dm-eraser.c makes a device, then `eraser_dtr`, on as many CPUs, releases what it
-- acquired, but for the transforms of the PPRF, their array and the decoded key, and nothing else.
pub destructor-constructor :
    (works : Resource → Bool) (t : Target) (dirty : Bool) (d e : Progress)
    → eraser_ctr works t d ≡ built e
    → (eraser_dtr t.cpus dirty e).live ≡ kept t.cpus d.live
destructor-constructor works t dirty d e same =
    eraser_dtr-with_paths t.cpus d.live dirty e
      (subst (Life works t d) same (eraser_ctr-Life works t d))
