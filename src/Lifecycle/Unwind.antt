-- ===== src/Lifecycle/Unwind.antt =====
-- When `eraser_ctr` of dm-holepunch-main.c fails, what it acquired is released.
use secure_deletion.Common.{
  ℕ, ◌≡◌, refl, ap, ◌∙◌, arith, ◌≢◌, Bool, false, [], ◌∷◌, ◌++◌, Bool-cases, inl, inr,
}
use secure_deletion.Lifecycle.{
  kind, member, ecb_tfm, cbc_tfm, Resource, array, dev_lock, dev_struct, dm_device, dev_entry,
  enc_key, ctr_tfm, sha_tfm, prg_input, bioset, page_pool, header_sector, io_work_cache,
  io_work_pool, io_queue, unlink_work_cache, unlink_work_pool, unlink_queue, map_cache_cache,
  map_cache_pool, journal_sector, pprf_fkt, pprf_key, evict_thread, real_dev_path, virt_dev_path,
  Ledger, release, Progress, push, drop, Step, next, acquire_members,
}
use secure_deletion.Lifecycle.Ledger.{
  members, free_down-members, free_down-over, Holds, Ends, Ends-bind, Ends-acquire, Ends-then,
  Ends-members,
}
use secure_deletion.Lifecycle.Construct.{
  Label, Target, cleanup, free_ecb, free_cbc, create_dev_fail, init_ecb_tfm_fail, init_cbc_tfm_fail,
  init_ctr_tfm_fail, init_sha_tfm_fail, init_prg_input_fail, read_header_fail, loading_fail,
  lookup_dev, create_dev, open_device, init_tfms, init_crypto,
}

-- What a label leaves behind: the header's sector when a check of it fails, and the journal's when
-- the load does.
abbrev pub leaked : Label → Ledger
leaked (loading_fail _) = journal_sector ∷ []
leaked read_header_fail = header_sector ∷ []
leaked _ = []

-- The ledger at each stage, above the one that the constructor begins with.
abbrev pub with_device : Ledger → Ledger
with_device l = enc_key ∷ dev_entry ∷ dm_device ∷ dev_struct ∷ l

abbrev pub with_tfms : (cpus : ℕ) → Ledger → Ledger
with_tfms cpus l =
    members cbc_tfm cpus (array cbc_tfm ∷ members ecb_tfm cpus (array ecb_tfm ∷ with_device l))

abbrev pub with_crypto : (cpus : ℕ) → Ledger → Ledger
with_crypto cpus l = prg_input ∷ sha_tfm ∷ ctr_tfm ∷ with_tfms cpus l

abbrev pub with_header : (cpus : ℕ) → Ledger → Ledger
with_header cpus l = header_sector ∷ page_pool ∷ bioset ∷ with_crypto cpus l

abbrev pub with_queues : (cpus : ℕ) → Ledger → Ledger
with_queues cpus l =
    map_cache_pool
    ∷ map_cache_cache
    ∷ unlink_queue
    ∷ unlink_work_pool
    ∷ unlink_work_cache
    ∷ io_queue
    ∷ io_work_pool
    ∷ io_work_cache
    ∷ with_header cpus l

abbrev pub with_keys : (cpus : ℕ) → Ledger → Ledger
with_keys cpus l = pprf_key ∷ pprf_fkt ∷ with_queues cpus l

abbrev pub with_paths : (cpus : ℕ) → Ledger → Ledger
with_paths cpus l = virt_dev_path ∷ real_dev_path ∷ evict_thread ∷ with_keys cpus l

module _ (cpus : ℕ) (l : Ledger) where
  free_ecb-members :
      (i : ℕ) → free_ecb cpus i (members ecb_tfm i (array ecb_tfm ∷ with_device l)) ≡ l
  free_ecb-members i =
      ap
        (λ s. release dev_lock (
          release dev_struct (
            release dm_device
              (release dev_entry (dev_lock ∷ release enc_key (release (array ecb_tfm) s))))))
        (free_down-members ecb_tfm i (array ecb_tfm ∷ with_device l))

  pub free_cbc-members :
      (i : ℕ)
      → free_cbc cpus i
          (members cbc_tfm i (array cbc_tfm ∷ members ecb_tfm cpus (array ecb_tfm ∷ with_device l)))
        ≡ l
  free_cbc-members i =
      ap (λ s. free_ecb cpus cpus (release (array cbc_tfm) s)) (free_down-members cbc_tfm i _)
      ∙ free_ecb-members cpus

  -- What the destroyed device leaves, below what was acquired first.
  abbrev free_device : Ledger → Ledger
  free_device s = release dev_lock (
      release dev_struct (
        release dm_device
          (release dev_entry (dev_lock ∷ release enc_key (release (array ecb_tfm) s)))))

  -- A sector is left on top.
  free_cbc-over :
      (r : Resource)
      → kind (member cbc_tfm 0) ≢ kind r
      → kind (member ecb_tfm 0) ≢ kind r
      → ((s : Ledger) → release (array cbc_tfm) (r ∷ array cbc_tfm ∷ s) ≡ r ∷ s)
      → free_device (r ∷ array ecb_tfm ∷ with_device l) ≡ r ∷ l
      → free_cbc cpus cpus (r ∷ with_tfms cpus l) ≡ r ∷ l
  free_cbc-over r ne ne' array_over over =
      ap (λ s. free_ecb cpus cpus (release (array cbc_tfm) s))
        (free_down-over r cbc_tfm cpus _ ne ∙ ap (λ s. r ∷ s) (free_down-members cbc_tfm cpus _))
      ∙ ap (free_ecb cpus cpus) (array_over _)
      ∙ ap free_device
          (free_down-over r ecb_tfm cpus _ ne' ∙ ap (λ s. r ∷ s) (free_down-members ecb_tfm cpus _))
      ∙ over

  pub free_cbc-journal : free_cbc cpus cpus (journal_sector ∷ with_tfms cpus l) ≡ journal_sector ∷ l
  free_cbc-journal = free_cbc-over journal_sector (omega arith) (omega arith) (λ s. refl) refl

  pub free_cbc-header : free_cbc cpus cpus (header_sector ∷ with_tfms cpus l) ≡ header_sector ∷ l
  free_cbc-header = free_cbc-over header_sector (omega arith) (omega arith) (λ s. refl) refl

  -- A label is right where its statements leave what the constructor found.
  abbrev pub Undone : Label → Ledger → Type 0
  Undone label s = cleanup cpus label s ≡ leaked label ++ l

module _ (works : Resource → Bool) (t : Target) (l : Ledger) where
  -- A stage of the constructor.
  abbrev pub Stage : (before after : Ledger) → (Progress → Step Label) → Type 0
  Stage s s' f = (d : Progress) → Holds false s d → Ends (Undone t.cpus l) (Holds false s') (f d)

  create_dev-Ends :
      (d : Progress)
      → d.live ≡ dev_lock ∷ l
      → Ends
          (Undone t.cpus l)
          (Holds false (dev_entry ∷ dm_device ∷ dev_struct ∷ dev_lock ∷ l))
          (create_dev works t create_dev_fail d)
  unfolding cleanup
  create_dev-Ends d e = elim (Bool-cases (works dm_device)) [
    | inl w ↦ rw w (refl, ap (λ s. dev_entry ∷ dm_device ∷ dev_struct ∷ s) e)
    | inr w ↦ rw w (ap (release dev_lock) e)
  ]

  pub open_device-Ends :
      (d : Progress)
      → d.live ≡ l
      → Ends (Undone t.cpus l) (Holds false (with_device l)) (open_device works t d)
  unfolding open_device cleanup
  open_device-Ends d e = elim (Bool-cases (lookup_dev t.bdev t.dev_list)) [
    | inl w ↦ rw w e
    | inr w ↦ rw w (
        Ends-bind (Undone t.cpus l)
          (Holds false (dev_entry ∷ dm_device ∷ dev_struct ∷ dev_lock ∷ l))
          (Holds false (with_device l)) (create_dev works t create_dev_fail (push dev_lock d))
          (λ x. next (push enc_key (drop dev_lock x)))
          (create_dev-Ends (push dev_lock d) (ap (λ s. dev_lock ∷ s) e))
          (λ x (key, same). (key, ap (λ s. enc_key ∷ release dev_lock s) same)))
  ]

  pub init_tfms-Ends : Stage (with_device l) (with_tfms t.cpus l) (init_tfms works t)
  unfolding init_tfms cleanup
  init_tfms-Ends d (key, e) =
      Ends-bind (Undone t.cpus l)
        (Holds false (members ecb_tfm t.cpus (array ecb_tfm ∷ with_device l)))
        (Holds false (with_tfms t.cpus l))
        (acquire_members works ecb_tfm t.cpus 0 init_ecb_tfm_fail (push (array ecb_tfm) d))
        (λ x. acquire_members works cbc_tfm t.cpus 0 init_cbc_tfm_fail (push (array cbc_tfm) x))
        (Ends-members (Undone t.cpus l) works false (array ecb_tfm ∷ with_device l) ecb_tfm t.cpus 0
          t.cpus init_ecb_tfm_fail (push (array ecb_tfm) d) (omega arith)
          (λ j. free_ecb-members t.cpus l j) (key, ap (λ s. array ecb_tfm ∷ s) e))
        (λ x (key', e').
          Ends-members (Undone t.cpus l) works false
            (array cbc_tfm ∷ members ecb_tfm t.cpus (array ecb_tfm ∷ with_device l)) cbc_tfm t.cpus
            0 t.cpus init_cbc_tfm_fail (push (array cbc_tfm) x) (omega arith)
            (λ j. free_cbc-members t.cpus l j) (key', ap (λ s. array cbc_tfm ∷ s) e'))

  pub init_crypto-Ends : Stage (with_tfms t.cpus l) (with_crypto t.cpus l) (init_crypto works t)
  unfolding init_crypto cleanup
  init_crypto-Ends d h =
      let undone = free_cbc-members t.cpus l t.cpus in
      Ends-then (Undone t.cpus l) works false _ prg_input init_prg_input_fail _ undone (
        Ends-then (Undone t.cpus l) works false _ sha_tfm init_sha_tfm_fail _ undone
          (Ends-acquire (Undone t.cpus l) works false _ ctr_tfm init_ctr_tfm_fail d undone h))
