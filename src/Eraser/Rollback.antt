-- ===== src/Eraser/Rollback.antt =====
-- The ledger of dm-eraser.c at each stage, and what the cleanup from a label on makes of it.
use secure_deletion.Common.{ℕ, ◌≡◌, ap, ◌∙◌, arith, [], ◌∷◌, ◌++◌}
use secure_deletion.Lifecycle.{
  ecb_tfm, cbc_tfm, rand_tfm, essiv_tfm, array, dev_lock, dev_struct, dm_device, dev_entry, enc_key,
  bioset, page_pool, header_sector, io_work_cache, io_work_pool, io_queue, unlink_work_cache,
  unlink_work_pool, unlink_queue, map_cache_cache, map_cache_pool, slot_map, evict_thread,
  real_dev_path, virt_dev_path, Ledger, release,
}
use secure_deletion.Lifecycle.Ledger.{members, free_down-members}
use secure_deletion.Eraser.{
  Label, free_device, free_rand, free_tfm, free_pprf_tfm, free_essiv, lookup_dev_fail,
  create_dev_fail, create_bioset_fail, create_page_pool_fail, read_header_fail,
  init_rand_context_fail, cleanup,
}
use secure_deletion.Eraser.Random.{rands, free_rand_down-rands, free_rand_down-over}

-- What a label leaves behind: the device lock when there is no device, and the key once it is
-- decoded.
abbrev pub leaked : Label → Ledger
leaked lookup_dev_fail = dev_lock ∷ []
leaked create_dev_fail = dev_lock ∷ []
leaked create_bioset_fail = []
leaked create_page_pool_fail = []
leaked read_header_fail = []
leaked (init_rand_context_fail _) = []
leaked _ = enc_key ∷ []

-- The ledger at each stage.
abbrev pub with_device : Ledger → Ledger
with_device l = dev_entry ∷ dm_device ∷ dev_struct ∷ l

abbrev pub with_pools : Ledger → Ledger
with_pools l = header_sector ∷ page_pool ∷ bioset ∷ with_device l

abbrev pub with_rand : (cpus : ℕ) → Ledger → Ledger
with_rand cpus l = enc_key ∷ rands cpus (array rand_tfm ∷ with_pools l)

abbrev pub with_tfm : (cpus : ℕ) → Ledger → Ledger
with_tfm cpus l = members cbc_tfm cpus (array cbc_tfm ∷ with_rand cpus l)

abbrev pub with_tfms : (cpus : ℕ) → Ledger → Ledger
with_tfms cpus l = members ecb_tfm cpus (array ecb_tfm ∷ with_tfm cpus l)

abbrev pub with_essiv : (cpus : ℕ) → Ledger → Ledger
with_essiv cpus l = members essiv_tfm cpus (array essiv_tfm ∷ with_tfms cpus l)

abbrev pub with_queues : (cpus : ℕ) → Ledger → Ledger
with_queues cpus l =
    map_cache_pool
    ∷ map_cache_cache
    ∷ unlink_queue
    ∷ unlink_work_pool
    ∷ unlink_work_cache
    ∷ io_queue
    ∷ io_work_pool
    ∷ io_work_cache
    ∷ with_essiv cpus l

abbrev pub with_paths : (cpus : ℕ) → Ledger → Ledger
with_paths cpus l = virt_dev_path ∷ real_dev_path ∷ evict_thread ∷ slot_map ∷ with_queues cpus l

module _ (cpus : ℕ) (l : Ledger) where
  abbrev free_base : Ledger → Ledger
  free_base s =
      free_device cpus
        (release bioset (release page_pool (release header_sector (release (array rand_tfm) s))))

  pub free_rand-rands : (i : ℕ) → free_rand cpus i (rands i (array rand_tfm ∷ with_pools l)) ≡ l
  free_rand-rands i = ap free_base (free_rand_down-rands i (array rand_tfm ∷ with_pools l))

  free_rand-key : free_rand cpus cpus (with_rand cpus l) ≡ enc_key ∷ l
  free_rand-key = ap free_base (
      free_rand_down-over cpus enc_key _ (omega arith) (omega arith)
      ∙ ap (λ s. enc_key ∷ s) (free_rand_down-rands cpus (array rand_tfm ∷ with_pools l)))

  pub free_tfm-members :
      (i : ℕ) → free_tfm cpus i (members cbc_tfm i (array cbc_tfm ∷ with_rand cpus l)) ≡ enc_key ∷ l
  free_tfm-members i =
      ap (λ s. free_rand cpus cpus (release (array cbc_tfm) s)) (free_down-members cbc_tfm i _)
      ∙ free_rand-key

  pub free_pprf_tfm-members :
      (i : ℕ)
      → free_pprf_tfm cpus i (members ecb_tfm i (array ecb_tfm ∷ with_tfm cpus l)) ≡ enc_key ∷ l
  free_pprf_tfm-members i =
      ap (λ s. free_tfm cpus cpus (release (array ecb_tfm) s)) (free_down-members ecb_tfm i _)
      ∙ free_tfm-members cpus

  pub free_essiv-members :
      (i : ℕ)
      → free_essiv cpus i (members essiv_tfm i (array essiv_tfm ∷ with_tfms cpus l)) ≡ enc_key ∷ l
  free_essiv-members i =
      ap (λ s. free_pprf_tfm cpus cpus (release (array essiv_tfm) s))
        (free_down-members essiv_tfm i _)
      ∙ free_pprf_tfm-members cpus

  -- A label is right where its statements leave this.
  abbrev pub Undone : Label → Ledger → Type 0
  Undone label s = cleanup cpus label s ≡ leaked label ++ l
