-- ===== src/Lifecycle/Tests.antt =====
-- A device on two CPUs, made and destroyed, and one that cannot be made.
use secure_deletion.Common.{◌≡◌, refl, Bool, true, false, not, some, [], ◌∷◌, ◌++◌, ◌^◌}
use secure_deletion.Layout.{create_header, check_header, bit_length32}
use secure_deletion.Lifecycle.{
  Resource, same, Progress, Step, next, goto, ◌>>=◌, Outcome, built, failed, refused, proc_file,
  page_pool, pprf_fkt, journal_sector, cbc_tfm, member,
}
use secure_deletion.Lifecycle.Recover.{hpj_pprf_punct, load, recover, has_fkt, has_pprf}
use secure_deletion.Lifecycle.Recovered.{load-recover}
use secure_deletion.Lifecycle.Construct.{
  Label, Target, read_header_fail, find_dev, lookup_dev, cleanup, open_device, init_tfms,
  init_crypto, open_header, create_queues, recover_device, start_device, stages, eraser_ctr,
}
use secure_deletion.Lifecycle.Unwind.{leaked}
use secure_deletion.Lifecycle.Destruct.{eraser_dtr, eraser_ctr-failed, eraser_dtr-eraser_ctr}
use secure_deletion.Lifecycle.Registry.{dm_holepunch_init, dm_eraser_init}

program : Unit {0}
unfolding create_header bit_length32 check_header load recover find_dev lookup_dev cleanup
    open_device init_tfms init_crypto open_header create_queues recover_device start_device stages
    eraser_ctr eraser_dtr dm_holepunch_init dm_eraser_init
program = tt

-- Another device's resources.
abbrev found : Progress
found = record { live = proc_file ∷ page_pool ∷ []; pprf_key_set = false; calls = [] }

abbrev target : Target
target = record {
  argc = 5;
  pid_ok = true;
  bdev = some 7;
  dev_list = 8 ∷ [];
  cpus = 2;
  header = create_header 1000 (2 ^ 30);
  journal_word = 3;
  tpm_old = false;
}

abbrev all : Resource → Bool
all r = true

abbrev but : Resource → Resource → Bool
but r s = not (same r s)

-- What the constructor returns.
abbrev progress : {L : Type 0} → Outcome L → Progress
progress (built d) = d
progress (failed label d) = d
progress (refused d) = d

abbrev made : Progress
made = progress (eraser_ctr all target found)

eraser_dtr-eraser_ctr_example : (eraser_dtr 2 made).live ≡ found.live
unfolding program
eraser_dtr-eraser_ctr_example = eraser_dtr-eraser_ctr all target found made refl

-- Without room for the FKT the journal's sector is left.
abbrev unmade : Progress
unmade = progress (eraser_ctr (but pprf_fkt) target found)

-- The label that the constructor ends at.
abbrev label_of : Label → Outcome Label → Label
label_of other (failed label d) = label
label_of other _ = other

eraser_ctr-failed_example :
    unmade.live
    ≡ leaked (label_of read_header_fail (eraser_ctr (but pprf_fkt) target found)) ++ found.live
unfolding program
eraser_ctr-failed_example =
    eraser_ctr-failed (but pprf_fkt) target found
      (label_of read_header_fail (eraser_ctr (but pprf_fkt) target found)) unmade refl

unmade_leaks : unmade.live ≡ journal_sector ∷ found.live
unfolding program
unmade_leaks = refl

tfm_fails : (progress (eraser_ctr (but (member cbc_tfm 1)) target found)).live ≡ found.live
unfolding program
tfm_fails = refl

abbrev state : {L : Type 0} → Step L → Progress
state (next d) = d
state (goto label d) = d

-- A device whose journal has a puncture.
abbrev recovered : Progress
recovered = state (load all hpj_pprf_punct true found >>= recover all hpj_pprf_punct false)

load-recover_example : (has_fkt recovered.calls ≡ true) × (has_pprf recovered.calls ≡ true)
unfolding program
load-recover_example =
    load-recover all hpj_pprf_punct true false found recovered (λ e. cc) (λ e. refl) refl
