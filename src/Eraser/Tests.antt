-- ===== src/Eraser/Tests.antt =====
-- A device of dm-eraser.c on two CPUs, made and destroyed, and one that cannot be opened.
use secure_deletion.Common.{
  ℕ, ◌≡◌, ◌≢◌, ◌==◌, arith, refl, Bool, true, false, not, some, [], ◌∷◌, ◌++◌,
}
use secure_deletion.Lifecycle.{
  Resource, same, Progress, Outcome, built, failed, refused, proc_file, page_pool, dm_device,
  dev_lock, io_queue, enc_key,
}
use secure_deletion.Lifecycle.Construct.{find_dev, lookup_dev}
use secure_deletion.Eraser.{Label, Target, cleanup, read_header_fail}
use secure_deletion.Eraser.Construct.{
  open_device, open_pools, init_rand_from, init_rand, init_tfms, init_essiv, create_queues,
  start_device, stages, eraser_ctr,
}
use secure_deletion.Eraser.Buffer.{running, allocated, find_buf, find_rand_buf, find_rand_buf-stops}
use secure_deletion.Eraser.Rollback.{leaked}
use secure_deletion.Eraser.Destruct.{eraser_dtr, kept, constructor-failed, destructor-constructor}

program : Unit {0}
unfolding find_dev lookup_dev cleanup open_device open_pools init_rand_from init_rand init_tfms
    init_essiv create_queues start_device stages eraser_ctr eraser_dtr find_buf find_rand_buf
program = tt

-- Another device's resources.
abbrev found : Progress
found = record { live = proc_file ∷ page_pool ∷ []; pprf_key_set = false; calls = [] }

abbrev target : Target
target = record {
  argc = 5;
  pid_ok = true;
  bdev = some 7;
  dev_list = 8 ∷ [];
  cpus = 2;
  salt_ok = true;
}

abbrev all : Resource → Bool
all r = true

abbrev but : Resource → Resource → Bool
but r s = not (same r s)

abbrev progress : {L : Type 0} → Outcome L → Progress
progress (built d) = d
progress (failed label d) = d
progress (refused d) = d

-- The label that the constructor ends at.
abbrev label_of : Outcome Label → Label
label_of (failed label d) = label
label_of _ = read_header_fail

abbrev made : Progress
made = progress (eraser_ctr all target found)

destructor-constructor_example : (eraser_dtr 2 true made).live ≡ kept 2 found.live
unfolding program
destructor-constructor_example = destructor-constructor all target true found made refl

-- Without a queue the key is left ...
abbrev without_queue : Outcome Label
without_queue = eraser_ctr (but io_queue) target found

constructor-failed_example :
    (progress without_queue).live ≡ leaked (label_of without_queue) ++ found.live
unfolding program
constructor-failed_example =
    constructor-failed (but io_queue) target found (label_of without_queue) (progress without_queue)
      refl

key_left : (progress without_queue).live ≡ enc_key ∷ found.live
unfolding program
key_left = refl

-- ... and without the device the lock is held.
lock_held : (progress (eraser_ctr (but dm_device) target found)).live ≡ dev_lock ∷ found.live
unfolding program
lock_held = refl

-- No memory at all: the loop asks until the number of bytes is 0.
abbrev nothing : ℕ → Bool
nothing n = false

find_rand_buf-stops_example : find_rand_buf nothing 23 ≢ running
find_rand_buf-stops_example = find_rand_buf-stops nothing 23 (omega arith)

abbrev zero_only : ℕ → Bool
zero_only n = n == 0

gets_zero : find_rand_buf zero_only 23 ≡ allocated 0 0
unfolding program
gets_zero = refl
