-- ===== src/Lifecycle/Registry.antt =====
-- What the kernel modules register: `dm_eraser_init` and `dm_eraser_exit` of dm-holepunch-main.c and of
-- eraser/kernel_module/dm-eraser.c.
use mathlib.Core.Path.{subst}
use secure_deletion.Common.{
  ◌≡◌, ◌≢◌, sym, ◌∙◌, refl, Bool, true, false, [], ◌∷◌, ◌++◌, Bool-cases, inl, inr, if◌then◌else◌,
  ◌⊎◌,
}
use secure_deletion.Lifecycle.{
  Resource, netlink_socket, unlink_kprobe, dm_target, proc_file, Ledger, release,
}

-- What a module's init returns, with the ledger.
pub data Loaded : Type 0 where
  loaded unloaded : Ledger → Loaded

module _ (works : Resource → Bool) where
  -- `dm_eraser_init` of dm-holepunch-main.c
  unfoldable pub dm_holepunch_init : Ledger → Loaded
  dm_holepunch_init l =
      if works netlink_socket
      then (if works unlink_kprobe
          then (if works dm_target
              then (if works proc_file
                  then loaded (proc_file ∷ dm_target ∷ unlink_kprobe ∷ netlink_socket ∷ l)
                  else unloaded (dm_target ∷ unlink_kprobe ∷ netlink_socket ∷ l))
              else unloaded (unlink_kprobe ∷ netlink_socket ∷ l))
          else unloaded (netlink_socket ∷ l))
      else unloaded l

-- `dm_eraser_exit`, the same in both modules.
unfoldable pub dm_eraser_exit : Ledger → Ledger
dm_eraser_exit l =
    release netlink_socket (release unlink_kprobe (release dm_target (release proc_file l)))

-- `dm_eraser_init` of dm-eraser.c, which goes on when the target is not registered.
unfoldable pub dm_eraser_init : (works : Resource → Bool) → Ledger → Loaded
dm_eraser_init works l =
    if works netlink_socket
    then (if works unlink_kprobe
        then (if works dm_target
            then (if works proc_file
                then loaded (proc_file ∷ dm_target ∷ unlink_kprobe ∷ netlink_socket ∷ l)
                else unloaded (dm_target ∷ unlink_kprobe ∷ netlink_socket ∷ l))
            else if works proc_file
            then unloaded (proc_file ∷ unlink_kprobe ∷ netlink_socket ∷ l)
            else unloaded (unlink_kprobe ∷ netlink_socket ∷ l))
        else unloaded (netlink_socket ∷ l))
    else unloaded l

-- What a load of the module that gets a socket may end in.
abbrev Registered : Ledger → Loaded → Type 0
Registered l (loaded s) = dm_eraser_exit s ≡ l
Registered l (unloaded s) = (k : Ledger) × (s ≡ k ++ (netlink_socket ∷ l))

module _ (works : Resource → Bool) (l : Ledger) (socket : works netlink_socket ≡ true) where
  holepunch-Registered : Registered l (dm_holepunch_init works l)
  unfolding dm_holepunch_init dm_eraser_exit
  holepunch-Registered = rw socket (elim (Bool-cases (works unlink_kprobe)) [
    | inr w ↦ rw w ([], refl)
    | inl w ↦ rw w (elim (Bool-cases (works dm_target)) [
      | inr v ↦ rw v (unlink_kprobe ∷ [], refl)
      | inl v ↦ rw v (elim (Bool-cases (works proc_file)) [
        | inr u ↦ rw u (dm_target ∷ unlink_kprobe ∷ [], refl)
        | inl u ↦ rw u refl
      ])
    ])
  ])

  eraser-Registered : Registered l (dm_eraser_init works l)
  unfolding dm_eraser_init dm_eraser_exit
  eraser-Registered = rw socket (elim (Bool-cases (works unlink_kprobe)) [
    | inr w ↦ rw w ([], refl)
    | inl w ↦ rw w (elim (Bool-cases (works dm_target)) [
      | inr v ↦ rw v (elim (Bool-cases (works proc_file)) [
        | inr u ↦ rw u (unlink_kprobe ∷ [], refl)
        | inl u ↦ rw u (proc_file ∷ unlink_kprobe ∷ [], refl)
      ])
      | inl v ↦ rw v (elim (Bool-cases (works proc_file)) [
        | inr u ↦ rw u (dm_target ∷ unlink_kprobe ∷ [], refl)
        | inl u ↦ rw u refl
      ])
    ])
  ])

-- When the load of either kernel module fails behind the creation of the netlink socket, then the
-- socket is still there, above what was registered before the load.
pub init-unloaded :
    (works : Resource → Bool) (l s : Ledger)
    → works netlink_socket ≡ true
    → (dm_holepunch_init works l ≡ unloaded s) ⊎ (dm_eraser_init works l ≡ unloaded s)
    → (k : Ledger) × (s ≡ k ++ (netlink_socket ∷ l))
init-unloaded works l s socket (inl e) =
    subst (Registered l) e (holepunch-Registered works l socket)
init-unloaded works l s socket (inr e) = subst (Registered l) e (eraser-Registered works l socket)

no_socket :
    (works : Resource → Bool) (l : Ledger)
    → works netlink_socket ≡ false
    → dm_holepunch_init works l ≡ unloaded l
unfolding dm_holepunch_init
no_socket works l w = rw w refl

no_socket_eraser :
    (works : Resource → Bool) (l : Ledger)
    → works netlink_socket ≡ false
    → dm_eraser_init works l ≡ unloaded l
unfolding dm_eraser_init
no_socket_eraser works l w = rw w refl

unloaded-loaded_ne : (l s : Ledger) → unloaded l ≢ loaded s
unloaded-loaded_ne l s e = cc

-- When either kernel module is loaded, its exit takes back all that the load registered.
exit-init :
    (works : Resource → Bool) (l s : Ledger)
    → (dm_holepunch_init works l ≡ loaded s) ⊎ (dm_eraser_init works l ≡ loaded s)
    → dm_eraser_exit s ≡ l
exit-init works l s init = elim (Bool-cases (works netlink_socket)) [
  | inl w ↦ elim init [
    | inl e ↦ subst (Registered l) e (holepunch-Registered works l w)
    | inr e ↦ subst (Registered l) e (eraser-Registered works l w)
  ]
  | inr w ↦ elim init [
    | inl e ↦ elim (unloaded-loaded_ne l s (sym (no_socket works l w) ∙ e)) [ ]
    | inr e ↦ elim (unloaded-loaded_ne l s (sym (no_socket_eraser works l w) ∙ e)) [ ]
  ]
]
