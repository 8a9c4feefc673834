-- ===== src/MasterKey/Dispatch.antt =====
-- `eraser_netlink_recv` of dm-holepunch-main.c with many devices: which message changes which.
use secure_deletion.Common.{
  ℕ, false, ◌≡◌, ◌≢◌, refl, arith, ◌⊎◌, inl, inr, List, [], ◌∷◌, ◌==◌, Bool-cases, All, ap,
}
use secure_deletion.MasterKey.{
  Device, Message, MessageType, msg_get_key, msg_set_key, msg_die, msg_unknown, msg_payload,
  recv_found, recv_list, netlink_recv,
}

-- A device that is not named, or waits for nothing.
abbrev pub IsQuiet : Message → Device → Type 0
IsQuiet m d = (d.eraser_name ≢ m.name) ⊎ ((d.get_requested ≡ false) × (d.set_requested ≡ false))

module _ (encrypt decrypt : (sec_key key : ℕ) → ℕ) where
  recv_found-quiet :
      (ty : MessageType) (m : Message) (d : Device)
      → d.get_requested ≡ false
      → d.set_requested ≡ false
      → recv_found encrypt decrypt ty m d ≡ d
  unfolding recv_found
  recv_found-quiet msg_get_key m d get set = simp get refl
  recv_found-quiet msg_set_key m d get set = simp set refl
  recv_found-quiet msg_die m d get set = refl
  recv_found-quiet msg_unknown m d get set = refl

  recv_list-quiet :
      (m : Message) (ds : List Device) → All (IsQuiet m) ds → recv_list encrypt decrypt m ds ≡ ds
  unfolding recv_list
  recv_list-quiet m [] quiet = refl
  recv_list-quiet m (d ∷ ds) (inl ne, rest) =
      let e : (d.eraser_name == m.name) ≡ false = ground arith in
      rw e (ap (λ l. d ∷ l) (recv_list-quiet m ds rest))
  recv_list-quiet m (d ∷ ds) (inr (get, set), rest) = elim (Bool-cases (d.eraser_name == m.name)) [
    | inl e ↦ rw e (ap (λ x. x ∷ ds) (recv_found-quiet m.nlmsg_type m d get set))
    | inr e ↦ rw e (ap (λ l. d ∷ l) (recv_list-quiet m ds rest))
  ]

-- A message, of any type and length, changes no device when every device has another name or has no
-- request pending: unsolicited keys and acknowledgements are dropped.
netlink_recv-quiet :
    (encrypt decrypt : (sec_key key : ℕ) → ℕ) (m : Message) (ds : List Device)
    → All (IsQuiet m) ds
    → netlink_recv encrypt decrypt m ds ≡ ds
unfolding netlink_recv
netlink_recv-quiet encrypt decrypt m ds quiet = elim (Bool-cases (m.len == msg_payload)) [
  | inl e ↦ rw e (recv_list-quiet encrypt decrypt m ds quiet)
  | inr e ↦ rw e refl
]
