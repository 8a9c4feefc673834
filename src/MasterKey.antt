-- ===== src/MasterKey.antt =====
-- The master key's way between the kernel and the TPM: the messages of
-- holepunch/kernel_module/dm-holepunch-main.c and of the helper process in
-- holepunch/holepunch-userland/src/netlink.c. The cipher under the sector key is a parameter (a key is
-- a number), and so is whether the TPM's NVRAM works. Names are numbers, compared whole.
pub mod System
pub mod Config
pub mod Steps
pub mod Dispatch
pub mod Protocol
mod Tests
use secure_deletion.Common.{
  ℕ, Bool, true, false, Option, none, some, List, [], ◌∷◌, ◌==◌, if◌then◌else◌,
}

-- The part of `struct holepunch_dev` that the messages use, with the flags of master_key_status.
pub record Device : Type 0 where
  pub eraser_name : ℕ
  pub sec_key : ℕ
  pub master_key : ℕ
  pub new_master_key : ℕ
  pub got_key : Bool
  pub get_requested : Bool
  pub set_requested : Bool
  pub ready_to_refresh : Bool

pub data MessageType : Type 0 where
  msg_get_key msg_set_key msg_die msg_unknown : MessageType

pub record Message : Type 0 where
  pub nlmsg_type : MessageType
  pub len : ℕ
  pub name : ℕ
  pub key : ℕ

-- ERASER_MSG_PAYLOAD
abbrev pub msg_payload : ℕ
msg_payload = 48

module _ (encrypt decrypt : (sec_key key : ℕ) → ℕ) where
  -- `eraser_get_master_key`: the message, which has no key.
  abbrev pub get_master_key : Device → Message
  get_master_key d = record {
    nlmsg_type = msg_get_key;
    len = msg_payload;
    name = d.eraser_name;
    key = 0;
  }

  -- `eraser_set_master_key`
  abbrev pub set_master_key : Device → Message
  set_master_key d = record {
    nlmsg_type = msg_set_key;
    len = msg_payload;
    name = d.eraser_name;
    key = encrypt d.sec_key d.new_master_key;
  }

  -- `eraser_netlink_recv` with the device that it has found. What was not requested is dropped.
  abbrev take_key : Message → Device → Device
  take_key m d =
      if d.get_requested
      then record d { get_requested = false; master_key = decrypt d.sec_key m.key; got_key = true }
      else d

  abbrev take_ack : Device → Device
  take_ack d =
      if d.set_requested then record d { set_requested = false; ready_to_refresh = true } else d

  unfoldable pub recv_found : MessageType → Message → Device → Device
  recv_found msg_get_key m d = take_key m d
  recv_found msg_set_key m d = take_ack d
  recv_found msg_die m d = d
  recv_found msg_unknown m d = d

  -- The loop over holepunch_dev_list, up to the first device of that name.
  unfoldable pub recv_list : Message → List Device → List Device
  recv_list m [] = []
  recv_list m (d ∷ ds) =
      let rest = recv_list m ds in
      if d.eraser_name == m.name then recv_found m.nlmsg_type m d ∷ ds else d ∷ rest

  -- `eraser_netlink_recv`
  unfoldable pub netlink_recv : Message → List Device → List Device
  netlink_recv m ds = if m.len == msg_payload then recv_list m ds else ds

  -- `holepunch_tpm_set_master` up to the message that it sends ...
  unfoldable pub begin_set : (new_key : ℕ) → Device → Device
  begin_set new_key d = record d { new_master_key = new_key; set_requested = true }

  -- ... and behind the loop that waits for the flag, which it clears.
  unfoldable pub end_set : Device → Device
  end_set d = record d { ready_to_refresh = false; master_key = d.new_master_key }

-- A round of `enter_netlink_loop`, by the type of the message: the NVRAM afterwards, and the reply, if
-- there is one; without one the helper ends, or goes on after a type that it does not know.
unfoldable pub answer : MessageType → (nvram_ok : Bool) → (nvram : ℕ) → Message → ℕ × Option Message
answer msg_get_key true nvram m = (
  nvram,
  some (record { nlmsg_type = msg_get_key; len = msg_payload; name = m.name; key = nvram }),
)
answer msg_set_key true nvram m =
    (m.key, some (record { nlmsg_type = msg_set_key; len = msg_payload; name = m.name; key = 0 }))
answer _ nvram_ok nvram m = (nvram, none)

-- Whether the helper's loop goes on behind that round.
abbrev pub goes_on : MessageType → (nvram_ok : Bool) → Bool
goes_on msg_get_key nvram_ok = nvram_ok
goes_on msg_set_key nvram_ok = nvram_ok
goes_on msg_die nvram_ok = false
goes_on msg_unknown nvram_ok = true
