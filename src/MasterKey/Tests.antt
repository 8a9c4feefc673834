-- ===== src/MasterKey/Tests.antt =====
-- A device that gets its master key and then a new one.
use secure_deletion.Common.{ℕ, true, ◌+◌, ◌-◌, ◌≡◌, ◌⊎◌, refl, arith, []}
use secure_deletion.MasterKey.{
  Message, msg_get_key, msg_payload, recv_found, recv_list, netlink_recv, begin_set, end_set,
  answer,
}
use secure_deletion.MasterKey.System.{
  System, get_begun, get_unsent, get_posted, key_taken, set_begun, set_posted, served, received,
  Reach, here, later, start, begin_get, post_get, opened, request_set, post_set, serve, receive,
}
use secure_deletion.MasterKey.Protocol.{
  Leads, IsRenewed, IsOpen, IsLost, Reach-known, set-Leads, get-Leads,
}

program : Unit {0}
unfolding recv_found recv_list netlink_recv begin_set end_set answer
program = tt

-- A cipher.
abbrev encrypt : (sec_key key : ℕ) → ℕ
encrypt s k = s + k

abbrev decrypt : (sec_key key : ℕ) → ℕ
decrypt s k = k - s

law : (k : ℕ) → decrypt 5 (encrypt 5 k) ≡ k
law k = omega arith

-- Before the request, after it, with the key on its way, and with the key.
abbrev initial : System
initial = start 1 5 105

abbrev asked : System
asked = post_get encrypt decrypt (begin_get encrypt decrypt initial)

abbrev get_message : (key : ℕ) → Message
get_message key = record { nlmsg_type = msg_get_key; len = msg_payload; name = 1; key = key }

abbrev replied : System
replied = serve encrypt decrypt true (get_message 0) [] asked

abbrev taken : System
taken = receive encrypt decrypt (get_message 105) [] replied

abbrev at_rest : System
at_rest = opened encrypt decrypt taken

-- A new key is requested.
abbrev sending_set : System
sending_set = request_set encrypt decrypt 200 at_rest

abbrev waiting : System
waiting = post_set encrypt decrypt sending_set

asked-Reach : Reach encrypt decrypt initial asked
asked-Reach =
    let begun = begin_get encrypt decrypt initial in
    later _ _ _
      (later _ _ _ (later _ _ _ (here initial) (get_begun initial refl)) (get_unsent begun refl))
      (get_posted begun refl refl)

waiting-Reach : Reach encrypt decrypt initial waiting
unfolding program
waiting-Reach =
    later _ _ _
      (later _ _ _
        (later _ _ _
          (later _ _ _ (later _ _ _ asked-Reach (served true (get_message 0) [] asked refl refl))
            (received (get_message 105) [] replied refl))
          (key_taken taken refl refl))
        (set_begun 200 at_rest refl))
      (set_posted sending_set refl refl)

new_key : ◌≡◌ {A = ℕ} (waiting.dev.master_key) 100
unfolding program
new_key = refl

get-Leads_example :
    Leads encrypt decrypt 3
      (λ u. IsOpen encrypt decrypt 5 asked.nvram u ⊎ IsLost encrypt decrypt u)
      asked
get-Leads_example = get-Leads encrypt decrypt 1 5 105 asked law asked-Reach refl

set-Leads_example :
    Leads encrypt decrypt 3
      (λ u. IsRenewed encrypt decrypt 5 waiting.dev.new_master_key u ⊎ IsLost encrypt decrypt u)
      waiting
set-Leads_example = set-Leads encrypt decrypt 1 5 105 waiting law waiting-Reach refl

Reach-known_example :
    (decrypt 5 waiting.nvram ≡ waiting.dev.master_key)
    ⊎ (decrypt 5 waiting.nvram ≡ waiting.dev.new_master_key)
unfolding program
Reach-known_example = Reach-known encrypt decrypt 1 5 105 waiting law waiting-Reach refl
