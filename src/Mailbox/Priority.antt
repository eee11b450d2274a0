-- ===== src/Mailbox/Priority.antt =====
-- kqueue_insert_mpri of kernel/mailbox.c: the message queue of a mailbox in priority order.
use ittrium.Common.{ℕ, List, [], ◌∷◌, if◌then◌else◌}
use ittrium.Common.Int.{ℤ, ltb_ℤ}
use ittrium.Node.{Node}
use ittrium.Types.{Config, Kernel}
use ittrium.Mailbox.{MsgAddr, packet, nextmsg, set_nextmsg}

-- The place behind all messages whose priority is as good as that of `m`.
unfoldable pub insert_msg : (ℕ → ℤ) → ℕ → List ℕ → List ℕ
insert_msg pri m [] = m ∷ []
insert_msg pri m (x ∷ xs) =
    let rest = insert_msg pri m xs in if ltb_ℤ (pri m) (pri x) then m ∷ x ∷ xs else x ∷ rest

last_addr : MsgAddr → List ℕ → MsgAddr
last_addr a [] = a
last_addr a (x ∷ xs) = last_addr (packet x) xs

module _ ⦃c : Config⦄ (s : Kernel) (o : Node) where
  written : ℕ → MsgAddr → Kernel
  written m prevmsg = set_nextmsg prevmsg m (set_nextmsg (packet m) (nextmsg prevmsg s) s)
