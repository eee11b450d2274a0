-- ===== src/Dispatch.antt =====
-- dispatch() of config/linux-user/cpu_support.c, as far as it changes kernel variables: the switch of
-- contexts is the change of `runtsk`.
pub mod Running
use ittrium.Common.{not, ◌==◌, ◌&&◌, if◌then◌else◌}
use ittrium.Node.{null}
use ittrium.Types.{Kernel, Er}
use ittrium.Task.{node_eq}

unfoldable pub dispatch : Kernel → Kernel
dispatch s =
    let next = s.schedtsk in
    let prev = s.runtsk in
    if not (s.int_nesting == 0)
    then s
    else if node_eq prev next
    then s
    else if not (node_eq prev null) && not (node_eq next null)
    then record s { runtsk = next }
    else if node_eq prev null && not (node_eq next null)
    then record s { runtsk = next }
    else if not (node_eq prev null) && node_eq next null
    then record s { runtsk = null }
    else s

-- What a service call has to say to its caller: a code at once or as soon as the caller runs again, or
-- the caller's `ercd` as it is when the caller, now switched out, runs again.
pub data Outcome : Type 0 where
  ret : Er → Outcome
  ercd_later : Outcome

-- `dispatch(); return runtsk->ercd;`
unfoldable pub dispatch_ercd : Kernel → Kernel × Outcome
dispatch_ercd s =
    let s1 = dispatch s in
    if node_eq s1.runtsk s.runtsk then (s1, ret (s1.tcb s1.runtsk).ercd) else (s1, ercd_later)

-- `dispatch(); return ercd;`
unfoldable pub dispatch_ret : Er → Kernel → Kernel × Outcome
dispatch_ret e s = (dispatch s, ret e)

-- `if (E_OK == ercd) dispatch(); return ercd;`
unfoldable pub dispatch_if_ok : Kernel × Er → Kernel × Outcome
dispatch_if_ok (s, Er.e_ok) = (dispatch s, ret Er.e_ok)
dispatch_if_ok (s, e) = (s, ret e)
