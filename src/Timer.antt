-- ===== src/Timer.antt =====
-- kernel/timer.h and the queue side of kernel/timer.c: arming and disarming a timer event. TMO is a
-- 16-bit signed number and RELTIM a 32-bit unsigned one (config/linux-user/cpu_support.h).
use ittrium.Common.{ℕ, zero, ◌-◌, ◌%◌, ◌^◌, Bool, true, false, leb, if◌then◌else◌}
use ittrium.Common.Int.{ℤ, pos, negsuc}
use ittrium.Node.{Node, timer_queue, update}
use ittrium.KQueue
use ittrium.Types.{Kernel, Tmeb, Callback}
use ittrium.Rdyq.{on_links}

abbrev pub tmo_pol : ℤ
tmo_pol = pos 0

abbrev pub tmo_fevr : ℤ
tmo_fevr = negsuc 0

abbrev pub is_pol : ℤ → Bool
is_pol (pos zero) = true
is_pol _ = false

abbrev pub is_fevr : ℤ → Bool
is_fevr (negsuc zero) = true
is_fevr _ = false

-- The conversion of a TMO to RELTIM.
abbrev pub to_reltim : ℤ → ℕ
to_reltim (pos n) = n
to_reltim (negsuc n) = 2 ^ 32 - 1 - n

-- The conversion of a RELTIM to TMO: the low 16 bits, read as a signed number.
unfoldable pub to_tmo : ℕ → ℤ
to_tmo r = let w = r % 65536 in if leb w 32767 then pos w else negsuc (65535 - w)

abbrev pub set_tmeb : Node → Tmeb → Kernel → Kernel
set_tmeb e t s = record s { tmeb = update s.tmeb e t }

-- The three members that timer_insert may set.
abbrev pub armed : ℕ → Callback → Node → Tmeb
armed n f a = record { count = n; callback = f; arg = a }

unfoldable pub enqueue_tmeb : Node → Kernel → Kernel
enqueue_tmeb event s = on_links (KQueue.kqueue_insert event timer_queue) s

unfoldable pub timer_insert : Node → ℤ → Callback → Node → Kernel → Kernel
timer_insert event tmout callback arg s =
    let s1 = set_tmeb event (armed (s.tmeb event).count callback arg) s in
    if is_fevr tmout
    then on_links (KQueue.kqueue_init event) s1
    else enqueue_tmeb event (set_tmeb event (armed (to_reltim tmout) callback arg) s1)

unfoldable pub timer_delete : Node → Kernel → Kernel
timer_delete event s = on_links (KQueue.kqueue_remove event) s
