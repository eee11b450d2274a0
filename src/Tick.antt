-- ===== src/Tick.antt =====
-- The system tick: timer_handler of kernel/timer.c, timer_hw_enter and timer_hw_exit of
-- config/cpu_generic.c, and the clock of kernel/time_manage.c.
pub mod Nesting
use ittrium.Common.{ℕ, zero, suc, ◌+◌, ◌-◌, ◌%◌, ◌^◌, not, ◌==◌, if◌then◌else◌}
use ittrium.Node.{Node, null, timer_queue}
use ittrium.KQueue
use ittrium.Types.{Config, Kernel, Er, e_ok, Tmeb, Callback}
use ittrium.Rdyq.{set_tcb, on_links}
use ittrium.Task.{node_eq, tnum_tskid}
use ittrium.Timer.{set_tmeb}
use ittrium.Wait.{wait_release_tmout}

unfoldable pub timer_initialize : Kernel → Kernel
timer_initialize s = record (on_links (KQueue.kqueue_init timer_queue) s) {
  timer_nesting = 0;
  st_low = 0;
  st_high = 0;
}

-- UW arithmetic.
abbrev pub inc32 : ℕ → ℕ
inc32 n = (n + 1) % 2 ^ 32

abbrev pub dec32 : ℕ → ℕ
dec32 n = (n + 2 ^ 32 - 1) % 2 ^ 32

unfoldable pub timer_hw_exit : Kernel → Kernel
timer_hw_exit s =
    if not (s.timer_nesting == 0) then record s { timer_nesting = s.timer_nesting - 1 } else s

unfoldable pub count_tick : Kernel → Kernel
count_tick s =
    let s1 = record s { wall_ticks = inc32 s.wall_ticks } in
    if not (node_eq s1.runtsk null)
    then set_tcb s1.runtsk
        (record (s1.tcb s1.runtsk) { run_ticks = inc32 (s1.tcb s1.runtsk).run_ticks }) s1
    else record s1 { idle_ticks = inc32 s1.idle_ticks }

unfoldable pub set_tim : ℕ → ℕ → Kernel → Kernel × Er
set_tim low high s = (record s { st_low = low; st_high = high }, e_ok)

unfoldable pub get_tim : Kernel → Er × ℕ × ℕ
get_tim s = (e_ok, s.st_low, s.st_high)

module _ ⦃c : Config⦄ where
  -- With the nesting count that it returns.
  unfoldable pub timer_hw_enter : Kernel → Kernel × ℕ
  timer_hw_enter s =
      let low = inc32 s.st_low in
      let s1 : Kernel =
        if c.tic_deno == low
        then record s { st_low = 0; st_high = inc32 s.st_high }
        else record s { st_low = low } in
      (record s1 { timer_nesting = s1.timer_nesting + 1 }, s1.timer_nesting)

  unfoldable pub run_callback : Tmeb → Kernel → Kernel
  run_callback e s = elim (e.callback) [
    | Callback.no_callback ↦ s
    | Callback.release_tmout ↦ wait_release_tmout e.arg s
  ]

  -- One round of the loop.
  unfoldable pub tick_event : Node → Kernel → Kernel
  tick_event event s =
      let e = s.tmeb event in
      let s1 = set_tmeb event (record e { count = dec32 e.count }) s in
      if (s1.tmeb event).count == 0
      then run_callback (s1.tmeb event) (on_links (KQueue.kqueue_remove event) s1)
      else s1

  -- The loop of timer_handler from `event` on; it stops when the fuel is out.
  unfoldable pub tick_loop : ℕ → Node → Kernel → Kernel
  tick_loop zero event s = s
  tick_loop (suc fuel) event s =
      let rest = tick_loop fuel (s.links.next event) (tick_event event s) in
      if node_eq event timer_queue then s else rest

  unfoldable pub timer_handler : Kernel → Kernel
  timer_handler s =
      let event = s.links.next timer_queue in
      let (s1, nesting) = timer_hw_enter s in
      if not (nesting == 0)
      then s1
      else timer_hw_exit (tick_loop (tnum_tskid + 1) event (count_tick s1))
