-- ===== src/Demo/Examples.antt =====
-- The theorems on the kernel of kernel/task.c, kernel/wait.c and kernel/semaphore.c at concrete states.
use ittrium.Common.{◌≡◌, refl, arith, Option, none, some, List, [], ◌∷◌}
use ittrium.Common.Int.{pos}
use ittrium.Node.{Node, null, priq, qnode, wtmeb, free_tcb, timer_queue, semq, update}
use ittrium.Types.{Kernel, Er}
use ittrium.Rdyq.Top.{IsBest}
use ittrium.Task.{task_make_ready, task_make_unready, task_change_pri, task_initialize}
use ittrium.Task.Schedule.{IsScheduled, task_make_ready-IsScheduled, task_make_unready-IsScheduled}
use ittrium.Task.Change.{task_change_pri-IsScheduled}
use ittrium.Task.Start.{task_initialize-IsScheduled, free_blocks, free_items}
use ittrium.Dispatch.{dispatch}
use ittrium.Dispatch.Running.{dispatch-IsBest}
use ittrium.Wait.{wait_release_ok}
use ittrium.Wait.Place.{Place}
use ittrium.Wait.Release.{wait_release_ok-IsScheduled}
use ittrium.Semaphore.{twai_sem, sig_sem_core, pol_sem}
use ittrium.Semaphore.Block.{twai_sem-IsScheduled}
use ittrium.Semaphore.Signal.{sig_sem_core-wakes}
use ittrium.Semaphore.Counts.{sig_sem_core-pol_sem}
use ittrium.Demo.{demo_config, zero_kernel, runs}
use ittrium.Demo.Scene.{
  created, created_own, created_items, created-IsScheduled, ready, ready_own, ready_items,
  ready-IsScheduled,
}

task_make_ready-IsScheduled_example :
    IsScheduled
      (task_make_ready (qnode 0) created)
      (update created_own (qnode 0) (some (priq 0)))
      (update created_items (priq 0) (qnode 0 ∷ []))
unfolding runs
task_make_ready-IsScheduled_example =
    task_make_ready-IsScheduled created-IsScheduled (qnode 0) refl (λ e. cc (e)) (omega arith)

task_make_unready-IsScheduled_example :
    IsScheduled
      (task_make_unready (qnode 0) ready)
      (update ready_own (qnode 0) none)
      (update ready_items (priq 0) [])
unfolding runs
task_make_unready-IsScheduled_example =
    task_make_unready-IsScheduled ready-IsScheduled (qnode 0) [] [] (omega arith) refl

task_change_pri-IsScheduled_example :
    IsScheduled
      (task_change_pri (qnode 0) 5 ready)
      (update (update ready_own (qnode 0) none) (qnode 0) (some (priq 5)))
      (update (update ready_items (priq 0) []) (priq 5) (qnode 0 ∷ []))
unfolding runs
task_change_pri-IsScheduled_example =
    task_change_pri-IsScheduled ready-IsScheduled (qnode 0) 5 [] [] (omega arith) (omega arith) refl

dispatch-IsBest_example : IsBest ready_items (dispatch ready).runtsk
unfolding runs
dispatch-IsBest_example = dispatch-IsBest ready ready-IsScheduled refl

-- The running task waits for the semaphore for 5 ticks at most.
abbrev blocked_own : Node → Option Node
blocked_own =
    update (update (update ready_own (qnode 0) none) (wtmeb 0) (some timer_queue)) (qnode 0)
      (some (semq 0))

abbrev asleep_items : Node → List Node
asleep_items = update (update ready_items (priq 0) []) timer_queue (wtmeb 0 ∷ [])

abbrev blocked_items : Node → List Node
blocked_items = update asleep_items (semq 0) (qnode 0 ∷ [])

abbrev blocked : Kernel
blocked = (twai_sem (pos 1) (pos 5) ready).0

twai_sem-IsScheduled_example : IsScheduled blocked blocked_own blocked_items
unfolding runs
twai_sem-IsScheduled_example =
    twai_sem-IsScheduled ready-IsScheduled (pos 1) (pos 5) refl refl refl refl refl refl refl refl
      (λ e. cc (e)) refl (omega arith) [] [] refl

abbrev freed_own : Node → Option Node
freed_own = update (update blocked_own (wtmeb 0) none) (qnode 0) (some (priq 0))

abbrev no_timers : Node → List Node
no_timers = update blocked_items timer_queue []

sig_sem_core-wakes_example :
    ((sig_sem_core (pos 1) blocked).1 ≡ Er.e_ok)
    × ((sig_sem_core (pos 1) blocked).0.semcnt ≡ blocked.semcnt)
    × IsScheduled
        (sig_sem_core (pos 1) blocked).0
        freed_own
        (update (update no_timers (semq 0) []) (priq 0) (qnode 0 ∷ []))
unfolding runs
sig_sem_core-wakes_example =
    sig_sem_core-wakes twai_sem-IsScheduled_example (pos 1) refl refl refl (qnode 0) [] refl
      (Place.within timer_queue [] [] refl refl (λ p e. cc (e))) (λ e. cc (e)) (λ e. cc (e)) refl
      (omega arith)

wait_release_ok-IsScheduled_example :
    IsScheduled
      (wait_release_ok (qnode 0) blocked)
      freed_own
      (update (update no_timers (semq 0) []) (priq 0) (qnode 0 ∷ []))
unfolding runs
wait_release_ok-IsScheduled_example =
    wait_release_ok-IsScheduled twai_sem-IsScheduled_example (qnode 0)
      (Place.within timer_queue [] [] refl refl (λ p e. cc (e)))
      (Place.within (semq 0) [] [] refl refl (λ p e. cc (e))) refl (λ e. cc (e)) (omega arith)

sig_sem_core-pol_sem_example :
    let s1 = (sig_sem_core (pos 1) ready).0 in
    ((sig_sem_core (pos 1) ready).1 ≡ Er.e_ok)
    × (s1.semcnt (semq 0) ≡ 1)
    × ((pol_sem (pos 1) s1).0.semcnt (semq 0) ≡ 0)
    × (((pol_sem (pos 1) s1).0.tcb (qnode 0)).ercd ≡ Er.e_ok)
unfolding runs
sig_sem_core-pol_sem_example = sig_sem_core-pol_sem (pos 1) ready refl refl refl (omega arith)

task_initialize-IsScheduled_example :
    IsScheduled (task_initialize zero_kernel) (free_blocks 5) (free_items 5)
    × (free_items 5 free_tcb ≡ qnode 0 ∷ qnode 1 ∷ qnode 2 ∷ qnode 3 ∷ qnode 4 ∷ [])
    × ((task_initialize zero_kernel).runtsk ≡ null)
task_initialize-IsScheduled_example = task_initialize-IsScheduled zero_kernel
