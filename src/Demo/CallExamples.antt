-- ===== src/Demo/CallExamples.antt =====
-- The theorems on service calls, ticks, wait queues in priority order and messages at concrete states.
use ittrium.Common.{◌==◌, if◌then◌else◌, ℕ, ◌≡◌, refl, arith, none, some, [], ◌∷◌}
use ittrium.Common.Int.{pos}
use ittrium.Node.{free_tcb, Node, priq, qnode, semq, mbxq, update}
use ittrium.KQueue.{kqueue_init, kqueue_insert}
use ittrium.KQueue.Queue.{IsQueue, kqueue_insert-append}
use ittrium.KQueue.Remove.{kqueue_init-IsQueue}
use ittrium.Types.{Kernel, Stat, e_ok}
use ittrium.Rdyq.Top.{IsBest}
use ittrium.Task.{task_make_dormant}
use ittrium.Task.Schedule.{IsScheduled, set_tcb-IsScheduled}
use ittrium.Dispatch.{ret}
use ittrium.Manage.{act_tsk, ext_tsk, cre_tsk}
use ittrium.Manage.Create.{cre_tsk-IsScheduled}
use ittrium.Manage.Activate.{act_tsk-IsScheduled, ext_tsk-IsScheduled}
use ittrium.Synch.{suspend, resume}
use ittrium.Synch.Suspend.{suspend-resume_twice}
use ittrium.Wait.{kqueue_insert_pri}
use ittrium.Wait.Priority.{insert_by, IsSorted, kqueue_insert_pri-IsSorted}
use ittrium.Mailbox.{link_last, receive}
use ittrium.Mailbox.Fifo.{IsHolding, link_last-IsHolding, receive-IsHolding}
use ittrium.Demo.{init_task, demo_config, zero_kernel, runs}
use ittrium.Demo.Scene.{
  semaphore, semaphore_own, semaphore_items, semaphore-IsScheduled, created, created_own,
  created_items, created-IsScheduled, ready, ready_own, ready_items, ready-IsScheduled,
}

-- Task 1 is dormant.
abbrev dormant : Kernel
dormant = task_make_dormant (qnode 0) created

dormant-IsScheduled : IsScheduled dormant created_own created_items
unfolding runs
dormant-IsScheduled =
    set_tcb-IsScheduled created (qnode 0) (dormant.tcb (qnode 0)) refl created-IsScheduled

act_tsk-IsScheduled_example :
    ((act_tsk (pos 1) dormant).1 ≡ ret e_ok)
    × IsScheduled
        (act_tsk (pos 1) dormant).0
        (update created_own (qnode 0) (some (priq 0)))
        (update created_items (priq 0) (qnode 0 ∷ []))
    × IsBest (update created_items (priq 0) (qnode 0 ∷ [])) (act_tsk (pos 1) dormant).0.runtsk
unfolding runs
act_tsk-IsScheduled_example =
    act_tsk-IsScheduled dormant-IsScheduled (pos 1) refl refl refl (λ e. cc (e)) (omega arith) refl

ext_tsk-IsScheduled_example :
    IsScheduled (ext_tsk ready) (update ready_own (qnode 0) none) (update ready_items (priq 0) [])
    × IsBest (update ready_items (priq 0) []) (ext_tsk ready).runtsk
unfolding runs
ext_tsk-IsScheduled_example =
    ext_tsk-IsScheduled ready-IsScheduled [] [] (omega arith) refl refl refl

suspend-resume_twice_example :
    ((resume (qnode 0) (resume (qnode 0) (suspend (qnode 0) (suspend (qnode 0) ready)))).tcb
      (qnode 0)).state
    ≡ Stat.wai
unfolding runs
suspend-resume_twice_example = suspend-resume_twice (qnode 0) ready refl refl

abbrev nested : Kernel
nested = record ready { timer_nesting = 1 }

abbrev one : Kernel
one = record zero_kernel {
  links = kqueue_insert (qnode 0) (semq 0) (kqueue_init (semq 0) zero_kernel.links);
}

kqueue_insert_pri-IsSorted_example :
    let pri : Node → ℕ = λ x. (one.tcb x).tskpri in
    let new = insert_by pri (qnode 1) (qnode 0 ∷ []) in
    IsQueue (kqueue_insert_pri (qnode 1) (semq 0) one).links (semq 0) new × IsSorted pri new
unfolding IsSorted
kqueue_insert_pri-IsSorted_example =
    kqueue_insert_pri-IsSorted one (semq 0) (qnode 1) (qnode 0 ∷ []) (omega arith)
      ((λ e. cc (e)), ((λ e. cc (e)), tt))
      (kqueue_insert-append (kqueue_init (semq 0) zero_kernel.links) (qnode 0) (semq 0) []
        ((λ e. cc (e)), tt) (kqueue_init-IsQueue zero_kernel.links (semq 0)))
      (tt, tt)

abbrev sent : Kernel
sent = link_last (mbxq 0) 7 zero_kernel

link_last-IsHolding_example : IsHolding sent (mbxq 0) (7 ∷ [])
link_last-IsHolding_example =
    link_last-IsHolding zero_kernel (mbxq 0) [] 7 (omega arith) tt
      (record { linked = refl; tail = tt; distinct = tt })

receive-IsHolding_example :
    let s' = (receive (mbxq 0) 2 (pos 0) sent).0 in
    ((receive (mbxq 0) 2 (pos 0) sent).1 ≡ ret e_ok) × (s'.msg_mem 2 ≡ 7) × IsHolding s' (mbxq 0) []
receive-IsHolding_example =
    receive-IsHolding sent (mbxq 0) 7 [] 2 (pos 0) link_last-IsHolding_example

cre_tsk-IsScheduled_example :
    let s' = (cre_tsk (pos 1) init_task semaphore).0 in
    ((cre_tsk (pos 1) init_task semaphore).1 ≡ e_ok)
    × ((s'.tcb (qnode 0)).state ≡ Stat.dmt)
    × ((s'.tcb (qnode 0)).tskpri ≡ 0)
    × IsScheduled s'
        (update semaphore_own (qnode 0) none)
        (update semaphore_items free_tcb (qnode 1 ∷ qnode 2 ∷ qnode 3 ∷ qnode 4 ∷ []))
unfolding runs
cre_tsk-IsScheduled_example =
    cre_tsk-IsScheduled (pos 1) init_task semaphore semaphore-IsScheduled refl refl (omega arith) []
      (qnode 1 ∷ qnode 2 ∷ qnode 3 ∷ qnode 4 ∷ []) refl refl

-- The message 7 waits with priority 3, and 8 comes with priority 2.
abbrev posted : Kernel
posted = record zero_kernel { mq_head = λ _. 7; msgpri = λ m. if m == 7 then pos 3 else pos 2 }
