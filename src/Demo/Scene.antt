-- ===== src/Demo/Scene.antt =====
-- A kernel whose tables are ready, with one task and a semaphore without resources.
use ittrium.Common.{refl, arith, Option, none, some, List, [], ◌∷◌}
use ittrium.Node.{Node, priq, qnode, free_tcb, timer_queue, semq, update}
use ittrium.KQueue.{kqueue_init, kqueue_remove}
use ittrium.Types.{Kernel, Stat}
use ittrium.Rdyq.{on_links, rdyq_top}
use ittrium.Rdyq.Elsewhere.{init-elsewhere}
use ittrium.Task.{task_initialize, task_make_ready}
use ittrium.Task.Schedule.{IsScheduled, IsReady-same, task_make_ready-IsScheduled}
use ittrium.Task.Start.{free_blocks, free_items, task_initialize-IsScheduled}
use ittrium.Wait.Place.{Place, elsewhere-IsScheduled, remove-IsScheduled}
use ittrium.Demo.{demo_config, zero_kernel, runs}

-- The task table.
abbrev pub start : Kernel
start = task_initialize zero_kernel

pub start-IsScheduled : IsScheduled start (free_blocks 5) (free_items 5)
start-IsScheduled = (task_initialize-IsScheduled zero_kernel).0

-- The timer queue.
abbrev pub timed : Kernel
timed = on_links (kqueue_init timer_queue) start

abbrev pub timed_own : Node → Option Node
timed_own = update (free_blocks 5) timer_queue (some timer_queue)

abbrev pub timed_items : Node → List Node
timed_items = update (free_items 5) timer_queue []

timed-IsScheduled : IsScheduled timed timed_own timed_items
unfolding runs
timed-IsScheduled =
    elsewhere-IsScheduled start-IsScheduled timed
      (init-elsewhere start-IsScheduled.ready timer_queue refl (λ p e. cc (e))) refl refl
      (λ _. refl)

-- The semaphore, without resources.
abbrev pub semaphore : Kernel
semaphore = record (on_links (kqueue_init (semq 0)) timed) {
  obj = λ _. record { objid = 1; objatr = 0; state = Stat.rdy };
  maxsem = λ _. 4;
}

abbrev pub semaphore_own : Node → Option Node
semaphore_own = update timed_own (semq 0) (some (semq 0))

abbrev pub semaphore_items : Node → List Node
semaphore_items = update timed_items (semq 0) []

pub semaphore-IsScheduled : IsScheduled semaphore semaphore_own semaphore_items
unfolding runs rdyq_top
semaphore-IsScheduled =
    let r = init-elsewhere timed-IsScheduled.ready (semq 0) refl (λ p e. cc (e)) in
    elsewhere-IsScheduled timed-IsScheduled semaphore
      (IsReady-same (on_links (kqueue_init (semq 0)) timed) semaphore refl (λ _. refl) refl refl r)
      refl refl (λ _. refl)

-- Task 1 is taken from the free blocks.
abbrev pub created : Kernel
created = on_links (kqueue_remove (qnode 0)) semaphore

abbrev pub created_own : Node → Option Node
created_own = update semaphore_own (qnode 0) none

abbrev pub created_items : Node → List Node
created_items = update semaphore_items free_tcb (qnode 1 ∷ qnode 2 ∷ qnode 3 ∷ qnode 4 ∷ [])

pub created-IsScheduled : IsScheduled created created_own created_items
unfolding runs
created-IsScheduled = remove-IsScheduled semaphore-IsScheduled (qnode 0) (
    Place.within free_tcb [] (qnode 1 ∷ qnode 2 ∷ qnode 3 ∷ qnode 4 ∷ []) refl refl (λ p e. cc (e)))

-- Task 1 is ready, and runs.
abbrev pub ready : Kernel
ready = record (task_make_ready (qnode 0) created) { runtsk = qnode 0 }

abbrev pub ready_own : Node → Option Node
ready_own = update created_own (qnode 0) (some (priq 0))

abbrev pub ready_items : Node → List Node
ready_items = update created_items (priq 0) (qnode 0 ∷ [])

pub ready-IsScheduled : IsScheduled ready ready_own ready_items
unfolding runs rdyq_top
ready-IsScheduled =
    let k =
      task_make_ready-IsScheduled created-IsScheduled (qnode 0) refl (λ e. cc (e)) (omega arith) in
    elsewhere-IsScheduled k ready
      (IsReady-same (task_make_ready (qnode 0) created) ready refl (λ _. refl) refl refl k.ready)
      refl refl (λ _. refl)
