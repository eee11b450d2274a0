-- ===== src/Task/Start.antt =====
-- task_initialize of kernel/task.c and the list of free task blocks.
use ittrium.Common.{
  ℕ, zero, suc, ◌≤◌, ◌≡◌, ◌∙◌, refl, sym, ap, arith, Option, none, some, List, [], ◌∷◌, ◌++◌,
}
use ittrium.Node.{Node, null, priq, qnode, free_tcb, update, update-same, update-other}
use ittrium.KQueue.{kqueue_init}
use ittrium.Types.{Config, Kernel}
use ittrium.Rdyq.{on_links, rdyq_init, rdyq_top}
use ittrium.Rdyq.Ready.{IsReady}
use ittrium.Rdyq.Elsewhere.{insert-elsewhere, init-elsewhere}
use ittrium.Rdyq.Init.{line_heads, rdyq_init-IsReady}
use ittrium.Task.{init_tcb, init_table, tnum_tskid, task_initialize}
use ittrium.Task.Schedule.{IsScheduled, set_tcb-IsReady}

-- The first `n` task blocks.
abbrev pub blocks : ℕ → List Node
blocks zero = []
blocks (suc n) = blocks n ++ qnode n ∷ []

module _ ⦃c : Config⦄ where
  -- The first `n` task blocks stand in the list of free blocks.
  abbrev pub free_blocks : ℕ → Node → Option Node
  free_blocks zero = update line_heads free_tcb (some free_tcb)
  free_blocks (suc n) = update (free_blocks n) (qnode n) (some free_tcb)

  abbrev pub free_items : ℕ → Node → List Node
  free_items zero = update (λ _. []) free_tcb []
  free_items (suc n) = update (free_items n) free_tcb (free_items n free_tcb ++ qnode n ∷ [])

  free_items-blocks : (n : ℕ) → free_items n free_tcb ≡ blocks n
  free_items-blocks zero = update-same (λ _. []) free_tcb []
  free_items-blocks (suc n) =
      update-same (free_items n) free_tcb _ ∙ ap (λ l. l ++ qnode n ∷ []) (free_items-blocks n)

  free-loose : (n i : ℕ) → n ≤ i → free_blocks n (qnode i) ≡ none
  free-loose zero i l = update-other line_heads free_tcb (some free_tcb) (qnode i) (λ e. cc (e))
  free-loose (suc n) i l =
      update-other (free_blocks n) (qnode n) (some free_tcb) (qnode i)
        (λ e. let f : n ≡ i = cc (e) in omega (arith, f, l))
      ∙ free-loose n i (omega (arith, l))

  free-head : (n : ℕ) → free_blocks n free_tcb ≡ some free_tcb
  free-head zero = update-same line_heads free_tcb (some free_tcb)
  free-head (suc n) =
      update-other (free_blocks n) (qnode n) (some free_tcb) free_tcb (λ e. cc (e)) ∙ free-head n

  init_table-IsReady :
      (n : ℕ) (s : Kernel)
      → IsReady s (free_blocks 0) (free_items 0)
      → IsReady (init_table n s) (free_blocks n) (free_items n)
  unfolding init_table init_tcb
  init_table-IsReady zero s k = k
  init_table-IsReady (suc n) s k =
      insert-elsewhere
        (set_tcb-IsReady (init_table n s) (qnode n) _ refl (init_table-IsReady n s k)) (qnode n)
        free_tcb (free-loose n n (omega arith)) (free-head n) (λ e. cc (e)) (λ p e. cc (e))

  init_table-same :
      (n : ℕ) (s : Kernel)
      → ((init_table n s).schedtsk ≡ s.schedtsk)
        × ((init_table n s).runtsk ≡ s.runtsk)
        × ((init_table n s).top_priority ≡ s.top_priority)
  unfolding init_table init_tcb
  init_table-same zero s = (refl, refl, refl)
  init_table-same (suc n) s = init_table-same n s

  -- From any memory, task_initialize leaves the ready queue consistent and empty with no task
  -- scheduled or running, and all task blocks in the list of free ones in the order of their
  -- numbers.
  pub task_initialize-IsScheduled :
      (s : Kernel)
      → IsScheduled (task_initialize s) (free_blocks tnum_tskid) (free_items tnum_tskid)
        × (free_items tnum_tskid free_tcb ≡ blocks tnum_tskid)
        × ((task_initialize s).runtsk ≡ null)
  unfolding task_initialize rdyq_init rdyq_top
  task_initialize-IsScheduled s =
      let s0 = record s { runtsk = null; schedtsk = null } in
      let k0 = init-elsewhere (rdyq_init-IsReady s0) free_tcb refl (λ p e. cc (e)) in
      let s1 = on_links (kqueue_init free_tcb) (rdyq_init s0) in
      let k = init_table-IsReady tnum_tskid s1 k0 in
      let (sched, run, top) = init_table-same tnum_tskid s1 in
      (
        record {
          ready = k;
          sched =
              sched
              ∙ sym (ap (λ r. (init_table tnum_tskid s1).links.next (priq r)) top ∙ k.sentinel);
        },
        free_items-blocks tnum_tskid,
        run,
      )
