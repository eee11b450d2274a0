-- ===== src/Synch/Suspend.antt =====
-- sus_tsk and rsm_tsk of kernel/tsk_dep_syn.c on the state of a task.
use ittrium.Common.{ℕ, ◌+◌, ◌-◌, ◌≡◌, ◌≢◌, ◌∙◌, ap, arith, true, false, ◌==◌}
use ittrium.Node.{Node, update-same}
use ittrium.Types.{Config, Kernel, Tcb, Stat}
use ittrium.Rdyq.{set_tcb}
use ittrium.Task.{task_make_unready}
use ittrium.Wait.Block.{make_unready-parts}
use ittrium.Synch.{suspend, resume}

module _ ⦃c : Config⦄ (t : Node) (s : Kernel) where
  abbrev b : Tcb
  b = s.tcb t

  abbrev more : Tcb
  more = record b { suscnt = b.suscnt + 1 }

  abbrev counted : Kernel
  counted = set_tcb t more s

  counted-tcb : counted.tcb t ≡ more
  counted-tcb = update-same s.tcb t more

  -- The state and the suspension count of a block.
  abbrev Shows : Tcb → Stat → ℕ → Type 0
  Shows w st n = (w.state ≡ st) × (w.suscnt ≡ n)

  suspend-rdy : b.state ≡ Stat.rdy → Shows ((suspend t s).tcb t) Stat.sus (b.suscnt + 1)
  unfolding suspend
  suspend-rdy e =
      let q : (counted.tcb t).state ≡ Stat.rdy = ap (λ w. w.state) counted-tcb ∙ e in
      let b2 : Tcb = record (counted.tcb t) { state = Stat.sus } in
      let s2 : Kernel = set_tcb t b2 counted in
      let (p, _, _, _) = make_unready-parts t s2 in
      let r : (task_make_unready t s2).tcb t ≡ b2 =
        ap (λ f. f t) p ∙ update-same counted.tcb t b2 in
      rw (q, suspend) (ap (λ w. w.state) r, ap (λ w. w.suscnt) r ∙ ap (λ w. w.suscnt) counted-tcb)

  suspend-sus : b.state ≡ Stat.sus → Shows ((suspend t s).tcb t) Stat.was (b.suscnt + 1)
  unfolding suspend
  suspend-sus e =
      let q : (counted.tcb t).state ≡ Stat.sus = ap (λ w. w.state) counted-tcb ∙ e in
      let b2 : Tcb = record (counted.tcb t) { state = Stat.was } in
      let r = update-same counted.tcb t b2 in
      rw (q, suspend) (ap (λ w. w.state) r, ap (λ w. w.suscnt) r ∙ ap (λ w. w.suscnt) counted-tcb)

  abbrev less : Tcb
  less = record b { suscnt = b.suscnt - 1 }

  abbrev lowered : Kernel
  lowered = set_tcb t less s

  lowered-tcb : lowered.tcb t ≡ less
  lowered-tcb = update-same s.tcb t less

  resume-more : b.suscnt ≢ 1 → Shows ((resume t s).tcb t) b.state (b.suscnt - 1)
  unfolding resume
  resume-more n =
      let q : b.suscnt == 1 ≡ false = ground (arith, n) in
      rw q (ap (λ w. w.state) lowered-tcb, ap (λ w. w.suscnt) lowered-tcb)

  resume-was : b.suscnt ≡ 1 → b.state ≡ Stat.was → Shows ((resume t s).tcb t) Stat.wai 0
  unfolding resume
  resume-was e w =
      let q : b.suscnt == 1 ≡ true = ground (arith, e) in
      let u : (lowered.tcb t).state ≡ Stat.was = ap (λ w. w.state) lowered-tcb ∙ w in
      let b2 : Tcb = record (lowered.tcb t) { state = Stat.wai } in
      let r = update-same lowered.tcb t b2 in
      rw (q, u, resume)
        (
          ap (λ w. w.state) r,
          ap (λ w. w.suscnt) r ∙ ap (λ w. w.suscnt) lowered-tcb ∙ omega (arith, e),
        )

module _ ⦃c : Config⦄ where
  -- A ready task without suspensions that is suspended twice and resumed twice ends in the waiting
  -- state.
  pub suspend-resume_twice :
      (t : Node) (s : Kernel)
      → (s.tcb t).state ≡ Stat.rdy
      → (s.tcb t).suscnt ≡ 0
      → ((resume t (resume t (suspend t (suspend t s)))).tcb t).state ≡ Stat.wai
  suspend-resume_twice t s ready none =
      let s1 = suspend t s in
      let s2 = suspend t s1 in
      let s3 = resume t s2 in
      let (a1, n1) = suspend-rdy t s ready in
      let (a2, n2) = suspend-sus t s1 a1 in
      let (a3, n3) = resume-more t s2 (λ e. omega (arith, e, n2, n1, none)) in
      let (a4, _) = resume-was t s3 (omega (arith, n3, n2, n1, none)) (a3 ∙ a2) in a4
