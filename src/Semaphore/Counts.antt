-- ===== src/Semaphore/Counts.antt =====
-- The counts of kernel/semaphore.c.
use ittrium.Common.{
  not, ◌+◌, ◌-◌, ◌≤◌, ◌<◌, ◌≡◌, ◌≢◌, ◌∙◌, refl, ap, arith, Bool, true, false, ltb, leb,
  if◌then◌else◌, Bool-cases, inl, inr, if-elim,
}
use ittrium.Common.Int.{ℤ}
use ittrium.Node.{Node, update-same, update-elim}
use ittrium.KQueue.{kqueue_empty}
use ittrium.Types.{Config, Kernel, Stat, Er}
use ittrium.Rdyq.{set_tcb}
use ittrium.Dispatch.Running.{dispatch-parts, dispatch_ercd-state}
use ittrium.Wait.{wait_release_ok}
use ittrium.Wait.Release.{wait_release_ok-counts}
use ittrium.Semaphore.{sig_sem_core, pol_sem, twai_sem, bad_semid, get_semcb_by_id, set_semcnt}

-- No count is above its maximum.
pub record IsBounded (s : Kernel) : Type 0 where
  pub bound : (o : Node) → s.semcnt o ≤ s.maxsem o

abbrev pub is_noexs : Stat → Bool
is_noexs Stat.noexs = true
is_noexs _ = false

module _ ⦃c : Config⦄ (id : ℤ) (s : Kernel) where
  abbrev o : Node
  o = get_semcb_by_id id

  -- What _sig_sem does to an existing semaphore, by its two other tests.
  signal : Kernel × Er
  signal =
      if not (kqueue_empty o s.links)
      then (wait_release_ok (s.links.next o) s, Er.e_ok)
      else if leb (s.maxsem o) (s.semcnt o)
      then (s, Er.e_qovr)
      else (set_semcnt o (s.semcnt o + 1) s, Er.e_ok)

  switched : Stat → Kernel × Er
  switched st = elim st [ Stat.noexs ↦ (s, Er.e_obj) | _ ↦ signal ]

  switched-if : (st : Stat) → switched st ≡ (if is_noexs st then (s, Er.e_obj) else signal)
  unfolding switched
  switched-if Stat.noexs = refl
  switched-if Stat.run = refl
  switched-if Stat.rdy = refl
  switched-if Stat.wai = refl
  switched-if Stat.sus = refl
  switched-if Stat.was = refl
  switched-if Stat.dmt = refl

  -- The tests of _sig_sem in a row.
  sig_sem_core-if : sig_sem_core id s ≡ (
      if bad_semid id
      then (s, Er.e_id)
      else if is_noexs (s.obj o).state
      then (s, Er.e_obj)
      else signal)
  unfolding sig_sem_core switched signal
  sig_sem_core-if = elim (Bool-cases (bad_semid id)) [
    | inl e ↦ rw e
    | inr e ↦ rw e (switched-if (s.obj o).state)
  ]

  abbrev Fine : Kernel × Er → Type 0
  Fine r = IsBounded r.0

  -- If no count of a semaphore is above its maximum, none is after _sig_sem, whatever its ID and
  -- result.
  pub sig_sem_core-IsBounded : IsBounded s → IsBounded (sig_sem_core id s).0
  unfolding signal
  sig_sem_core-IsBounded k = rw sig_sem_core-if (
      if-elim Fine (bad_semid id) (λ _. k)
        (λ _.
          if-elim Fine (is_noexs (s.obj o).state) (λ _. k)
            (λ _.
              if-elim Fine (not (kqueue_empty o s.links))
                (λ _.
                  let (a, b) = wait_release_ok-counts (s.links.next o) s in
                  record { bound = λ x. rw (ap (λ f. f x) a, ap (λ f. f x) b) (k.bound x) })
                (λ _.
                  if-elim Fine (leb (s.maxsem o) (s.semcnt o)) (λ _. k)
                    (λ e. record {
                      bound = λ x.
                          update-elim (λ y n. n ≤ s.maxsem y) s.semcnt o (s.semcnt o + 1) x
                            (ground arith) (λ _. k.bound x);
                    })))))

  abbrev Kept : Kernel × Er → Type 0
  Kept r = r.1 ≢ Er.e_ok → r.0 ≡ s

  -- A _sig_sem that returns anything but E_OK leaves the kernel as it was.
  pub sig_sem_core-error : (sig_sem_core id s).1 ≢ Er.e_ok → (sig_sem_core id s).0 ≡ s
  unfolding signal
  sig_sem_core-error = rw sig_sem_core-if (
      if-elim Kept (bad_semid id) (λ _ _. refl)
        (λ _.
          if-elim Kept (is_noexs (s.obj o).state) (λ _ _. refl)
            (λ _.
              if-elim Kept (not (kqueue_empty o s.links)) (λ _ n. absurd (n refl))
                (λ _.
                  if-elim Kept (leb (s.maxsem o) (s.semcnt o)) (λ _ _. refl)
                    (λ _ n. absurd (n refl))))))

  -- The state with the count raised.
  abbrev u : Kernel
  u = set_semcnt o (s.semcnt o + 1) s

  sig_sem_core-counted :
      bad_semid id ≡ false
      → (s.obj o).state ≡ Stat.rdy
      → kqueue_empty o s.links ≡ true
      → s.semcnt o < s.maxsem o
      → sig_sem_core id s ≡ (u, Er.e_ok)
  unfolding signal
  sig_sem_core-counted good exists empty below =
      let room : leb (s.maxsem o) (s.semcnt o) ≡ false = ground (arith, below) in
      sig_sem_core-if ∙ rw (good, exists, empty, room)

  -- The state once a poll has taken one.
  abbrev w : Kernel
  w =
      set_tcb s.runtsk (record (u.tcb s.runtsk) { ercd = Er.e_ok })
        (set_semcnt o (u.semcnt o - 1) u)

  pol_sem-counted :
      bad_semid id ≡ false
      → (s.obj o).state ≡ Stat.rdy
      → ltb 0 (u.semcnt o) ≡ true
      → ((pol_sem id u).0.semcnt ≡ w.semcnt) × ((pol_sem id u).0.tcb ≡ w.tcb)
  unfolding pol_sem twai_sem
  pol_sem-counted good exists some =
      let (_, t, _, _, _, n, _, _) = dispatch-parts w in
      let d = dispatch_ercd-state w in
      rw (good, exists, some) (ap (λ v. v.semcnt) d ∙ n, ap (λ v. v.tcb) d ∙ t)

  -- On an existing semaphore with a valid ID, no waiting task and a count below its maximum,
  -- _sig_sem returns E_OK and raises the count by one, and a pol_sem after it leaves E_OK for the
  -- running task and the count that there was before.
  pub sig_sem_core-pol_sem :
      bad_semid id ≡ false
      → (s.obj o).state ≡ Stat.rdy
      → kqueue_empty o s.links ≡ true
      → s.semcnt o < s.maxsem o
      → let s1 = (sig_sem_core id s).0 in
        ((sig_sem_core id s).1 ≡ Er.e_ok)
        × (s1.semcnt o ≡ s.semcnt o + 1)
        × ((pol_sem id s1).0.semcnt o ≡ s.semcnt o)
        × (((pol_sem id s1).0.tcb s.runtsk).ercd ≡ Er.e_ok)
  sig_sem_core-pol_sem good exists empty below =
      let n = s.semcnt o in
      let raised : u.semcnt o ≡ n + 1 = update-same s.semcnt o (n + 1) in
      let taken = update-same u.semcnt o (u.semcnt o - 1) in
      let poll = pol_sem-counted good exists (ground (arith, raised)) in
      rw (sig_sem_core-counted good exists empty below) (
        refl,
        raised,
        ap (λ f. f o) poll.0 ∙ taken ∙ omega (arith, raised),
        ap (λ f. (f s.runtsk).ercd) poll.1
            ∙ ap (λ b. b.ercd)
                (update-same u.tcb s.runtsk (record (u.tcb s.runtsk) { ercd = Er.e_ok })),
      )
