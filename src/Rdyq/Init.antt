-- ===== src/Rdyq/Init.antt =====
-- rdyq_init of kernel/rdyq.h.
use ittrium.Common.{
  ℕ, zero, suc, ◌<◌, ◌≡◌, ◌≢◌, ◌∙◌, refl, sym, ap, subst, arith, Option, none, some, some_inj, [],
  ltb, if◌then◌else◌, lt→ltb, ltb→lt, Bool-cases, inl, inr,
}
use ittrium.Node.{Node, null, priq, update-same, update-other, update-elim}
use ittrium.KQueue.{Links, kqueue_init}
use ittrium.KQueue.Queue.{IsQueue}
use ittrium.Types.{Config, Kernel}
use ittrium.Queues.{Queues}
use ittrium.Rdyq.{init_lines, rdyq_init}
use ittrium.Rdyq.Bits.{bit-zero}
use ittrium.Rdyq.Marks.{Marks}
use ittrium.Rdyq.Ready.{IsReady, marks}

-- Each of the first `n` lines is linked to itself.
init_lines_self :
    (n p : ℕ) (h : Links)
    → p < n
    → ((init_lines n h).next (priq p) ≡ priq p) × ((init_lines n h).prev (priq p) ≡ priq p)
unfolding init_lines kqueue_init
init_lines_self zero p h l = absurd (omega (arith, l))
init_lines_self (suc n) p h l = (
  update-elim (λ y w. y ≡ priq p → w ≡ priq p) (init_lines n h).next (priq n) (priq n) (priq p)
      (λ e. e) (λ d _. (init_lines_self n p h (below d)).0) refl,
  update-elim (λ y w. y ≡ priq p → w ≡ priq p) (init_lines n h).prev (priq n) (priq n) (priq p)
      (λ e. e) (λ d _. (init_lines_self n p h (below d)).1) refl,
)
  where
    below : priq n ≢ priq p → p < n
    below d = let m : n ≢ p = λ e. d (ap priq e) in omega (arith, l, m)

module _ ⦃c : Config⦄ where
  -- Each line stands for itself, and every other address is loose.
  abbrev pub line_heads : Node → Option Node
  line_heads (priq p) = if ltb p c.tmax_tpri then some (priq p) else none
  line_heads _ = none

  heads-inv :
      (x q : Node)
      → line_heads x ≡ some q
      → (p : ℕ) × (x ≡ priq p) × (q ≡ priq p) × (p < c.tmax_tpri)
  heads-inv (priq p) q o = elim (Bool-cases (ltb p c.tmax_tpri)) [
    | inl e ↦
        let a : line_heads (priq p) ≡ some (priq p) = rw e refl in
        (p, refl, sym (some_inj (sym a ∙ o)), ltb→lt _ _ e)
    | inr e ↦ let a : line_heads (priq p) ≡ none = rw e refl in cc (a, o)
  ]
  heads-inv null q o = cc (o)
  heads-inv Node.free_tcb q o = cc (o)
  heads-inv (Node.qnode i) q o = cc (o)
  heads-inv Node.timer_queue q o = cc (o)
  heads-inv (Node.wtmeb i) q o = cc (o)
  heads-inv Node.free_semcb q o = cc (o)
  heads-inv (Node.semq i) q o = cc (o)
  heads-inv (Node.flgq i) q o = cc (o)
  heads-inv (Node.mbxq i) q o = cc (o)

  module _ (s : Kernel) where
    line-IsQueue : (p : ℕ) → p < c.tmax_tpri → IsQueue (rdyq_init s).links (priq p) []
    unfolding rdyq_init
    line-IsQueue p l =
        let (n, v) = init_lines_self c.tmax_tpri p s.links l in
        let d : priq c.tmax_tpri ≢ priq p =
          λ e. let f : c.tmax_tpri ≡ p = cc (e) in omega (arith, f, l) in
        record {
          chain = (
            update-other (init_lines c.tmax_tpri s.links).next (priq c.tmax_tpri) null (priq p) d
                ∙ n,
            v,
          );
          distinct = (tt, tt);
        }

    init-Queues : Queues (rdyq_init s).links line_heads (λ _. [])
    init-Queues = record {
      queue = λ q o.
          let (p, e, _, l) = heads-inv q q o in
          subst (λ y. IsQueue (rdyq_init s).links y []) (sym e) (line-IsQueue p l);
      owned = λ _ _. tt;
      entry = λ x q o d. let (p, e, f, l) = heads-inv x q o in absurd (d (e ∙ sym f));
      headed = λ x q o.
          let (p, e, f, l) = heads-inv x q o in subst (λ y. line_heads y ≡ some q) (e ∙ sym f) o;
    }

    init-marked : Marks (rdyq_init s).bitmap (marks (λ _. []))
    unfolding rdyq_init
    init-marked = record { marked = λ i j l. ground (arith, bit-zero j, l) }

    -- All lines are empty, and no task is ready.
    pub rdyq_init-IsReady : IsReady (rdyq_init s) line_heads (λ _. [])
    unfolding rdyq_init
    rdyq_init-IsReady = record {
      queues = init-Queues;
      lines = λ p l. rw (lt→ltb _ _ l);
      sentinel = update-same (init_lines c.tmax_tpri s.links).next (priq c.tmax_tpri) null;
      loose = ground arith;
      tskpri = λ x p o n. let (q, e, f, l) = heads-inv x (priq p) o in absurd (n (e ∙ sym f));
      marked = init-marked;
      top = record {
        bound = omega arith;
        below = λ _ _ _. refl;
        set = λ l. absurd (omega (arith, l));
      };
    }
