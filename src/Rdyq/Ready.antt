-- ===== src/Rdyq/Ready.antt =====
-- The ready queue is consistent: every ready task stands in the line of its priority, the bitmap marks
-- the lines that hold a task, and `top_priority` is the best of them.
use mathlib.Core.Path.{fun_ext}
use ittrium.Common.{ℕ, ◌<◌, ◌≡◌, ◌≢◌, refl, ap, arith, Option, none, some, List, [], ◌∷◌, put}
use ittrium.Node.{Node, null, priq, update, update-elim}
use ittrium.Types.{Config, Kernel}
use ittrium.Queues.{Queues}
use ittrium.Rdyq.Marks.{Marks, IsFirst}

abbrev pub mark : List Node → ℕ
mark [] = 0
mark (x ∷ xs) = 1

-- Which lines hold a task.
abbrev pub marks : (Node → List Node) → ℕ → ℕ
marks items p = mark (items (priq p))

pub marks-update :
    (items : Node → List Node) (p : ℕ) (l : List Node)
    → marks (update items (priq p) l) ≡ put (marks items) p (mark l)
marks-update items p l = fun_ext λ r.
    update-elim (λ y zs. y ≡ priq r → mark zs ≡ put (marks items) p (mark l) r) items (priq p) l
      (priq r) (λ e. let s : p ≡ r = cc e in ground arith)
      (λ n e. let d : p ≢ r = λ s. n (ap priq s) in ground arith) refl

module _ ⦃c : Config⦄ where
  pub record IsReady (s : Kernel) (own : Node → Option Node) (items : Node → List Node)
      : Type 0 where
    pub queues : Queues s.links own items
    pub lines : (p : ℕ) → p < c.tmax_tpri → own (priq p) ≡ some (priq p)
    pub sentinel : s.links.next (priq c.tmax_tpri) ≡ null
    pub loose : own (priq c.tmax_tpri) ≡ none
    pub tskpri : (x : Node) (p : ℕ) → own x ≡ some (priq p) → x ≢ priq p → (s.tcb x).tskpri ≡ p
    pub marked : Marks s.bitmap (marks items)
    pub top : IsFirst (marks items) 0 s.top_priority
