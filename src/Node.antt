-- ===== src/Node.antt =====
-- The addresses of the kernel's queue nodes (kernel/kqueue.h, `KQUEUE`). Every KQUEUE that the
-- kernel declares is a constructor: the ready lines and the null entry behind them (kernel/rdyq.h),
-- the list of free task blocks, each task block's `qnode` and timer event (kernel/task.h), the timer
-- queue (kernel/timer.c) and the wait queue of each semaphore, eventflag and mailbox block.
-- A `TCB *` is the address of its first member `qnode`, and an `OBJCB *` that of its `waitq`.
use mathlib.Core.Path.{fun_ext}
use ittrium.Common.{ℕ, ite, ◌≡◌, ◌≢◌, ◌∙◌, refl, sym, subst, arith, ℕ_discrete}

pub data Node : Type 0 where
  null : Node
  priq : ℕ → Node
  free_tcb : Node
  qnode : ℕ → Node
  timer_queue : Node
  wtmeb : ℕ → Node
  free_semcb : Node
  semq : ℕ → Node
  flgq : ℕ → Node
  mbxq : ℕ → Node

unfoldable pub node_discrete : Discrete Node
unfolding ℕ_discrete
node_discrete = hlevel ℕ_discrete

-- A write of `v` at the address `a`.
unfoldable pub update {ℓ} : {A : Type ℓ} → (Node → A) → Node → A → Node → A
update f a v x = ite (node_discrete a x) v (f x)

pub update-same {ℓ} : {A : Type ℓ} (f : Node → A) (a : Node) (v : A) → update f a v a ≡ v
unfolding update
update-same f a v = ground arith

pub update-other {ℓ} :
    {A : Type ℓ} (f : Node → A) (a : Node) (v : A) (x : Node) → a ≢ x → update f a v x ≡ f x
unfolding update
update-other f a v x n = ground arith

-- A property of every cell after a write: of the new value at the address, of the old ones elsewhere.
pub update-elim {ℓ κ} :
    {A : Type ℓ} (P : Node → A → Type κ) (f : Node → A) (a : Node) (v : A) (x : Node)
    → P a v
    → (a ≢ x → P x (f x))
    → P x (update f a v x)
update-elim P f a v x same other = elim (node_discrete a x) [
  | yes s ↦ subst (λ y. P y (update f a v y)) s (rw (update-same f a v) same)
  | no n ↦ rw (update-other f a v x n) (other n)
]

pub update-update {ℓ} :
    {A : Type ℓ} (f : Node → A) (a : Node) (v w : A) → update (update f a v) a w ≡ update f a w
update-update f a v w = fun_ext λ x.
    update-elim (λ y z. z ≡ update f a w y) (update f a v) a w x (sym (update-same f a w))
      (λ n. update-other f a v x n ∙ sym (update-other f a w x n))

pub update-id {ℓ} : {A : Type ℓ} (f : Node → A) (a : Node) (v : A) → f a ≡ v → update f a v ≡ f
update-id f a v e = fun_ext λ x. update-elim (λ y z. z ≡ f y) f a v x (sym e) (λ _. refl)
