-- ===== src/Mailbox/Fifo.antt =====
-- The message queue of a mailbox of kernel/mailbox.c whose messages are in the order of their arrival.
use ittrium.Common.{
  ℕ, ◌≡◌, ◌≢◌, ◌∙◌, refl, sym, ap, subst, arith, true, false, List, [], ◌∷◌, ◌++◌, ◌==◌, put, NotIn,
  Distinct, Distinct-snoc,
}
use ittrium.Common.Int.{ℤ}
use ittrium.Node.{Node, update-same}
use ittrium.Types.{Config, Kernel, e_ok}
use ittrium.Dispatch.{ret}
use ittrium.Mailbox.{link_last, receive}

-- The packets `ms` are linked from `a` on, and the last link is null.
abbrev pub IsLinked : (ℕ → ℕ) → ℕ → List ℕ → Type 0
IsLinked next a [] = a ≡ 0
IsLinked next a (m ∷ ms) = (a ≡ m) × (m ≢ 0) × IsLinked next (next m) ms

abbrev pub last_msg : ℕ → List ℕ → ℕ
last_msg m [] = m
last_msg m (x ∷ xs) = last_msg x xs

-- The pointer to the end counts only if there is a message.
abbrev pub IsTail : ℕ → List ℕ → Type 0
IsTail t [] = Unit
IsTail t (m ∷ ms) = t ≡ last_msg m ms

-- The mailbox `o` holds the messages `ms`.
pub record IsHolding (s : Kernel) (o : Node) (ms : List ℕ) : Type 0 where
  pub linked : IsLinked s.msg_next (s.mq_head o) ms
  pub tail : IsTail (s.mq_tail o) ms
  pub distinct : Distinct ms

pub last_msg-other : (x m : ℕ) (xs : List ℕ) → x ≢ m → NotIn m xs → last_msg x xs ≢ m
last_msg-other x m [] n out = n
last_msg-other x m (y ∷ ys) n out = last_msg-other y m ys out.0 out.1

last_msg-snoc : (x m : ℕ) (xs : List ℕ) → last_msg x (xs ++ m ∷ []) ≡ m
last_msg-snoc x m [] = refl
last_msg-snoc x m (y ∷ ys) = last_msg-snoc y m ys

IsLinked-snoc :
    (next : ℕ → ℕ) (a x m : ℕ) (xs : List ℕ)
    → m ≢ 0
    → Distinct (x ∷ xs)
    → NotIn m (x ∷ xs)
    → IsLinked next a (x ∷ xs)
    → IsLinked (put (put next m 0) (last_msg x xs) m) a (x ∷ xs ++ m ∷ [])
IsLinked-snoc next a x m [] nz d out l = (l.0, l.1, (ground arith, nz, ground (arith, out.0)))
IsLinked-snoc next a x m (y ∷ ys) nz d out l =
    let n = last_msg-other y x ys d.0.0 d.0.1 in
    let keeps : put (put next m 0) (last_msg y ys) m x ≡ next x = ground (arith, n, out.0) in
    let rest = IsLinked-snoc next (next x) y m ys nz d.1 out.1 l.2 in
    (
      l.0,
      l.1,
      subst (λ b. IsLinked (put (put next m 0) (last_msg y ys) m) b (y ∷ ys ++ m ∷ [])) (sym keeps)
          rest,
    )

module _ ⦃c : Config⦄ (s : Kernel) (o : Node) where
  -- If a mailbox holds messages and m is another packet that is not null, linking m in order of
  -- arrival leaves the mailbox with these messages and m behind them.
  pub link_last-IsHolding :
      (ms : List ℕ) (m : ℕ)
      → m ≢ 0
      → NotIn m ms
      → IsHolding s o ms
      → IsHolding (link_last o m s) o (ms ++ m ∷ [])
  unfolding link_last
  link_last-IsHolding [] m nz out k =
      let e : s.mq_head o == 0 ≡ true = ground (arith, k.linked) in
      rw e (record {
        linked = (update-same s.mq_head o m, nz, ground arith);
        tail = update-same s.mq_tail o m;
        distinct = (tt, tt);
      })
  link_last-IsHolding (x ∷ xs) m nz out k =
      let e : s.mq_head o == 0 ≡ false = ground (arith, k.linked.0, k.linked.1) in
      rw e (record {
        linked =
            subst (λ t. IsLinked (put (put s.msg_next m 0) t m) (s.mq_head o) (x ∷ xs ++ m ∷ []))
              (sym k.tail)
              (IsLinked-snoc s.msg_next (s.mq_head o) x m xs nz k.distinct out k.linked);
        tail = update-same s.mq_tail o m ∙ sym (last_msg-snoc x m xs);
        distinct = Distinct-snoc m (x ∷ xs) k.distinct out;
      })

  IsTail-rest : (t m : ℕ) (ms : List ℕ) → IsTail t (m ∷ ms) → IsTail t ms
  IsTail-rest t m [] h = tt
  IsTail-rest t m (x ∷ xs) h = h

  -- A receive on a mailbox that holds the message m and others behind it stores m at the address of
  -- the caller, returns E_OK, and leaves the mailbox with the others in their order.
  pub receive-IsHolding :
      (m : ℕ) (ms : List ℕ) (p : ℕ) (tmout : ℤ)
      → IsHolding s o (m ∷ ms)
      → let s' = (receive o p tmout s).0 in
        ((receive o p tmout s).1 ≡ ret e_ok) × (s'.msg_mem p ≡ m) × IsHolding s' o ms
  unfolding receive
  receive-IsHolding m ms p tmout k =
      let h : s.mq_head o ≡ m = k.linked.0 in
      let e : s.mq_head o == 0 ≡ false = ground (arith, h, k.linked.1) in
      let head = update-same s.mq_head o (s.msg_next (s.mq_head o)) ∙ ap s.msg_next h in
      rw e (
        refl,
        ground (arith, h),
        record {
          linked = subst (λ a. IsLinked s.msg_next a ms) (sym head) k.linked.2;
          tail = IsTail-rest (s.mq_tail o) m ms k.tail;
          distinct = k.distinct.1;
        },
      )
