-- ===== src/Procfs/Bounds.antt =====
-- The lengths of the texts of services/proc/procfs.c and their buffer.
use ittrium.Common.{
  ℕ, zero, suc, ◌+◌, ◌≤◌, ◌<◌, ◌≡◌, subst, sym, arith, Bool, true, false, Option, some, [], ◌∷◌,
  ◌++◌, length, length-append, ltb, leb, ◌==◌, if◌then◌else◌, if-elim, Bool-cases, inl, inr,
  some_inj,
}
use ittrium.Text.{Text, text_eq}
use ittrium.FileOps.{Bytes}
use ittrium.Node.{null, qnode}
use ittrium.Types.{Config, Kernel, Tcb}
use ittrium.Task.{node_eq}
use ittrium.Procfs.Format.{append_str, append_uint, append_field, append_uint_field, decimal}
use ittrium.Procfs.Tables.{
  ProcEnv, tasks_head, task_row, task_rows, not_created, running_row, gen_ticks, gen_mem, gen_stat,
  irq_rows, gen_interrupts, gen_version, gen_tasks, gen_file,
}

module _ (cap : ℕ) where
  abbrev Fits : Text → Type 0
  Fits b = length b < cap

  append_str-Fits : (s buf : Text) → Fits buf → Fits (append_str cap buf s)
  unfolding append_str
  append_str-Fits [] buf f = f
  append_str-Fits (c ∷ s) buf f =
      append_str-Fits s (if ltb (length buf + 1) cap then buf ++ c ∷ [] else buf) (
        if-elim (λ (b : Text). length b < cap) (ltb (length buf + 1) cap)
          (λ e.
            let n = length-append {0} buf (c ∷ []) in
            subst (λ k. k < cap) (sym n) (ground (arith, e)))
          (λ _. f))

  append_uint-Fits : (v : ℕ) (buf : Text) → Fits buf → Fits (append_uint cap buf v)
  unfolding append_uint
  append_uint-Fits v buf f = append_str-Fits (decimal 16 v) buf f

  append_field-Fits :
      (s : Text) (width : ℕ) (right : Bool) (buf : Text)
      → Fits buf
      → Fits (append_field cap buf s width right)
  unfolding append_field
  append_field-Fits s width true buf f = append_str-Fits _ _ (append_str-Fits _ buf f)
  append_field-Fits s width false buf f = append_str-Fits _ _ (append_str-Fits _ buf f)

  -- A column and what stands behind it.
  cell-Fits :
      (s : Text) (width : ℕ) (right : Bool) (t buf : Text)
      → Fits buf
      → Fits (append_str cap (append_field cap buf s width right) t)
  cell-Fits s width right t buf f = append_str-Fits t _ (append_field-Fits s width right buf f)

  number-Fits :
      (v width : ℕ) (t buf : Text)
      → Fits buf
      → Fits (append_str cap (append_uint_field cap buf v width) t)
  unfolding append_uint_field
  number-Fits v width t buf f = cell-Fits (decimal 16 v) width true t buf f

  tasks_head-Fits : 1 ≤ cap → Fits (tasks_head cap)
  unfolding tasks_head
  tasks_head-Fits l = cell-Fits _ _ _ _ _ (
      cell-Fits _ _ _ _ _ (
        cell-Fits _ _ _ _ _ (
          cell-Fits _ _ _ _ _
            (cell-Fits _ _ _ _ _ (cell-Fits _ _ _ _ _ (cell-Fits _ _ _ _ [] (omega (arith, l))))))))

  task_row-Fits :
      (buf : Text) (t : Tcb) (s : Kernel) (mem : Bytes) → Fits buf → Fits (task_row cap buf t s mem)
  unfolding task_row
  task_row-Fits buf t s mem f = number-Fits _ _ _ _ (
      number-Fits _ _ _ _ (
        cell-Fits _ _ _ _ _ (
          cell-Fits _ _ _ _ _
            (number-Fits _ _ _ _ (cell-Fits _ _ _ _ _ (number-Fits _ _ _ buf f))))))

  task_rows-Fits :
      (n i : ℕ) (buf : Text) (s : Kernel) (mem : Bytes)
      → Fits buf
      → Fits (task_rows n i cap buf s mem)
  unfolding task_rows
  task_rows-Fits zero i buf s mem f = f
  task_rows-Fits (suc n) i buf s mem f =
      let row = task_row cap buf (s.tcb (qnode i)) s mem in
      let r = task_row-Fits buf (s.tcb (qnode i)) s mem f in
      elim (Bool-cases (not_created (s.tcb (qnode i)).state)) [
        | inl e ↦ rw (e, task_rows) (task_rows-Fits n (suc i) buf s mem f)
        | inr e ↦ elim (Bool-cases (leb cap (length row + 48))) [
          | inl full ↦ rw (e, full, task_rows) r
          | inr more ↦ rw (e, more, task_rows) (task_rows-Fits n (suc i) row s mem r)
        ]
      ]

  running_row-Fits : (buf : Text) (s : Kernel) → Fits buf → Fits (running_row cap buf s)
  unfolding running_row
  running_row-Fits buf s f =
      if-elim (λ (b : Text). length b < cap) (node_eq s.runtsk null) (λ _. f)
        (λ _. append_str-Fits _ _ (
          append_uint-Fits _ _
            (append_str-Fits _ _ (append_uint-Fits _ _ (append_str-Fits _ buf f)))))

  gen_ticks-Fits : (s : Kernel) → 1 ≤ cap → Fits (gen_ticks cap s)
  unfolding gen_ticks
  gen_ticks-Fits s l =
      append_str-Fits _ _
        (append_uint-Fits _ _ (append_str-Fits _ _ (append_uint-Fits _ [] (omega (arith, l)))))

  gen_mem-Fits : (e : ProcEnv) → 1 ≤ cap → Fits (gen_mem cap e)
  unfolding gen_mem
  gen_mem-Fits e l =
      append_str-Fits _ _ (append_uint-Fits _ _ (append_str-Fits _ [] (omega (arith, l))))

  gen_stat-Fits : (s : Kernel) → 1 ≤ cap → Fits (gen_stat cap s)
  unfolding gen_stat
  gen_stat-Fits s l = append_str-Fits _ _ (
      append_uint-Fits _ _ (
        append_str-Fits _ _ (
          append_uint-Fits _ _ (
            append_str-Fits _ _ (append_uint-Fits _ _ (append_str-Fits _ [] (omega (arith, l))))))))

  irq_rows-Fits : (n v : ℕ) (buf : Text) (e : ProcEnv) → Fits buf → Fits (irq_rows n v cap buf e)
  unfolding irq_rows
  irq_rows-Fits zero v buf e f = f
  irq_rows-Fits (suc n) v buf e f =
      let r =
        number-Fits (e.irq_count v) 10 (10 ∷ []) _
          (cell-Fits (e.irq_vec_name v) 10 false (32 ∷ []) _ (number-Fits v 3 (32 ∷ []) buf f)) in
      let row =
        append_str cap
          (append_uint_field cap
            (append_str cap
              (append_field cap (append_str cap (append_uint_field cap buf v 3) (32 ∷ []))
                (e.irq_vec_name v) 10 false)
              (32 ∷ []))
            (e.irq_count v) 10)
          (10 ∷ []) in
      elim (Bool-cases (e.irq_count v == 0)) [
        | inl z ↦ rw (z, irq_rows) (irq_rows-Fits n (suc v) buf e f)
        | inr z ↦ elim (Bool-cases (leb cap (length row + 32))) [
          | inl full ↦ rw (z, full, irq_rows) r
          | inr more ↦ rw (z, more, irq_rows) (irq_rows-Fits n (suc v) row e r)
        ]
      ]

  gen_interrupts-Fits : (e : ProcEnv) → 1 ≤ cap → Fits (gen_interrupts cap e)
  unfolding gen_interrupts
  gen_interrupts-Fits e l =
      irq_rows-Fits 32 0 _ e
        (cell-Fits _ _ _ _ _ (cell-Fits _ _ _ _ _ (cell-Fits _ _ _ _ [] (omega (arith, l)))))

  pub gen_file-Fits :
      ⦃c : Config⦄ (name t : Text) (s : Kernel) (e : ProcEnv)
      → 1 ≤ cap
      → gen_file name cap s e ≡ some t
      → length t < cap
  unfolding gen_file gen_tasks gen_version
  gen_file-Fits name t s e l q =
      let P : Option Text → Type 0 = λ o. (x : Text) → o ≡ some x → length x < cap in
      let made : (y : Text) → Fits y → P (some y) =
        λ y f x p. subst (λ z. length z < cap) (some_inj p) f in
      if-elim P (text_eq name _)
        (λ _. made _ (running_row-Fits _ s (task_rows-Fits _ 0 _ s e.mem (tasks_head-Fits l))))
        (λ _.
          if-elim P (text_eq name _) (λ _. made _ (gen_ticks-Fits s l))
            (λ _.
              if-elim P (text_eq name _) (λ _. made _ (gen_mem-Fits e l))
                (λ _.
                  if-elim P (text_eq name _) (λ _. made _ (gen_stat-Fits s l))
                    (λ _.
                      if-elim P (text_eq name _) (λ _. made _ (gen_interrupts-Fits e l))
                        (λ _.
                          if-elim P (text_eq name _)
                            (λ _. made _ (append_str-Fits _ [] (omega (arith, l))))
                            (λ _ x p. cc (p)))))))
        t q
