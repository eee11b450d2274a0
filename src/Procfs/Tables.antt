-- ===== src/Procfs/Tables.antt =====
-- services/proc/telemetry.c, and the files that services/proc/procfs.c makes of the kernel's variables, in
-- a build with CFG_USE_TSKNAME.
use ittrium.Common.{
  ℕ, zero, suc, ◌+◌, ◌-◌, ◌*◌, ◌/◌, ◌%◌, ◌^◌, Bool, true, false, ◌||◌, Option, none, some, [], ◌∷◌,
  ◌++◌, length, ltb, leb, ◌==◌, if◌then◌else◌,
}
use ittrium.Text.{Text, text_eq}
use ittrium.FileOps.{Bytes}
use ittrium.Node.{qnode, null}
use ittrium.Types.{Config, Kernel, Tcb, Stat}
use ittrium.Task.{node_eq, tnum_tskid}
use ittrium.Procfs.Format.{append_str, append_uint, append_field, append_uint_field, fmt_uint}

-- What the files show of the rest: memory, for the stacks, the counts of the interrupts and the names of
-- their vectors, and the distance from the end of the program to the end of the heap.
pub record ProcEnv : Type 0 where
  pub mem : Bytes
  pub irq_count : ℕ → ℕ
  pub irq_vec_name : ℕ → Text
  pub heap_used : ℕ

-- `while (freeb < tcb->stksz && p[freeb] == STACK_CANARY) freeb++;` with `n` bytes left.
unfoldable pub free_bytes : ℕ → ℕ → Bytes → ℕ
free_bytes zero p mem = 0
free_bytes (suc n) p mem =
    let rest = free_bytes n (suc p) mem in if mem p == 165 then suc rest else 0

unfoldable pub task_stack_used : Tcb → Bytes → ℕ
task_stack_used t mem =
    if t.stk_base == 0 || t.stksz == 0 then 0 else t.stksz - free_bytes t.stksz t.stk_base mem

unfoldable pub task_stack_pct : Tcb → Bytes → ℕ
task_stack_pct t mem = if t.stksz == 0 then 0 else task_stack_used t mem * 100 / t.stksz

-- `(ticks * 100ull + wall / 2ull) / wall`, 0 if no time has passed.
unfoldable pub cpu_pct : ℕ → ℕ → ℕ
cpu_pct ticks zero = 0
cpu_pct ticks (suc w) = (ticks * 100 + suc w / 2) / suc w % 2 ^ 32

unfoldable pub task_cpu_pct : Tcb → Kernel → ℕ
task_cpu_pct t s = cpu_pct t.run_ticks s.wall_ticks

unfoldable pub idle_cpu_pct : Kernel → ℕ
idle_cpu_pct s = cpu_pct s.idle_ticks s.wall_ticks

abbrev pub state_name : Stat → Text
state_name Stat.noexs = 78 ∷ 79 ∷ 69 ∷ 88 ∷ 83 ∷ []
state_name Stat.run = 82 ∷ 85 ∷ 78 ∷ []
state_name Stat.rdy = 82 ∷ 68 ∷ 89 ∷ []
state_name Stat.wai = 87 ∷ 65 ∷ 73 ∷ []
state_name Stat.was = 87 ∷ 65 ∷ 73 ∷ []
state_name Stat.sus = 83 ∷ 85 ∷ 83 ∷ []
state_name Stat.dmt = 68 ∷ 77 ∷ 84 ∷ []

abbrev space : Text
space = 32 ∷ []

abbrev newline : Text
newline = 10 ∷ []

-- The row of headings.
unfoldable pub tasks_head : ℕ → Text
tasks_head cap =
    let b1 = append_str cap (append_field cap [] (105 ∷ 100 ∷ []) 2 true) space in
    let b2 = append_str cap (append_field cap b1 (110 ∷ 97 ∷ 109 ∷ 101 ∷ []) 16 false) space in
    let b3 = append_str cap (append_field cap b2 (112 ∷ 114 ∷ 105 ∷ []) 3 true) space in
    let b4 = append_str cap (append_field cap b3 (115 ∷ 116 ∷ 97 ∷ 116 ∷ 101 ∷ []) 5 false) space in
    let b5 = append_str cap (append_field cap b4 (115 ∷ 116 ∷ 107 ∷ []) 11 true) space in
    let b6 = append_str cap (append_field cap b5 (115 ∷ 116 ∷ 107 ∷ 37 ∷ []) 4 true) space in
    append_str cap (append_field cap b6 (99 ∷ 112 ∷ 117 ∷ 37 ∷ []) 4 true) newline

-- `stk`, of 20 characters: the bytes used, a slash and the size.
unfoldable pub stack_text : ℕ → ℕ → Text
stack_text used size =
    let a = fmt_uint 20 used in
    let b = if ltb (length a + 1) 20 then a ++ 47 ∷ [] else a in b ++ fmt_uint (20 - length b) size

-- The row of one task.
unfoldable pub task_row : ℕ → Text → Tcb → Kernel → Bytes → Text
task_row cap buf t s mem =
    let name : Text = elim (t.name) [ [] ↦ 45 ∷ [] | c ∷ cs ↦ c ∷ cs ] in
    let b1 = append_str cap (append_uint_field cap buf t.tskid 2) space in
    let b2 = append_str cap (append_field cap b1 name 16 false) space in
    let b3 = append_str cap (append_uint_field cap b2 t.tskpri 3) space in
    let b4 = append_str cap (append_field cap b3 (state_name t.state) 5 false) space in
    let b5 =
      append_str cap (append_field cap b4 (stack_text (task_stack_used t mem) t.stksz) 11 true)
        space in
    let b6 = append_str cap (append_uint_field cap b5 (task_stack_pct t mem) 4) space in
    append_str cap (append_uint_field cap b6 (task_cpu_pct t s) 4) newline

abbrev pub not_created : Stat → Bool
not_created Stat.noexs = true
not_created _ = false

-- The loop over the `n` task blocks from `i` on; it ends when less than 48 characters are left.
unfoldable pub task_rows : ℕ → ℕ → ℕ → Text → Kernel → Bytes → Text
task_rows zero i cap buf s mem = buf
task_rows (suc n) i cap buf s mem =
    let t = s.tcb (qnode i) in
    elim (not_created t.state) [
      | true ↦ task_rows n (suc i) cap buf s mem
      | false ↦
          let row = task_row cap buf t s mem in
          elim (leb cap (length row + 48)) [
            | true ↦ row
            | false ↦ task_rows n (suc i) cap row s mem
          ]
    ]

-- The last line, if a task runs.
unfoldable pub running_row : ℕ → Text → Kernel → Text
running_row cap buf s =
    let sched = if node_eq s.schedtsk null then 0 else (s.tcb s.schedtsk).tskid in
    let b1 =
      append_uint cap (append_str cap buf (114 ∷ 117 ∷ 110 ∷ 61 ∷ [])) (s.tcb s.runtsk).tskid in
    let b2 =
      append_uint cap (append_str cap b1 (32 ∷ 115 ∷ 99 ∷ 104 ∷ 101 ∷ 100 ∷ 61 ∷ [])) sched in
    if node_eq s.runtsk null then buf else append_str cap b2 newline

-- get_tim succeeds always, so the text for its error is left out.
unfoldable pub gen_ticks : ℕ → Kernel → Text
gen_ticks cap s =
    let b = append_str cap (append_uint cap [] s.st_high) (58 ∷ []) in
    append_str cap (append_uint cap b s.st_low) newline

unfoldable pub gen_mem : ℕ → ProcEnv → Text
gen_mem cap e =
    append_str cap
      (append_uint cap
        (append_str cap [] (104 ∷ 101 ∷ 97 ∷ 112 ∷ 95 ∷ 117 ∷ 115 ∷ 101 ∷ 100 ∷ 61 ∷ []))
        e.heap_used)
      newline

unfoldable pub gen_stat : ℕ → Kernel → Text
gen_stat cap s =
    let b1 = append_uint cap (append_str cap [] (119 ∷ 97 ∷ 108 ∷ 108 ∷ 61 ∷ [])) s.wall_ticks in
    let b2 =
      append_uint cap (append_str cap b1 (32 ∷ 105 ∷ 100 ∷ 108 ∷ 101 ∷ 61 ∷ [])) s.idle_ticks in
    let b3 =
      append_uint cap (append_str cap b2 (32 ∷ 105 ∷ 100 ∷ 108 ∷ 101 ∷ 37 ∷ 61 ∷ []))
        (idle_cpu_pct s) in
    append_str cap b3 newline

-- The loop over the `n` vectors from `v` on; it ends when less than 32 characters are left.
unfoldable pub irq_rows : ℕ → ℕ → ℕ → Text → ProcEnv → Text
irq_rows zero v cap buf e = buf
irq_rows (suc n) v cap buf e =
    let b1 = append_str cap (append_uint_field cap buf v 3) space in
    let b2 = append_str cap (append_field cap b1 (e.irq_vec_name v) 10 false) space in
    let row = append_str cap (append_uint_field cap b2 (e.irq_count v) 10) newline in
    elim (e.irq_count v == 0) [
      | true ↦ irq_rows n (suc v) cap buf e
      | false ↦ elim (leb cap (length row + 32)) [
        | true ↦ row
        | false ↦ irq_rows n (suc v) cap row e
      ]
    ]

unfoldable pub gen_interrupts : ℕ → ProcEnv → Text
gen_interrupts cap e =
    let b1 = append_str cap (append_field cap [] (118 ∷ 101 ∷ 99 ∷ []) 3 true) space in
    let b2 = append_str cap (append_field cap b1 (110 ∷ 97 ∷ 109 ∷ 101 ∷ []) 10 false) space in
    irq_rows 32 0 cap
      (append_str cap (append_field cap b2 (99 ∷ 111 ∷ 117 ∷ 110 ∷ 116 ∷ []) 10 true) newline) e

unfoldable pub gen_version : ℕ → Text
gen_version cap = append_str cap [] (
    105 ∷ 116 ∷ 116 ∷ 114 ∷ 105 ∷ 117 ∷ 109 ∷ 32 ∷ 82 ∷ 84 ∷ 79 ∷ 83 ∷ 32 ∷ 115 ∷ 101 ∷ 114 ∷ 118
    ∷ 105 ∷ 99 ∷ 101 ∷ 115 ∷ 10 ∷ [])

module _ ⦃c : Config⦄ where
  unfoldable pub gen_tasks : ℕ → Kernel → ProcEnv → Text
  gen_tasks cap s e = running_row cap (task_rows tnum_tskid 0 cap (tasks_head cap) s e.mem) s

  unfoldable pub gen_file : Text → ℕ → Kernel → ProcEnv → Option Text
  gen_file name cap s e =
      if text_eq name (116 ∷ 97 ∷ 115 ∷ 107 ∷ 115 ∷ [])
      then some (gen_tasks cap s e)
      else if text_eq name (116 ∷ 105 ∷ 99 ∷ 107 ∷ 115 ∷ [])
      then some (gen_ticks cap s)
      else if text_eq name (109 ∷ 101 ∷ 109 ∷ [])
      then some (gen_mem cap e)
      else if text_eq name (115 ∷ 116 ∷ 97 ∷ 116 ∷ [])
      then some (gen_stat cap s)
      else if text_eq name (105 ∷ 110 ∷ 116 ∷ 101 ∷ 114 ∷ 114 ∷ 117 ∷ 112 ∷ 116 ∷ 115 ∷ [])
      then some (gen_interrupts cap e)
      else if text_eq name (118 ∷ 101 ∷ 114 ∷ 115 ∷ 105 ∷ 111 ∷ 110 ∷ [])
      then some (gen_version cap)
      else none
