-- ===== src/Rdyq.antt =====
-- kernel/rdyq.h: one queue of ready tasks for each priority, a bitmap of the lines that hold a task,
-- and the best priority among them. BITMAPSHIFT is 4, as in every port but tms320c67px, so a word of
-- the bitmap covers 16 priorities; UINT has 32 bits.
pub mod Bits
pub mod Ffs
pub mod Marks
pub mod Ready
pub mod Enqueue
pub mod Dequeue
pub mod Top
pub mod Elsewhere
pub mod Init
use Prim.Native.Nat.{bit_and, bit_or}
use ittrium.Common.{
  ℕ, zero, suc, ◌+◌, ◌-◌, ◌*◌, ◌/◌, ◌%◌, ◌^◌, Bool, true, false, Option, none, some, not, ltb, ◌==◌,
  if◌then◌else◌, put,
}
use ittrium.Node.{Node, null, priq, update}
use ittrium.KQueue
use ittrium.KQueue.{Links, set_next}
use ittrium.Types.{Config, Kernel, Tcb}

-- A write to the `tskpri`, `state`, ... of a task block is a new block at its address.
abbrev pub set_tcb : Node → Tcb → Kernel → Kernel
set_tcb a t s = record s { tcb = update s.tcb a t }

abbrev pub on_links : (Links → Links) → Kernel → Kernel
on_links f s = record s { links = f s.links }

unfoldable pub rdyq_bitmap_set : ℕ → Kernel → Kernel
rdyq_bitmap_set priority s = record s {
  bitmap = put s.bitmap (priority / 16) (bit_or (s.bitmap (priority / 16)) (2 ^ (priority % 16)));
}

unfoldable pub rdyq_bitmap_clear : ℕ → Kernel → Kernel
rdyq_bitmap_clear priority s = record s {
  bitmap =
      put s.bitmap (priority / 16)
        (bit_and (s.bitmap (priority / 16)) (2 ^ 32 - 1 - 2 ^ (priority % 16)));
}

-- The loop of `_ffs` from `i` and `j`, on fuel; `none` means that the fuel ran out.
unfoldable pub ffs_loop : ℕ → ℕ → ℕ → Option ℕ
ffs_loop zero i j = none
ffs_loop (suc fuel) i j =
    let rest = ffs_loop fuel (i / 2) (j + 1) in if bit_and i 1 == 0 then rest else some j

-- A UINT other than 0 has a bit among 32; at 0 the C loop does not end.
unfoldable pub ffs : ℕ → Option ℕ
ffs i = ffs_loop 32 i 0

-- `next` of the line behind the last one is the member `null`, which stands there.
unfoldable pub rdyq_top : Kernel → Node
rdyq_top s = s.links.next (priq s.top_priority)

abbrev pub rdyq_top_pri : Kernel → ℕ
rdyq_top_pri s = s.top_priority

init_lines : ℕ → Links → Links
init_lines zero h = h
init_lines (suc n) h = KQueue.kqueue_init (priq n) (init_lines n h)

module _ ⦃c : Config⦄ where
  abbrev pub num_bitmap : ℕ
  num_bitmap = (c.tmax_tpri + 15) / 16

  unfoldable pub rdyq_init : Kernel → Kernel
  unfolding init_lines
  rdyq_init s = record s {
    top_priority = c.tmax_tpri;
    links = set_next (priq c.tmax_tpri) null (init_lines c.tmax_tpri s.links);
    bitmap = λ i. if ltb i num_bitmap then 0 else s.bitmap i;
  }

  -- True if the task becomes the top.
  unfoldable pub rdyq_insert : Node → Kernel → Kernel × Bool
  rdyq_insert t s =
      let priority = (s.tcb t).tskpri in
      let s1 = on_links (KQueue.kqueue_insert t (priq priority)) s in
      let s2 = rdyq_bitmap_set priority s1 in
      if ltb priority s2.top_priority
      then (record s2 { top_priority = priority }, true)
      else (s2, false)

  unfoldable pub rdyq_insert_front : Node → Kernel → Kernel
  rdyq_insert_front t s =
      let priority = (s.tcb t).tskpri in
      let s1 = on_links (KQueue.kqueue_insert t (s.links.next (priq priority))) s in
      let s2 = rdyq_bitmap_set priority s1 in
      if ltb priority s2.top_priority then record s2 { top_priority = priority } else s2

  -- The scan of rdyq_remove over `n` words of the bitmap from word `i` on: the first priority that is
  -- marked, or TMAX_TPRI.
  unfoldable pub scan_bitmap : (ℕ → ℕ) → ℕ → ℕ → ℕ
  scan_bitmap bitmap zero i = c.tmax_tpri
  scan_bitmap bitmap (suc n) i =
      let rest = scan_bitmap bitmap n (i + 1) in
      if bitmap i == 0 then rest else i * 16 + elim (ffs (bitmap i)) [ none ↦ 32 | some j ↦ j ]

  -- What rdyq_remove does once the line of the removed task is empty.
  unfoldable pub line_emptied : ℕ → Kernel → Kernel
  line_emptied priority s =
      let s1 = rdyq_bitmap_clear priority s in
      if not (priority == s1.top_priority) then s1 else record s1 {
        top_priority = scan_bitmap s1.bitmap (num_bitmap - priority / 16) (priority / 16);
      }

  unfoldable pub rdyq_remove : Node → Kernel → Kernel
  rdyq_remove t s =
      let priority = (s.tcb t).tskpri in
      let s1 = on_links (KQueue.kqueue_remove t) s in
      if not (KQueue.kqueue_empty (priq priority) s1.links) then s1 else line_emptied priority s1

  unfoldable pub rdyq_rotate : ℕ → Kernel → Kernel
  rdyq_rotate priority s =
      if not (KQueue.kqueue_empty (priq priority) s.links)
      then (let (entry, h) = KQueue.kqueue_remove_next (priq priority) s.links in
          record s { links = KQueue.kqueue_insert entry (priq priority) h })
      else s
