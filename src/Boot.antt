-- ===== src/Boot.antt =====
-- main of kernel/main.c up to the start of the first task, which runs from then on.
use ittrium.Common.Int.{ℤ}
use ittrium.Types.{Config, Kernel}
use ittrium.Task.{task_initialize}
use ittrium.Tick.{timer_initialize}
use ittrium.Eventflag.{eventflag_initialize}
use ittrium.Semaphore.{semaphore_initialize}
use ittrium.Mailbox.{mailbox_initialize}
use ittrium.Manage.{TCtsk, cre_tsk, act_tsk}

module _ ⦃c : Config⦄ where
  unfoldable pub initialize : Kernel → Kernel
  initialize s =
      mailbox_initialize
        (semaphore_initialize (eventflag_initialize (timer_initialize (task_initialize s))))

  -- `init_id` and `pk` are INIT_TASK_ID and the INIT_TASK_ settings of kernel_config.h.
  unfoldable pub main : ℤ → TCtsk → Kernel → Kernel
  main init_id pk s = (act_tsk init_id (cre_tsk init_id pk (initialize s)).0).0
