-- ===== src/Tick/Nesting.antt =====
-- The nesting count of timer_hw_enter and timer_hw_exit of config/cpu_generic.c.
use ittrium.Common.{ℕ, zero, suc}
use ittrium.Types.{Config, Kernel}
use ittrium.Tick.{timer_handler}

module _ ⦃c : Config⦄ where
  -- `n` ticks.
  unfoldable pub ticks : ℕ → Kernel → Kernel
  ticks zero s = s
  ticks (suc n) s = ticks n (timer_handler s)
