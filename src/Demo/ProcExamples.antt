-- ===== src/Demo/ProcExamples.antt =====
-- The theorems on the files of services/proc/procfs.c at a kernel whose clock stands at 0: 48 is `0`.
use ittrium.Common.{◌≡◌, refl, arith, true, some, [], ◌∷◌, ◌++◌, All}
use ittrium.Text.{Text, text_eq, skip_slashes}
use ittrium.FileOps.{Heap}
use ittrium.Demo.{demo_config, zero_kernel}
use ittrium.Procfs.{ProcWorld, open_text, pf_open, pf_read}
use ittrium.Procfs.Format.{append_str, append_uint, decimal}
use ittrium.Procfs.Tables.{ProcEnv, gen_file, gen_ticks}
use ittrium.Procfs.Decimal.{value, IsDigit, append_uint-value}
use ittrium.Procfs.Reading.{pf_open-pf_read}

-- `ticks`
abbrev ticks : Text
ticks = 116 ∷ 105 ∷ 99 ∷ 107 ∷ 115 ∷ []

-- `0:0` and the end of the line
abbrev no_time : Text
no_time = 48 ∷ 58 ∷ 48 ∷ 10 ∷ []

abbrev env : ProcEnv
env = record { mem = λ _. 0; irq_count = λ _. 0; irq_vec_name = λ _. []; heap_used = 0 }

abbrev heap : Heap
heap = record { grants = λ _. true; junk = λ _. 0 }

append_uint-value_example :
    (ds : Text) × (append_uint 32 (97 ∷ []) 1204 ≡ (97 ∷ []) ++ ds)
    × All IsDigit ds
    × (value 0 ds ≡ 1204)
append_uint-value_example = append_uint-value 32 1204 (97 ∷ []) (omega arith) (omega arith)

abbrev closed : ProcWorld
closed = record {
  kernel = zero_kernel;
  env = env;
  files = λ _. record { buf = []; offset = 0 };
  opened = 0;
}

pf_open-pf_read_example :
    some ((pf_read (some 0) 2000 (pf_open heap ticks 0 closed).0).2)
    ≡ gen_file (skip_slashes ticks) 1536 zero_kernel env
unfolding pf_open open_text gen_file gen_ticks append_uint append_str decimal text_eq skip_slashes
pf_open-pf_read_example =
    pf_open-pf_read heap ticks 0 0 2000 closed (pf_open heap ticks 0 closed).0 refl (omega arith)
