-- ===== src/Demo/QueueExamples.antt =====
-- The theorems on kernel/kqueue.h and kernel/rdyq.h at concrete queues.
use ittrium.Node.{qnode, semq}
use ittrium.KQueue.{Links, kqueue_init, kqueue_insert}
use ittrium.Demo.{demo_config, zero_kernel}

abbrev empty : Links
empty = kqueue_init (semq 0) zero_kernel.links

abbrev one : Links
one = kqueue_insert (qnode 0) (semq 0) empty
