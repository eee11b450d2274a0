-- ===== src/Queues.antt =====
-- All the kernel's queues at once. `own` says of each address which queue it stands in: a queue's head
-- stands in its own queue, a loose address in none; `items` lists the entries of each queue. The
-- operations of kernel/kqueue.h keep this, with `own` and `items` changed as their names say.
mod Defs
mod Insert
mod Remove
mod Init
pub use Defs.*
pub use Insert.*
pub use Remove.*
pub use Init.*
