-- ===== src/Shell.antt =====
-- The parts of services/shell/ that hold logic of their own: the variables of services/shell/shell_var.c,
-- the command line of services/shell/shell_parse.c, the completion of words in services/shell/shell.c, and
-- the editor and the history of services/shell/lineedit.c. A string is the list of its characters
-- without the terminating zero, a character its code.
pub mod Vars
pub mod Lookup
pub mod Expand
pub mod Line
pub mod Tokens
pub mod Exec
pub mod History
pub mod EditLine
pub mod Complete
pub mod LineEdit
