-- ===== src/Os.antt =====
-- The operating system as the program sees it through `os`, `io/ioutil` and the console: a disk of
-- files and directories by path, what the user is going to type, and which calls fail.
-- Symbolic links, the modes of directories and the process umask are left out.
mod Daemon
mod Monad
mod Calls
pub mod Rules
pub mod Disk
pub mod Spares
pub mod Serves
pub mod Writable
mod Tests
pub use Daemon.*
pub use Monad.*
unfoldable pub use Calls.*
