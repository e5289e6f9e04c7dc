-- ===== src/Os.antt =====
-- The operating system and the C library, as the sources call them (poll.h, sys/socket.h, semaphore.h,
-- time.h, the memory manager). None of it is under src/: a `Platform` answers each call.
mod Calls
mod Monad
unfoldable pub use Calls.*
pub use Monad.*
mod Rules
pub use Rules.*
mod Polling
unfoldable pub use Polling.*
mod Traces
mod Endings
unfoldable pub use Traces.*
pub use Endings.*
