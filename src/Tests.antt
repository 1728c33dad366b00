-- ===== src/Tests.antt =====
-- The theorems at concrete inputs, and runs of the definitions.
pub mod Toy
pub mod Wire
pub mod Buffers
pub mod Streams
pub mod Sessions
pub mod Tasks
pub mod Hello
pub mod Copying
pub mod Joining
pub mod Proxying
pub mod Accepting
pub mod Relaying
pub mod Connecting
