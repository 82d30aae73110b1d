-- ===== src/Protocol.antt =====
-- protocol.c: the image transfers and the commands of `od_handle`.
pub mod Base
pub mod Wire
pub mod Stream
pub mod Transfer
pub mod ConfigCommands
pub mod DirectCommands
pub mod PipeCommands
pub mod Handle
pub mod Trace
pub mod Window
pub mod Region
pub mod Samples
mod Tests
