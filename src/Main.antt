-- ===== src/Main.antt =====
-- main.c: the Bluetooth callbacks, the dispatch of frames and the main loop
pub mod Kernel
pub mod Send
pub mod Shell
pub mod Dispatch
pub mod Loop
pub mod Round
pub mod Boot
mod Tests
