-- ===== src/Examples.antt =====
-- Concrete collaborators, and the theorems at concrete inputs.
mod Script
mod Host
mod Executor
mod Sinks
mod Streams
mod Web
mod Dialogs
mod Commands
mod Bodies
mod Heads
mod Records
mod Blocks
mod Windows
