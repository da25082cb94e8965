-- ===== src/Tests.antt =====
-- Concrete external components, and the theorems at concrete inputs.
mod Instances
mod Wire
mod Serving
mod Queueing
mod Typing
mod Streaming
mod Asking
mod Answering
mod Living
mod Tasks
mod Connecting
mod Configuring
mod Listening
mod Running
mod Library
mod Tool
mod Whole
mod Command
mod Shown
mod Beat
