-- ===== src/Exchange.antt =====
-- Both ends of the protocol of src/task_msg.cpp together: what MsgClient builds against what
-- MsgServer reads, and the other way round.
pub mod Fields
pub mod Asking
pub mod Answering
pub mod Completing
pub mod Hearing
pub mod Asked
pub mod Query
pub mod Stream
pub mod Replied
pub mod Refused
