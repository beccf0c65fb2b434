-- ===== src/Queue.antt =====
-- src/queue.c: the packets that wait for the channel, and listen-before-talk.
pub mod Items
pub mod Worker
pub mod Listen
pub mod Busy
pub mod Progress
pub mod Blocked
pub mod Unmoved
pub mod Linked
pub mod Chain
pub mod Linking
pub mod Unlinking
pub mod Threads
pub mod Pushing
pub mod Sending
pub mod Interleave
pub mod Head
