-- ===== src/Tests.antt =====
-- The theorems at concrete inputs.
mod Receiving
mod Talking
mod Pooling
mod Sending
mod Queueing
mod Locking
mod Serving
mod Hosting
mod Locks
mod Threading
mod Tracing
mod Working
