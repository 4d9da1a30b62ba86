-- ===== src/Pool.antt =====
-- src/mptthreadpool.h, src/mptthreadpool.C: the worker threads. Addresses are numbers and NULL is 0;
-- an `int` is an integer, so its overflow is outside the model. What the operating system answers
-- (`pipe`, `write`, `pthread_create`, `event_base_new`) is an argument.
pub mod Task
pub mod Notify
pub mod Setup
pub mod Lifetime
mod Tests
