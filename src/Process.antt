-- ===== src/Process.antt =====
-- Processes and their scheduling: kernel/process, kernel/smp and lib/mutex.cpp.
pub mod Mutex
pub mod Pid
pub mod RunQueue
pub mod Switch
pub mod Schedule
