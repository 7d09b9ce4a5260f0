-- ===== src/Wasi.antt =====
-- crates/wasi-common: the tables and buffers behind the WASI host calls.
pub mod Errno
pub mod Table
pub mod StringArray
pub mod Sched
