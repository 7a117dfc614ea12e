-- ===== src/Descriptors.antt =====
-- 49-1-my_cp.c (MapCopy), 61-2-do_pipe_with_socketpair.c (Pipe), 47-6-binary_sem_fifo.c (Fifo) and
-- 45-2-my_ftok.c (Key).
pub mod MapCopy
pub mod Pipe
pub mod Fifo
pub mod Key
mod Whole
mod Unused
mod Fields
mod Tests
