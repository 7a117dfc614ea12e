-- ===== src/Attributes.antt =====
-- 15-7-my_chattr.c, 15-6-chmodarx.c and 16-1-my_setfattr.c: the flags, permissions and extended
-- attributes of files.
pub mod Chattr
pub mod Chmod
pub mod Setfattr
mod Never
mod Readable
mod Tests
