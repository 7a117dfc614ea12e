-- ===== src/Talk.antt =====
-- 46-6-talk_server.c and 46-6-talk_client.c: a chat over System V message queues.
pub mod Message
pub mod Server
pub mod Client
mod Login
mod Tests
