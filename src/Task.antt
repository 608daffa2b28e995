-- ===== src/Task.antt =====
-- src/task: the tasks that run the servers.
pub mod Server
pub mod Master
