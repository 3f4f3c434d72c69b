-- ===== src/Tasks.antt =====
-- src/util/tasks.cpp: tasks, the in-memory task store and the receiver of task requests.
pub mod Status
pub mod Store
pub mod Pagination
pub mod Requests
pub mod Receiver
