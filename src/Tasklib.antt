-- ===== src/Tasklib.antt =====
-- master/tasklib, the library of the applications.
pub mod Response
pub mod Reading
pub mod Elements
