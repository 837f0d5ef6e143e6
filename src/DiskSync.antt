-- ===== src/DiskSync.antt =====
-- The writing of account files (disksync.go): single files, the schedule of files to write, the
-- writing of all accounts at once, and the handler as a step relation on its variables.
pub mod Os
pub mod Rename
pub mod Files
pub mod Schedule
pub mod Handler
