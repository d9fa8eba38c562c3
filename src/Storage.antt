-- ===== src/Storage.antt =====
-- The repositories of internal/storage/postgres, one module for each group of tables.
pub mod Frames
pub mod Profiles
pub mod Rbac
pub mod Otps
pub mod Links
pub mod Events
pub mod Attendance
pub mod Responsibilities
pub mod Patrols
pub mod Tents
