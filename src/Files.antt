-- ===== src/Files.antt =====
-- What the packages use of path/filepath, strings and os: paths as text, and a disk.
pub mod Strings
pub mod FilePath
pub mod Disk
