-- ===== src/Fs.antt =====
-- src/fs: paths and what the server does with them, file metadata, file streams.
pub mod Paths
pub mod Sanitize
pub mod Meta
pub mod Stream
