-- ===== src/Tests.antt =====
-- Runs of the definitions on small inputs, and the theorems at concrete instances of their parameters.
mod Http
mod Disk
mod Files
mod Replies
mod Encodings
mod Requests
mod Routes
mod Listing
mod Caching
mod Index
mod Config
mod Logging
mod Start
mod Experimental
