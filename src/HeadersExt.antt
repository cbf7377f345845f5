-- ===== src/HeadersExt.antt =====
-- src/headers_ext: the `Accept-Encoding` header, its quality values, and the content codings.
pub mod Coding
pub mod Quality
pub mod Accept
