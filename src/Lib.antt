-- ===== src/Lib.antt =====
-- A model of static-web-server, a server for files over HTTP, and the theorems that say what it does.
--
-- The program and its parts. A request comes to `RequestHandler::handle` (src/handler.rs), which
-- asks a row of checks in turn, of which each may answer it: the method, the health endpoint, CORS,
-- basic authentication, the maintenance mode, redirects, and rewrites, which may also change the
-- request. What is left is looked for on the disk (src/static_files.rs), under the root of the
-- server or of a virtual host, and the response, or the page for an error, goes through the steps
-- that follow: the fallback page, the headers for CORS, compression, the headers for caching and
-- security, and the custom headers. Before that, at the start, `Settings::read`
-- (src/settings/mod.rs) puts the options of a configuration file over those of the command line, and
-- `start_server` (src/server.rs) has each module set its options of the handler. A build with the
-- feature `experimental` keeps files in memory (src/mem_cache/) and serves metrics
-- (src/metrics.rs).
--
-- Which file models which part:
--   * Handler, with Handler/Pipeline: src/handler.rs. `handle_request` is `RequestHandler::handle`;
--     a step `pre_process` returns an option of a response as in the source, and a rewrite hands
--     a changed request on. Handler/Order, Handler/Access and Handler/Finish hold the proofs.
--     Handler/Listing puts the listing of directories in its place, and Handler/Experimental is
--     the handler with the metrics (Metrics: src/metrics.rs) and the cache.
--   * StaticFiles, with Options and Lookup: src/static_files.rs. `handle`, `file_reply` and
--     `get_composed_file_metadata` have the source's names; the loop over the index files is
--     `index_loop`, and what it leaves behind an `IndexResult`. StaticFiles/Cached is `handle` in a
--     build with the cache (`handle_cached`).
--   * Fs/Paths: what the code relies on of `std::path` on Unix. Fs/Sanitize: src/fs/path.rs. Fs/Meta:
--     src/fs/meta.rs, and the record `Disk`, which is the file system. Fs/Stream: src/fs/stream.rs.
--   * Response: src/response.rs. Conditional: src/conditional_headers.rs.
--   * HeadersExt/Coding, Quality and Accept: src/headers_ext/, and the choice of a coding in
--     src/compression.rs, whose other functions are in Compression. CompressionStatic:
--     src/compression_static.rs.
--   * ErrorPage: src/error_page.rs and src/maintenance_mode.rs. FallbackPage: src/fallback_page.rs.
--   * Cors, with Build: src/cors.rs. BasicAuth: src/basic_auth.rs. Health: src/health.rs.
--   * Redirects, Rewrites, VirtualHosts, HttpsRedirect: src/redirects.rs, src/rewrites.rs,
--     src/virtual_hosts.rs, src/https_redirect.rs.
--   * ControlHeaders, SecurityHeaders, CustomHeaders: src/control_headers.rs,
--     src/security_headers.rs, src/custom_headers.rs.
--   * DirectoryListing: src/directory_listing.rs. The module itself has the order of the entries and
--     the texts of the sizes, Entries the loop over a directory (`read_entries`), Page the pages in
--     HTML and JSON, and Index `read_dir_entries` and `auto_index`.
--   * MemCache, with File and Stream: src/mem_cache/, and the choice of a stream in src/response.rs
--     (`file_body`). `poll_mem` is `poll_next` of `MemCacheFileStream`, with the store passed on.
--     MemCache/Copies, Stream/Same, Stream/Whole, Refines and Setup hold the proofs.
--   * Settings: src/settings/cli.rs and src/settings/file.rs, with `merge`. Settings/Read:
--     `Settings::read` of src/settings/mod.rs, with src/helpers.rs. Settings/Sound and
--     Settings/Secured hold the proofs.
--   * Server: src/server.rs from the root directory to the options of the handler
--     (`handler_opts`), with the `init` functions of the modules; Server/Start: the servers that it
--     runs (`start_server`). LogAddr: src/log_addr.rs.
--   * Env/Options: the options of the handler, and the types of src/settings/mod.rs that it reads.
--   * Http and Env: the parameters. Common: what the modules share. Tests: runs on small inputs.
-- A module Laws, or one with another name beside its component, holds what is proved of it.
--
-- Parameters. The record `Http` stands for the crates http, hyper, headers and mime_guess: a header
-- map with its documented laws, and the typed headers, MIME types and URIs as operations without
-- laws, but that the typed `Content-Type` is read from the values of its header. The record `Env` adds the disk, and the crates bcrypt, regex, aho_corasick, globset and
-- percent_encoding. The record `Cache` stands for mini_moka, a cache that may forget, `Dirs` for the
-- directories of the disk, `Writer` for maud, serde_json and chrono, `Registry` for prometheus,
-- `Source` for clap, toml and what the disk answers at the start, and `Platform` for sockets,
-- signals and the TLS configuration. The modules Tests/Http, Tests/Disk, Tests/Caching, Tests/Index,
-- Tests/Config, Tests/Start and Tests/Experimental give each a concrete instance, with the laws
-- proved.
--
-- How state and numbers are modelled. A response is a record that each step returns changed. A body
-- is what the program makes it of: a stream of a file is its path, its start, its length and the size
-- of its buffer, and an encoder is a constructor over a body. Texts are lists of code points, paths
-- are lists of bytes. The disk stays as it is during a request. A u64 is a number, and what
-- can wrap (`bytes_range`, `mem_cache_opts`, `worker_threads`) is taken modulo 2 ^ 64, as a release
-- build does.
-- Loops are structural recursion on the list that they go over, so no fuel is needed; a stream is
-- polled with a list of the events of its reads. The cache is a relation of steps: a file is opened,
-- one of the open streams is polled, time passes. A page in HTML is the list of its tags and texts.
--
-- What is left out: the build is that of Unix, and what is proved of `handle_request` and of
-- `start_server` is of the default features. Of the log only the line of src/log_addr.rs is modelled.
-- `trim` is that of ASCII.
-- A log at a level that is not known stops the start as an error. The subcommands of the command
-- line, the warning about unknown keys of a file, src/tls.rs, which is borrowed from warp, the
-- shutdown on signals and the runtime are glue to other crates.
pub mod Common
pub mod Http
pub mod MemCache
pub mod Metrics
pub mod Fs
pub mod Conditional
pub mod Response
pub mod HeadersExt
pub mod CompressionStatic
pub mod StaticFiles
pub mod Env
pub mod ErrorPage
pub mod Cors
pub mod Health
pub mod BasicAuth
pub mod VirtualHosts
pub mod Redirects
pub mod Rewrites
pub mod FallbackPage
pub mod ControlHeaders
pub mod SecurityHeaders
pub mod CustomHeaders
pub mod HttpsRedirect
pub mod Compression
pub mod DirectoryListing
pub mod Settings
pub mod LogAddr
pub mod Handler
pub mod Server
pub mod Tests
