-- ===== src/MemCache.antt =====
-- src/mem_cache/cache.rs, which the feature `experimental` builds in: files kept in memory. The cache
-- itself is the crate mini_moka, a parameter with what it documents. The store is set once for the
-- whole program; a state of it is passed on explicitly.
pub mod File
pub mod Stream
pub mod Copies
pub mod Refines
pub mod Setup
use static_web_server.Common.{
  ℕ, Str, Bytes, Bool, true, false, ◌≡◌, ◌⊎◌, ◌*◌, ◌%◌, ◌^◌, Option, none, some, Result, ok, err,
  if◌then◌else◌, get_or, codes,
}
use static_web_server.Http.{Http, Response}
use static_web_server.MemCache.File.{MemFile, mem_response_body}

-- `mini_moka::sync::Cache`: entries may leave it at any time, and nothing else enters it than what is
-- inserted.
pub record Cache (Val : Type 0) : Type 1 where
  pub Store : Type 0
  -- `Cache::builder()` with the capacity, the time to live and the time to idle, in seconds
  pub build : ℕ → ℕ → ℕ → Store
  pub get : Store → Str → Option Val
  pub insert : Store → Str → Val → Store
  -- what is left after some time
  pub elapse : ℕ → Store → Store
  pub get-build : (capacity ttl tti : ℕ) (k : Str) → get (build capacity ttl tti) k ≡ none
  pub get-insert :
      (s : Store) (k : Str) (v : Val) (j : Str) (w : Val)
      → get (insert s k v) j ≡ some w
      → ((k ≡ j) × (v ≡ w)) ⊎ (get s j ≡ some w)
  pub get-elapse :
      (t : ℕ) (s : Store) (j : Str) (w : Val) → get (elapse t s) j ≡ some w → get s j ≡ some w

pub record MemCacheOpts : Type 0 where
  pub max_file_size : ℕ

-- `MemCacheOpts::new`; the product is a u64.
abbrev pub mem_cache_opts : ℕ → MemCacheOpts
mem_cache_opts max_file_size = record { max_file_size = (1024 * 1024 * max_file_size) % 2 ^ 64 }

-- `MemoryCache` of src/settings/file.rs
pub record MemoryCache : Type 0 where
  pub capacity : Option ℕ
  pub ttl : Option ℕ
  pub tti : Option ℕ
  pub max_file_size : Option ℕ

module _ (H : Http) (C : Cache (MemFile H)) where
  -- `CACHE_STORE`, and the field of the handler's options that `init` sets
  pub record Globals : Type 0 where
    pub cache_store : Option C.Store
    pub memory_cache : Option MemCacheOpts

  -- the part of `init` below its two tests: `CACHE_STORE.set` fails if there is a store
  set_store : MemoryCache → Option C.Store → Globals → Result Str Globals
  set_store opts (some _) g = err (codes "unable to initialize the in-memory cache store")
  set_store opts none g = ok (record {
    cache_store =
        some (C.build (get_or opts.capacity 256) (get_or opts.ttl 3600) (get_or opts.tti 300));
    memory_cache = some (mem_cache_opts (get_or opts.max_file_size 8192));
  })

  -- The argument is `advanced_opts.memory_cache`, if there are advanced options.
  unfoldable pub init : Option (Option MemoryCache) → Globals → Result Str Globals
  unfolding set_store
  init none g = ok g
  init (some none) g = ok g
  init (some (some opts)) g = set_store opts g.cache_store g

  -- what `get_or_acquire` gives: it panics without a store
  pub data Acquired : Type 0 where
    panics : Acquired
    found : Result ℕ (Response H) → Acquired
    not_found : Acquired

  -- The permit is dropped on return; `permit` says that it was acquired.
  after_miss : Bool → Acquired
  after_miss true = not_found
  after_miss false = found (err 500)

  look_up : Bool → Option (MemFile H) → H.HeaderMap → Acquired
  look_up permit (some mem_file) headers = found (mem_response_body H mem_file headers)
  look_up permit none headers = after_miss permit

  -- `path_str` is `Path::to_str`.
  unfoldable pub get_or_acquire :
      (Bytes → Option Str) → Bool → Option C.Store → Bytes → H.HeaderMap → Acquired
  unfolding look_up after_miss
  get_or_acquire path_str permit cache_store file_path headers = elim (path_str file_path) [
    | none ↦ not_found
    | some file_path_str ↦ elim cache_store [
      | none ↦ panics
      | some store ↦ look_up permit (C.get store file_path_str) headers
    ]
  ]
