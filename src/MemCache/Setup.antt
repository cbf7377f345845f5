-- ===== src/MemCache/Setup.antt =====
-- What `init` of the cache leaves.
use mathlib.Core.Path.{subst}
use static_web_server.Common.{
  ok-inj, ◌≡◌, ◌≢◌, refl, Str, Bytes, Option, none, some, Bool, ok, ◌⊎◌, inl, inr, arith,
}
use static_web_server.Http.{Http}
use static_web_server.MemCache.{
  Cache, MemCacheOpts, MemoryCache, Globals, set_store, init, panics, get_or_acquire,
}
use static_web_server.MemCache.File.{MemFile}

module _ (H : Http) (C : Cache (MemFile H)) where
  -- There is a store when the requests are told to use one.
  abbrev pub IsReady : Globals H C → Type 0
  IsReady g = (g.memory_cache ≡ none) ⊎ ((s : C.Store) × (g.cache_store ≡ some s))

  set_store-IsReady :
      (opts : MemoryCache) (c : Option C.Store) (g g' : Globals H C)
      → set_store H C opts c g ≡ ok g'
      → IsReady g'
  unfolding set_store
  set_store-IsReady opts none g g' h = subst IsReady (ok-inj h) (inr (_, refl))
  set_store-IsReady opts (some s) g g' h = absurd cc

  init-IsReady :
      (opts : Option (Option MemoryCache)) (g g' : Globals H C)
      → init H C opts g ≡ ok g'
      → IsReady g
      → IsReady g'
  unfolding init
  init-IsReady none g g' h r = subst IsReady (ok-inj h) r
  init-IsReady (some none) g g' h r = subst IsReady (ok-inj h) r
  init-IsReady (some (some opts)) g g' h r = set_store-IsReady opts g.cache_store g g' h

  get_or_acquire_store :
      (path_str : Bytes → Option Str) (permit : Bool) (s : C.Store) (path : Bytes)
      (headers : H.HeaderMap)
      → get_or_acquire H C path_str permit (some s) path headers ≢ panics
  unfolding get_or_acquire
  get_or_acquire_store path_str permit s path headers h = ground (arith, h)

  -- When the requests of a server that was set up are told to use the cache, none of them finds that
  -- there is no store, whatever the options, the path and the headers are.
  pub get_or_acquire-init :
      (opts : Option (Option MemoryCache)) (g g' : Globals H C) (limit : MemCacheOpts)
      (path_str : Bytes → Option Str) (permit : Bool) (path : Bytes) (headers : H.HeaderMap)
      → IsReady g
      → init H C opts g ≡ ok g'
      → g'.memory_cache ≡ some limit
      → get_or_acquire H C path_str permit g'.cache_store path headers ≢ panics
  get_or_acquire-init opts g g' limit path_str permit path headers r h used =
      elim (init-IsReady opts g g' h r) [
        | inl off ↦ absurd cc
        | inr (s, e) ↦ rw e (get_or_acquire_store path_str permit s path headers)
      ]
