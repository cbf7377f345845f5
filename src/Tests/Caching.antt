-- ===== src/Tests/Caching.antt =====
-- The cache of files in memory, as an association list that never forgets or forgets everything.
use static_web_server.Common.{
  ℕ, Str, Bytes, true, false, ◌≡◌, ◌≤◌, ◌+◌, refl, ◌⊎◌, Option, none, some, List, [], ◌∷◌, codes,
  equal, equal_iff, Result, err, if◌then◌else◌, ok, arith,
}
use static_web_server.Fs.Sanitize.{sanitize_path}
use static_web_server.Fs.Meta.{Disk, FileMetadata}
use static_web_server.Fs.Stream.{ReadEvent, gives, collect, optimal_buf_size}
use static_web_server.MemCache
use static_web_server.Http.{Response, Method}
use static_web_server.MemCache.{
  Cache, MemCacheOpts, MemoryCache, Globals, init, Acquired, get_or_acquire, mem_cache_opts,
}
use static_web_server.MemCache.File.{MemFile}
use static_web_server.MemCache.Stream.{
  MemCacheFileStream, poll_mem, collect_mem, caching, file_body,
}
use static_web_server.MemCache.Stream.Same.{collect_mem-collect}
use static_web_server.MemCache.Refines.{
  Server, Reach, here, next, opens, polls, AsDisk, get_or_acquire-refines,
}
use static_web_server.StaticFiles.{HandleOpts, handle}
use static_web_server.StaticFiles.Cached.{handle_cached}
use static_web_server.StaticFiles.Cached.Plain.{IsPlain, Asks, itself}
use static_web_server.StaticFiles.Cached.Same.{SameServed, handle_cached-SameServed}
use static_web_server.Tests.Http.{http}
use static_web_server.Tests.Disk.{file_meta}

abbrev pub Entries : Type 0
Entries = List (Str × MemFile http)

abbrev pub find_entry : Entries → Str → Option (MemFile http)
find_entry [] k = none
find_entry ((j, m) ∷ l) k = let rest = find_entry l k in if equal j k then some m else rest

pub find_entry-insert :
    (s : Entries) (k : Str) (v : MemFile http) (j : Str) (w : MemFile http)
    → find_entry ((k, v) ∷ s) j ≡ some w
    → ((k ≡ j) × (v ≡ w)) ⊎ (find_entry s j ≡ some w)
find_entry-insert s k v j w e = ground (arith, equal_iff k j, e)

abbrev pub moka : Cache (MemFile http)
moka = record {
  Store = Entries;
  build = λ capacity ttl tti. [];
  get = find_entry;
  insert = λ s k v. (k, v) ∷ s;
  elapse = λ n s. s;
  get-build = λ capacity ttl tti k. refl;
  get-insert = find_entry-insert;
  get-elapse = λ n s j w e. e;
}

abbrev path : Bytes
path = codes "/srv/a.txt"

abbrev content : Bytes
content = 10 ∷ 20 ∷ 30 ∷ []

abbrev small_disk : Disk ℕ
small_disk = record {
  metadata = λ p. some (file_meta 3);
  is_symlink = λ p. false;
  open_error = λ p. none;
  seek_fails = λ p n. false;
  read = λ p. some content;
}

abbrev limit : MemCacheOpts
limit = record { max_file_size = 100 }

abbrev copy : MemFile http
copy = record {
  content = content;
  buf_size = 3;
  content_type = http.mime_of_path path;
  last_modified = some 5;
}

abbrev fresh : MemCacheFileStream http
fresh = record {
  stream = record { reader = content; buf_size = 3 };
  mem_opts =
      some (record {
        file_path = path;
        content_type = http.mime_of_path path;
        last_modified = some 5;
      });
  mem_buf = some (record { contents = []; capacity = 3 });
}

abbrev double : ℕ → ℕ
double n = n + n

abbrev reads : List ReadEvent
reads = gives 2 ∷ gives 2 ∷ gives 2 ∷ []

-- Two reads store the file.
stored : (collect_mem http moka double reads fresh []).1 ≡ (path, copy) ∷ []
unfolding collect_mem poll_mem static_web_server.MemCache.Stream.put
    static_web_server.MemCache.Stream.mem_file static_web_server.MemCache.Stream.keep_chunk
    static_web_server.MemCache.Stream.keep_full
stored = refl

collect_mem-collect_example :
    (collect_mem http moka double reads fresh []).0 ≡ collect reads fresh.stream
collect_mem-collect_example = collect_mem-collect http moka double reads fresh []

abbrev nothing_set : Globals http moka
nothing_set = record { cache_store = none; memory_cache = none }

abbrev options : MemoryCache
options = record { capacity = some 10; ttl = none; tti = none; max_file_size = some 1 }

abbrev set_up : Globals http moka
set_up = record { cache_store = some []; memory_cache = some (mem_cache_opts 1) }

initialised : init http moka (some (some options)) nothing_set ≡ ok set_up
unfolding init
initialised = refl

same_n : ℕ → ℕ
same_n n = n

path_key : Bytes → Option Str
path_key p = some p

path_key-inj : (p q : Bytes) (k : Str) → path_key p ≡ some k → path_key q ≡ some k → p ≡ q
unfolding path_key
path_key-inj p q k a b = cc

roomy : (n : ℕ) → n ≤ same_n n
unfolding same_n
roomy n = omega arith

abbrev done : MemCacheFileStream http
done = record fresh { stream = record { reader = []; buf_size = 3 }; mem_buf = none }

abbrev Servers : Type 0
Servers = Server http moka same_n double path_key small_disk

abbrev no_files : Servers
no_files = record { store = []; streams = [] }

abbrev one_open : Servers
one_open = record { store = []; streams = fresh ∷ [] }

abbrev one_stored : Servers
one_stored = record { store = (path, copy) ∷ []; streams = done ∷ [] }

one_stored-Reach : Reach http moka same_n double path_key small_disk no_files one_stored
unfolding optimal_buf_size file_body same_n path_key poll_mem static_web_server.MemCache.Stream.put
    static_web_server.MemCache.Stream.mem_file static_web_server.MemCache.Stream.keep_chunk
    static_web_server.MemCache.Stream.keep_full
one_stored-Reach =
    next
      (next {t = no_files} {u = one_open} here
        (opens limit path (file_meta 3) content 0 3 fresh refl refl refl refl refl))
      (polls (gives 5) [] [] fresh refl refl)

get_or_acquire-refines_example :
    AsDisk http moka same_n double path_key small_disk path
      (file_meta 3)
      []
      (get_or_acquire http moka path_key true (some ((path, copy) ∷ [])) path [])
get_or_acquire-refines_example =
    get_or_acquire-refines http moka same_n double path_key small_disk roomy path_key-inj 10 3600
      300 one_stored one_stored-Reach path (file_meta 3) [] refl (λ s. refl)

abbrev get_a : HandleOpts http
get_a = record {
  method = Method.get;
  headers = ("range", 1 ∷ []) ∷ [];
  base_path = codes "/srv";
  uri_path = codes "/a.txt";
  index_files = [];
  uri_query = none;
  dir_listing = false;
  redirect_trailing_slash = true;
  compression_static = false;
  ignore_hidden_files = true;
  disable_symlinks = true;
}

abbrev as_is : Str → Bytes
as_is s = s

abbrev half : Str → Option ℕ
half s = some 500

abbrev no_listing : FileMetadata ℕ → Result ℕ (Response http)
no_listing f = err 500

names_path : sanitize_path as_is get_a.base_path get_a.uri_path ≡ ok path
unfolding sanitize_path static_web_server.Fs.Paths.components
    static_web_server.Common.trim_start_matches static_web_server.Common.split_on equal
    static_web_server.Fs.Paths.piece static_web_server.Common.is_empty
    static_web_server.Fs.Sanitize.join_component static_web_server.Fs.Paths.push
    static_web_server.Common.ends_with
names_path = refl

path-Asks : Asks http small_disk get_a path path
unfolding static_web_server.Common.ends_with
path-Asks = itself refl refl

path-IsPlain : IsPlain http small_disk get_a path (file_meta 3)
unfolding static_web_server.Fs.Sanitize.is_hidden static_web_server.Fs.Paths.components
    static_web_server.Common.split_on static_web_server.Fs.Paths.piece
    static_web_server.Common.is_empty equal static_web_server.Fs.Paths.is_utf8
    static_web_server.Common.starts_with static_web_server.Http.is_options
path-IsPlain = record {
  known = refl;
  file = refl;
  direct = refl;
  visible = refl;
  no_variant = refl;
  gets = refl;
  opens = refl;
  seeks = λ s. refl;
}

handle_cached-SameServed_example :
    SameServed http small_disk
      (handle_cached http moka as_is half path_key true
        (record { cache_store = some ((path, copy) ∷ []); memory_cache = some limit })
        get_a
        small_disk
        no_listing)
      (handle http as_is half get_a small_disk no_listing)
handle_cached-SameServed_example =
    handle_cached-SameServed http small_disk moka same_n double path_key roomy path_key-inj as_is
      half no_listing 10 3600 300 one_stored one_stored-Reach (some limit) get_a path path
      (file_meta 3) names_path path-Asks path-IsPlain
