-- ===== src/MemCache/Refines.antt =====
-- The cache as a whole, over a disk that does not change: files are opened, their streams are polled
-- in any order, entries leave the cache; and what a request gets from the cache meanwhile.
use mathlib.Core.Path.{subst}
use static_web_server.Common.{
  some-inj, none-ne-some, ℕ, Str, Bytes, true, false, ◌≡◌, refl, ap, sym, ◌∙◌, ◌≤◌, arith, Option,
  none, some, List, [], ◌∷◌, ◌++◌, All, All-append, take, drop, length, Option-cases, inl, inr,
}
use static_web_server.Http.{Http}
use static_web_server.Conditional.{conditional_headers}
use static_web_server.Fs.Meta.{Metadata, Disk}
use static_web_server.Fs.Stream.{FileStream, ReadEvent, optimal_buf_size}
use static_web_server.Response.{valid_time, response_body}
use static_web_server.MemCache.{
  Cache, MemCacheOpts, Acquired, panics, found, not_found, get_or_acquire,
}
use static_web_server.MemCache.File.{MemFile}
use static_web_server.MemCache.Stream.{
  MemFileTempOpts, MemCacheFileStream, mem_file, poll_mem, FileBody, caching, file_body,
}
use static_web_server.MemCache.Stream.Whole.{AllStored, Reads, KeepsPart, poll_mem-Reads}
use static_web_server.MemCache.Copies.{SameAnswer, IsCopy, mem_response_body-SameAnswer}

module _ (H : Http) (C : Cache (MemFile H)) (with_capacity grow : ℕ → ℕ)
    (path_str : Bytes → Option Str) (D : Disk H.Time) where
  pub record Server : Type 0 where
    pub store : C.Store
    pub streams : List (MemCacheFileStream H)

  -- the stream of `n` bytes of a file from `start`, as src/response.rs makes it
  abbrev pub opened : MemCacheOpts → Bytes → Metadata H.Time → Bytes → ℕ → ℕ → FileBody H
  opened opts path meta content start n =
      file_body H with_capacity (some opts)
        (record { reader = take n (drop start content); buf_size = optimal_buf_size meta }) meta.len
        (path_str path) (H.mime_of_path path) (valid_time H meta.modified)

  pub data Step (s t : Server) : Type 0 where
    -- a file is opened under its own path, with the length that its metadata says
    opens :
        (opts : MemCacheOpts) (path : Bytes) (meta : Metadata H.Time) (content : Bytes)
        (start n : ℕ) (f : MemCacheFileStream H)
        → D.metadata path ≡ some meta
        → D.read path ≡ some content
        → length content ≡ meta.len
        → opened opts path meta content start n ≡ caching f
        → t ≡ record s { streams = f ∷ s.streams }
        → Step s t
    polls :
        (e : ReadEvent) (before after : List (MemCacheFileStream H)) (f : MemCacheFileStream H)
        → s.streams ≡ before ++ f ∷ after
        → t ≡ record {
          store = (poll_mem H C grow e f s.store).1.1;
          streams = before ++ (poll_mem H C grow e f s.store).1.0 ∷ after;
        }
        → Step s t
    elapses : (n : ℕ) → t ≡ record s { store = C.elapse n s.store } → Step s t

  pub data Reach (s : Server) : Server → Type 0 where
    here : Reach s s
    next : {t u : Server} → Reach s t → Step t u → Reach s u

  -- What a key stands for: every path that is written so has this copy.
  abbrev pub Right : Str → MemFile H → Type 0
  Right k m =
      (path : Bytes) (meta : Metadata H.Time)
      → path_str path ≡ some k
      → D.metadata path ≡ some meta
      → IsCopy H D path meta m

  pub record Inv (s : Server) : Type 0 where
    pub stored : AllStored H C grow Right s.store
    pub reads : All (Reads H C grow Right) s.streams

  -- Nothing, or the answer that the file on disk would give.
  abbrev pub AsDisk : Bytes → Metadata H.Time → H.HeaderMap → Acquired H C → Type 0
  AsDisk path meta headers panics = ⊥
  AsDisk path meta headers not_found = Unit
  AsDisk path meta headers (found r) =
      SameAnswer H D r (response_body H D path path meta (conditional_headers H headers))

  All-split :
      (Q : MemCacheFileStream H → Type 0) (before : List (MemCacheFileStream H))
      (f : MemCacheFileStream H) (after : List (MemCacheFileStream H))
      → All Q (before ++ f ∷ after)
      → All Q before × (Q f × All Q after)
  All-split Q [] f after (q, qs) = (tt, (q, qs))
  All-split Q (x ∷ xs) f after (q, qs) =
      let (front, rest) = All-split Q xs f after qs in ((q, front), rest)

  file_body-caching :
      (opts : MemCacheOpts) (s : FileStream) (len : ℕ) (path : Option Str) (mime : H.Mime)
      (modified : Option H.Time) (f : MemCacheFileStream H)
      → file_body H with_capacity (some opts) s len path mime modified ≡ caching f
      → (k : Str) × (path ≡ some k)
        × (f ≡ record {
          stream = s;
          mem_opts = some (record { file_path = k; content_type = mime; last_modified = modified });
          mem_buf = some (record { contents = []; capacity = with_capacity len });
        })
  unfolding file_body
  file_body-caching opts s len none mime modified f h = cc
  file_body-caching opts s len (some k) mime modified f h = (k, refl, ground (arith, h))

  module _ (roomy : (n : ℕ) → n ≤ with_capacity n)
      (path_str-inj : (p q : Bytes) (k : Str)
        → path_str p ≡ some k
        → path_str q ≡ some k
        → p ≡ q) where
    temp_opts : Str → Bytes → Metadata H.Time → MemFileTempOpts H
    temp_opts k path meta = record {
      file_path = k;
      content_type = H.mime_of_path path;
      last_modified = valid_time H meta.modified;
    }

    opened-Right :
        (path : Bytes) (meta : Metadata H.Time) (content : Bytes) (k : Str)
        → D.metadata path ≡ some meta
        → D.read path ≡ some content
        → length content ≡ meta.len
        → path_str path ≡ some k
        → Right k (mem_file H (temp_opts k path meta) content (optimal_buf_size meta))
    unfolding mem_file temp_opts
    opened-Right path meta content k known reads len is_path q meta' written known' =
        let same : q ≡ path = path_str-inj q path k written is_path in
        let same_meta : meta' ≡ meta = some-inj (sym known' ∙ ap D.metadata same ∙ known) in
        record {
          read = ap D.read same ∙ reads;
          len = rw same_meta len;
          buf_size = rw same_meta refl;
          content_type = rw same refl;
          last_modified = rw same_meta refl;
        }

    opened-Reads :
        (opts : MemCacheOpts) (path : Bytes) (meta : Metadata H.Time) (content : Bytes)
        (start n : ℕ) (f : MemCacheFileStream H)
        → D.metadata path ≡ some meta
        → D.read path ≡ some content
        → length content ≡ meta.len
        → opened opts path meta content start n ≡ caching f
        → Reads H C grow Right f
    unfolding temp_opts
    opened-Reads opts path meta content start n f known reads len made =
        let (k, is_path, made_of) = file_body-caching opts _ _ _ _ _ f made in
        subst (Reads H C grow Right) (sym made_of) (record {
          content = content;
          kept = λ o b _ e.
              subst (λ x. KeepsPart content x (take n (drop start content))) (some-inj e)
                (record {
                  start = start;
                  n = n;
                  part = refl;
                  room = omega (arith, len, roomy meta.len);
                });
          right = λ o e.
              subst (λ x. Right x.file_path (mem_file H x content (optimal_buf_size meta)))
                (some-inj e) (opened-Right path meta content k known reads len is_path);
        })

    -- The stores and the streams stay right under every step.
    Step-Inv : (s t : Server) → Step s t → Inv s → Inv t
    Step-Inv s t (opens opts path meta content start n f known reads len made e) h =
        subst Inv (sym e) (record {
          stored = h.stored;
          reads = (opened-Reads opts path meta content start n f known reads len made, h.reads);
        })
    Step-Inv s t (elapses n e) h =
        subst Inv (sym e) (record {
          stored = λ k m g. h.stored k m (C.get-elapse n s.store k m g);
          reads = h.reads;
        })
    Step-Inv s t (polls e before after f at eq) h =
        let (front, (this, back)) =
          All-split (Reads H C grow Right) before f after
            (subst (All (Reads H C grow Right)) at h.reads) in
        let (this', stored') = poll_mem-Reads H C grow Right e f s.store this h.stored in
        subst Inv (sym eq) (record {
          stored = stored';
          reads = All-append (Reads H C grow Right) before _ front (this', back);
        })

    Reach-Inv : {s t : Server} → Reach s t → Inv s → Inv t
    Reach-Inv here h = h
    Reach-Inv (next {t} {u} r st) h = Step-Inv t u st (Reach-Inv r h)

    -- From an empty cache on, whatever files are opened, streams are polled and entries leave: what a
    -- request gets from the cache for a file is nothing, or the answer that the file on disk would
    -- give. Every file is opened under its own path and is as long as its metadata says, a path is
    -- written in one way only, and the file can be sought in.
    pub get_or_acquire-refines :
        (capacity ttl tti : ℕ) (t : Server)
        → Reach (record { store = C.build capacity ttl tti; streams = [] }) t
        → (path : Bytes) (meta : Metadata H.Time) (headers : H.HeaderMap)
        → D.metadata path ≡ some meta
        → ((s : ℕ) → D.seek_fails path s ≡ false)
        → AsDisk path meta headers (get_or_acquire H C path_str true (some t.store) path headers)
    unfolding get_or_acquire
    get_or_acquire-refines capacity ttl tti t r path meta headers known seeks =
        let empty_Inv : Inv (record { store = C.build capacity ttl tti; streams = [] }) = record {
          stored = λ k m e. absurd (none-ne-some (sym (C.get-build capacity ttl tti k) ∙ e));
          reads = tt;
        } in
        elim (Option-cases (path_str path)) [
          | inl e ↦ rw (AsDisk, e) tt
          | inr (k, e) ↦ elim (Option-cases (C.get t.store k)) [
            | inl miss ↦ rw (AsDisk, e, miss) tt
            | inr (m, hit) ↦
                rw (AsDisk, e, hit)
                  (mem_response_body-SameAnswer H D path meta m headers
                    ((Reach-Inv r empty_Inv).stored k m hit path meta e known) seeks)
          ]
        ]
