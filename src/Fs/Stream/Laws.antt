-- ===== src/Fs/Stream/Laws.antt =====
-- What a client gets from a stream of a file.
use static_web_server.Common.{
  ℕ, zero, suc, Bytes, true, false, ◌≡◌, refl, ap, ◌∙◌, sym, ◌≤◌, ◌<◌, ◌+◌, Option, some, List, [],
  ◌∷◌, ◌++◌, length, take, drop, min, max, ◌==◌, ==_iff, All, arith, ◌⊎◌, inl, inr, Bool-cases,
}
use static_web_server.Fs.Meta.{Metadata}
use static_web_server.Fs.Stream.{
  FileStream, ReadEvent, gives, fails, end, chunk, read_count, poll_next, gather, collect,
  optimal_buf_size,
}

abbrev pub concat : List Bytes → Bytes
concat [] = []
concat (b ∷ bs) = b ++ concat bs

-- Every read succeeds, and may give at least one byte.
abbrev pub Progresses : ReadEvent → Type 0
Progresses (gives most) = 0 < most
Progresses fails = ⊥

-- A chunk that is not empty and fits the buffer.
abbrev pub Fits : ℕ → Bytes → Type 0
Fits size b = (0 < length b) × (length b ≤ size)

-- All chunks that a client collects, in order, and what they are.
pub record Delivers (content : Bytes) (size : ℕ) (got : Option (List Bytes)) : Type 0 where
  pub chunks : List Bytes
  pub collected : got ≡ some chunks
  pub whole : concat chunks ≡ content
  pub fit : All (Fits size) chunks

pub take-append-drop : (n : ℕ) (xs : Bytes) → take n xs ++ drop n xs ≡ xs
take-append-drop zero xs = refl
take-append-drop (suc n) [] = refl
take-append-drop (suc n) (x ∷ xs) = ap (◌∷◌ x) (take-append-drop n xs)

pub length-take : (n : ℕ) (xs : Bytes) → length (take n xs) ≡ min n (length xs)
length-take zero xs = omega arith
length-take (suc n) [] = omega arith
length-take (suc n) (x ∷ xs) = omega (arith, length-take n xs)

pub length-drop : (n : ℕ) (xs : Bytes) → length (drop n xs) + min n (length xs) ≡ length xs
length-drop zero xs = omega arith
length-drop (suc n) [] = omega arith
length-drop (suc n) (x ∷ xs) = omega (arith, length-drop n xs)

pub nil_of_length : (xs : Bytes) → length xs ≡ 0 → xs ≡ []
nil_of_length [] h = refl
nil_of_length (x ∷ xs) h = absurd (omega arith)

length_nil : (xs : Bytes) → xs ≡ [] → length xs ≡ 0
length_nil xs h = rw h refl

drop_nil : (n : ℕ) (xs : Bytes) → xs ≡ [] → drop n xs ≡ []
drop_nil zero xs h = h
drop_nil (suc n) [] h = refl
drop_nil (suc n) (x ∷ xs) h = cc

-- What the reader holds once nothing more is read.
nothing_left :
    (most : ℕ) (s : FileStream)
    → 0 < most
    → (0 < s.buf_size) ⊎ (s.reader ≡ [])
    → read_count most s ≡ 0
    → [] ≡ s.reader
nothing_left most s pos (inl size) e = sym (nil_of_length s.reader (omega arith))
nothing_left most s pos (inr nil) e = sym nil

room_later :
    (n : ℕ) (s : FileStream)
    → (0 < s.buf_size) ⊎ (s.reader ≡ [])
    → (0 < s.buf_size) ⊎ (drop n s.reader ≡ [])
room_later n s (inl size) = inl size
room_later n s (inr nil) = inr (drop_nil n s.reader nil)

-- One poll that gives a chunk, and then the rest.
Delivers-chunk :
    (n : ℕ) (size : ℕ) (content : Bytes) (rest : Option (List Bytes))
    → 0 < min n (length content)
    → n ≤ size
    → Delivers (drop n content) size rest
    → Delivers content size (gather (chunk (take n content)) rest)
Delivers-chunk n size content rest pos fits d = record {
  chunks = take n content ∷ d.chunks;
  collected = rw d.collected;
  whole = ap (λ l. take n content ++ l) d.whole ∙ take-append-drop n content;
  fit = ((omega (arith, length-take n content), omega (arith, length-take n content)), d.fit);
}

poll_next_end :
    (most : ℕ) (s : FileStream)
    → (read_count most s == 0) ≡ true
    → poll_next (gives most) s ≡ (end, s)
unfolding poll_next
poll_next_end most s e = rw e

poll_next_chunk :
    (most : ℕ) (s : FileStream)
    → (read_count most s == 0) ≡ false
    → poll_next (gives most) s ≡ (
      chunk (take (read_count most s) s.reader),
      record s { reader = drop (read_count most s) s.reader },
    )
unfolding poll_next
poll_next_chunk most s e = rw e

-- When every read succeeds and may give a byte, and the client polls once more than there are
-- bytes, the stream ends, and its chunks are the content in order, none of them empty or longer than
-- the buffer. The buffer has room, unless there is nothing to read.
pub collect-Delivers :
    (events : List ReadEvent) (s : FileStream)
    → All Progresses events
    → length s.reader < length events
    → (0 < s.buf_size) ⊎ (s.reader ≡ [])
    → Delivers s.reader s.buf_size (collect events s)
unfolding collect
collect-Delivers [] s h few room = absurd (omega arith)
collect-Delivers (fails ∷ es) s (h, _) few room = absurd h
collect-Delivers (gives most ∷ es) s (pos, h) few room =
    elim (Bool-cases (read_count most s == 0)) [
      | inl none_read ↦ rw (poll_next_end most s none_read) (record {
        chunks = [];
        collected = refl;
        whole = nothing_left most s pos room ((==_iff _ 0).0 none_read);
        fit = tt;
      })
      | inr read ↦
          let n = read_count most s in
          let some_read : 0 < n = ground arith in
          rw (poll_next_chunk most s read) (
            Delivers-chunk n s.buf_size s.reader _ (omega arith) (omega arith) (
              collect-Delivers es (record s { reader = drop n s.reader }) h
                (omega (arith, length-drop n s.reader)) (room_later n s room)))
    ]

module _ {Time : Type 0} where
  -- The buffer for a file is never larger than the file, and has room unless the file is empty.
  pub optimal_buf_size_bounds :
      (m : Metadata Time) → (optimal_buf_size m ≤ m.len) × ((0 < optimal_buf_size m) ⊎ (m.len ≡ 0))
  unfolding optimal_buf_size
  optimal_buf_size_bounds m = (omega arith, pick (Bool-cases (m.len == 0)))
    where
      pick :
          ((m.len == 0) ≡ true) ⊎ ((m.len == 0) ≡ false)
          → (0 < min (max m.blksize 4096) m.len) ⊎ (m.len ≡ 0)
      pick (inl e) = inr ((==_iff m.len 0).0 e)
      pick (inr e) = let pos : 0 < m.len = ground arith in inl (omega arith)
