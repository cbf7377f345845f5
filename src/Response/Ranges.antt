-- ===== src/Response/Ranges.antt =====
-- What `bytes_range` selects.
use static_web_server.Common.{
  ℕ, ◌+◌, ◌-◌, ◌^◌, ◌≤◌, ◌<◌, min, ◌&&◌, ◌≡◌, ◌≢◌, ◌⊎◌, Option, none, some, List, [], ◌∷◌, ltb, leb,
  if◌then◌else◌, Result, ok, err, arith,
}
use static_web_server.Http.{Bound, unbounded, included}
use static_web_server.Response.{RangeError, bad_range_error, one_range, bytes_range}

one_range_bounds :
    (max_len : ℕ) (r : Bound × Bound) (s e : ℕ)
    → one_range max_len r ≡ ok (s, e)
    → (s ≤ e) × (e ≤ max_len)
unfolding one_range
one_range_bounds max_len (unbounded, unbounded) s e h = ground arith
one_range_bounds max_len (unbounded, included b) s e h = ground arith
one_range_bounds max_len (included a, unbounded) s e h = ground arith
one_range_bounds max_len (included a, included b) s e h = ground arith

-- Whatever range is asked for, the bytes selected lie within the file: the start is not behind the
-- end, so that `end - start` does not wrap, and the end is not behind the end of the file.
pub bytes_range_bounds :
    (range : Option (List (Bound × Bound))) (max_len s e : ℕ)
    → bytes_range range max_len ≡ ok (s, e)
    → (s ≤ e) × (e ≤ max_len)
unfolding bytes_range
bytes_range_bounds none max_len s e h = ground arith
bytes_range_bounds (some []) max_len s e h = cc
bytes_range_bounds (some (r ∷ _)) max_len s e h = one_range_bounds max_len r s e h

-- RFC 9110, section 14: the bytes from `.0` up to and without `.1` that a piece of a range selects
-- in a file of `len` bytes; nothing, if it cannot be satisfied.
abbrev pub selected : ℕ → Bound × Bound → Option (ℕ × ℕ)
selected len (included a, included b) =
    if leb a b && ltb a len then some (a, min (b + 1) len) else none
selected len (included a, unbounded) = if ltb a len then some (a, len) else none
selected len (unbounded, included n) = if ltb 0 n && ltb 0 len then some (len - n, len) else none
selected len (unbounded, unbounded) = if ltb 0 len then some (0, len) else none

pub selected_bounds :
    (len : ℕ) (r : Bound × Bound) (s e : ℕ) → selected len r ≡ some (s, e) → (s < e) × (e ≤ len)
selected_bounds len (unbounded, unbounded) s e h = ground arith
selected_bounds len (unbounded, included n) s e h = ground arith
selected_bounds len (included a, unbounded) s e h = ground arith
selected_bounds len (included a, included b) s e h = ground arith

abbrev pub or_bad : Option (ℕ × ℕ) → Result RangeError (ℕ × ℕ)
or_bad none = err bad_range_error
or_bad (some r) = ok r

-- A piece with both bounds does not end at the last u64, and does not start at the end of the file
-- and end behind it.
abbrev pub IsRegular : ℕ → Bound × Bound → Type 0
IsRegular len (included a, included b) = (b + 1 < 2 ^ 64) × ((a ≢ len) ⊎ (b ≤ len))
IsRegular len _ = Unit

-- The first piece of a range selects the bytes that RFC 9110 says, and is refused where the RFC says
-- that it cannot be satisfied, if the piece is regular.
pub bytes_range-selected :
    (len : ℕ) (r : Bound × Bound) (later : List (Bound × Bound))
    → IsRegular len r
    → bytes_range (some (r ∷ later)) len ≡ or_bad (selected len r)
unfolding bytes_range
bytes_range-selected len (unbounded, unbounded) later h = ground arith
bytes_range-selected len (unbounded, included n) later h = ground arith
bytes_range-selected len (included a, unbounded) later h = ground arith
bytes_range-selected len (included a, included b) later h = ground arith

-- What happens to the pieces that are not regular: one that starts at the end of the file and ends
-- behind it selects no byte and is not refused, though it cannot be satisfied.
pub bytes_range_at_end :
    (len b : ℕ) (later : List (Bound × Bound))
    → len < b
    → b + 1 < 2 ^ 64
    → (bytes_range (some ((included len, included b) ∷ later)) len ≡ ok (len, len))
      × (selected len (included len, included b) ≡ none)
unfolding bytes_range
bytes_range_at_end len b later h k = (ground arith, ground arith)

-- A piece that ends at the last u64 is refused, in a file that is shorter, though it selects all that
-- follows its start.
pub bytes_range_last_u64 :
    (a len : ℕ) (later : List (Bound × Bound))
    → a < len
    → len + 1 < 2 ^ 64
    → (bytes_range (some ((included a, included 18446744073709551615) ∷ later)) len
        ≡ err bad_range_error)
      × (selected len (included a, included 18446744073709551615) ≡ some (a, len))
unfolding bytes_range
bytes_range_last_u64 a len later h k = (ground arith, ground arith)
