-- ===== src/Tests/Replies.antt =====
-- Ranges, conditional requests and replies.
use static_web_server.Common.{Bytes, ◌≡◌, refl, none, some, [], ◌∷◌, codes, ok, err, inl, arith}
use static_web_server.Http.{Response, Bound, unbounded, included}
use static_web_server.Conditional.{conditional_headers, with_body, check}
use static_web_server.Conditional.Laws.{Answers, check-Answers}
use static_web_server.Response.{bad_range_error, bytes_range, valid_time, response_body}
use static_web_server.Response.Ranges.{
  bytes_range-selected, bytes_range_at_end, bytes_range_last_u64, selected, or_bad,
}
use static_web_server.Response.Replies.{
  Carries, response_body-Carries, Serves, response_body-Serves,
}
use static_web_server.Tests.Http.{http}
use static_web_server.Tests.Disk.{disk, file_meta}

abbrev from_4 : Bound × Bound
from_4 = (included 4, unbounded)

abbrev path : Bytes
path = codes "/srv/public/a.txt"

selected_4 : bytes_range (some (from_4 ∷ [])) 9 ≡ ok (4, 9)
unfolding bytes_range
selected_4 = refl

bytes_range-selected_example :
    bytes_range (some ((included 2, included 30) ∷ [])) 9
    ≡ or_bad (selected 9 (included 2, included 30))
bytes_range-selected_example =
    bytes_range-selected 9 (included 2, included 30) [] (omega arith, inl (λ e. omega (arith, e)))

bytes_range_at_end_example :
    (bytes_range (some ((included 9, included 12) ∷ [])) 9 ≡ ok (9, 9))
    × (selected 9 (included 9, included 12) ≡ none)
bytes_range_at_end_example = bytes_range_at_end 9 12 [] (omega arith) (omega arith)

bytes_range_last_u64_example :
    (bytes_range (some ((included 2, included 18446744073709551615) ∷ [])) 9 ≡ err bad_range_error)
    × (selected 9 (included 2, included 18446744073709551615) ≡ some (2, 9))
bytes_range_last_u64_example = bytes_range_last_u64 2 9 [] (omega arith) (omega arith)

-- a request for the bytes from the fourth on, of a file that was not changed since
abbrev ranged : http.HeaderMap
ranged = ("range", 4 ∷ []) ∷ []

check-Answers_example :
    Answers http ranged (some 5) (check http (conditional_headers http ranged) (some 5))
check-Answers_example = check-Answers http ranged (some 5)

checked :
    check http (conditional_headers http ranged) (valid_time http (some 5))
    ≡ with_body (some (from_4 ∷ []))
unfolding check conditional_headers
checked = refl

response_body-Carries_example :
    (resp : Response http) × (response_body http disk path path
        (file_meta 9)
        (conditional_headers http ranged)
      ≡ ok resp)
    × Carries http path path (file_meta 9) 4 9 resp
response_body-Carries_example =
    response_body-Carries http disk path path (file_meta 9) (conditional_headers http ranged)
      (some (from_4 ∷ [])) 4 9 (4 ∷ 9 ∷ 9 ∷ []) checked selected_4 refl refl

abbrev behind : http.HeaderMap
behind = ("range", 20 ∷ []) ∷ []

response_body-Serves_example :
    (resp : Response http) × (response_body http disk path path
        (file_meta 9)
        (conditional_headers http behind)
      ≡ ok resp)
    × Serves http path path (file_meta 9) (selected 9 (included 20, unbounded)) resp
response_body-Serves_example =
    response_body-Serves http disk path path (file_meta 9) behind (included 20, unbounded) [] refl
      (λ f. cc) (λ f. cc) (λ o. cc) tt (λ s. refl) (λ s e h k. (s ∷ e ∷ 9 ∷ [], refl))
