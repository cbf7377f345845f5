-- ===== src/Compression/Text.antt =====
-- The types of content that compression takes for text.
use static_web_server.Common.{
  ◌↔◌, Str, Option, List, [], ◌∷◌, true, arith, any, equal, equal_iff, ◌≡◌, none, some, codes,
  Option-cases, ◌⊎◌, inl, inr,
}
use static_web_server.Http.{Http, Response}
use static_web_server.Compression.{text_mime_types, is_text}

module _ (H : Http) where
  abbrev Listed : Str → List Str → Type 0
  Listed s [] = ⊥
  Listed s (t ∷ l) = (t ≡ s) ⊎ Listed s l

  Listed-any : (s : Str) (l : List Str) → (any (λ t. equal t s) l ≡ true) ↔ Listed s l
  Listed-any s [] = ground arith
  Listed-any s (t ∷ l) = ground (arith, equal_iff t s, Listed-any s l)

  abbrev IsMarkup : Option Str → Type 0
  IsMarkup none = ⊥
  IsMarkup (some suffix) = (suffix ≡ codes "xml") ⊎ (suffix ≡ codes "json")

  -- A type of text: a type `text`, XML and JSON by their suffix, and the types on the list.
  abbrev pub IsText : H.Mime → Type 0
  IsText mime =
      (H.mime_type mime ≡ codes "text")
      ⊎ IsMarkup (H.mime_suffix mime)
      ⊎ Listed (H.mime_essence mime) text_mime_types

  pub is_text_iff : (mime : H.Mime) → (is_text H mime ≡ true) ↔ IsText mime
  unfolding is_text
  is_text_iff mime = elim (Option-cases (H.mime_suffix mime)) [
    | inl e ↦
        rw (e, is_text)
          (ground (
            arith,
            equal_iff (H.mime_type mime) (codes "text"),
            Listed-any (H.mime_essence mime) text_mime_types,
          ))
    | inr (suffix, e) ↦
        rw (e, is_text)
          (ground (
            arith,
            equal_iff (H.mime_type mime) (codes "text"),
            equal_iff suffix (codes "xml"),
            equal_iff suffix (codes "json"),
            Listed-any (H.mime_essence mime) text_mime_types,
          ))
  ]

  -- The response declares no type, or one of text.
  abbrev pub HasText : Response H → Type 0
  HasText resp = (mime : H.Mime) → H.typed_content_type resp.headers ≡ some mime → IsText mime
