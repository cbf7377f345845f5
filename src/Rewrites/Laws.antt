-- ===== src/Rewrites/Laws.antt =====
-- Which entry a request matches.
use static_web_server.Common.{
  Str, Bool, true, false, ◌≡◌, refl, Option, some, List, [], ◌∷◌, if◌then◌else◌, FindsFirst,
  FindsFirst-skip,
}
use static_web_server.Env.{Env}
use static_web_server.Env.Options.{Rewrites}
use static_web_server.Rewrites.{rewrite_uri_path}

module _ (E : Env) (uri_path : Str) where
  abbrev pub matches : Rewrites E → Bool
  matches entry = E.is_match entry.source uri_path

  match_step :
      (b : Bool) (entry : Rewrites E) (l : List (Rewrites E)) (rest : Option (Rewrites E))
      → matches entry ≡ b
      → FindsFirst matches l rest
      → FindsFirst matches (entry ∷ l) (if b then some entry else rest)
  unfolding FindsFirst
  match_step false entry l rest m f = FindsFirst-skip matches entry l rest m f
  match_step true entry l rest m f = record {
    before = [];
    after = l;
    split = refl;
    passes = m;
    fails = tt;
  }

  -- The rewrite of a request is the first entry whose pattern matches its path, or none if no entry's
  -- does.
  pub rewrite_uri_path-FindsFirst :
      (l : List (Rewrites E)) → FindsFirst matches l (rewrite_uri_path E uri_path l)
  unfolding FindsFirst rewrite_uri_path
  rewrite_uri_path-FindsFirst [] = tt
  rewrite_uri_path-FindsFirst (entry ∷ l) =
      match_step _ entry l (rewrite_uri_path E uri_path l) refl (rewrite_uri_path-FindsFirst l)
