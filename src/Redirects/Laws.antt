-- ===== src/Redirects/Laws.antt =====
-- Which entry a request matches.
use static_web_server.Common.{
  FindsFirst, FindsFirst-skip, Str, Bool, true, false, not, ◌≡◌, refl, Option, some, List, [], ◌∷◌,
  if◌then◌else◌, ◌&&◌, arith,
}
use static_web_server.Env.{Env}
use static_web_server.Env.Options.{Redirects}
use static_web_server.Redirects.{host_matches, get_redirection}

module _ (E : Env) (uri_host uri_path : Str) where
  -- an entry applies if its host, where it has one, is that of the request and its pattern matches
  pub applies : Redirects E → Bool
  applies entry = host_matches E entry.host uri_host && E.is_match entry.source uri_path

  first_step :
      (a b : Bool) (entry : Redirects E) (l : List (Redirects E)) (rest : Option (Redirects E))
      → host_matches E entry.host uri_host ≡ a
      → E.is_match entry.source uri_path ≡ b
      → FindsFirst applies l rest
      → FindsFirst applies (entry ∷ l) (if not a then rest else if b then some entry else rest)
  unfolding FindsFirst applies
  first_step false b entry l rest h m f = FindsFirst-skip applies entry l rest (ground (arith, h)) f
  first_step true false entry l rest h m f =
      FindsFirst-skip applies entry l rest (ground (arith, h, m)) f
  first_step true true entry l rest h m f = record {
    before = [];
    after = l;
    split = refl;
    passes = ground (arith, h, m);
    fails = tt;
  }

  -- The redirection of a request is the first entry that applies to it, or none if no entry applies.
  pub get_redirection-FindsFirst :
      (l : List (Redirects E)) → FindsFirst applies l (get_redirection E uri_host uri_path l)
  unfolding FindsFirst get_redirection applies
  get_redirection-FindsFirst [] = tt
  get_redirection-FindsFirst (entry ∷ l) =
      first_step _ _ entry l (get_redirection E uri_host uri_path l) refl refl
        (get_redirection-FindsFirst l)
