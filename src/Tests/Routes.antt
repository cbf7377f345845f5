-- ===== src/Tests/Routes.antt =====
-- Rewrites, virtual hosts and extensions.
use static_web_server.Common.{
  ok, err, ◌⊎◌, ℕ, Str, Bytes, ◌≡◌, refl, Option, none, some, List, [], ◌∷◌, codes, FindsFirst,
}
use static_web_server.Env.Options.{Rewrites, VirtualHosts, RedirectsKind}
use static_web_server.VirtualHosts.{find_root, get_real_root}
use static_web_server.VirtualHosts.Laws.{IsRootOf, get_real_root-IsRootOf}
use static_web_server.ControlHeaders.{get_max_age}
use static_web_server.Tests.Http.{http}
use static_web_server.Tests.Disk.{env}

abbrev rewrites : List (Rewrites env)
rewrites =
    record { source = codes "/a"; destination = codes "/b"; redirect = none }
    ∷ record {
      source = codes "/c";
      destination = codes "/d";
      redirect = some RedirectsKind.permanent;
    }
    ∷ []

abbrev vhosts : List (VirtualHosts env)
vhosts =
    record { host = codes "one.test"; root = codes "/srv/one" }
    ∷ record { host = codes "two.test"; root = codes "/srv/two" }
    ∷ []

abbrev to_two : http.HeaderMap
to_two = ("host", codes "two.test") ∷ []

root_two : get_real_root env to_two (some vhosts) ≡ some (codes "/srv/two")
unfolding get_real_root find_root static_web_server.Common.equal
root_two = refl

get_real_root-IsRootOf_example : IsRootOf env to_two vhosts (codes "/srv/two")
get_real_root-IsRootOf_example =
    get_real_root-IsRootOf env to_two vhosts (codes "/srv/two") root_two

a_year : get_max_age (codes "/x.tar.gz") ≡ 31536000
unfolding get_max_age static_web_server.Common.rsplit_once static_web_server.Common.equal
a_year = refl
