-- ===== src/VirtualHosts/Laws.antt =====
-- Which root a host has.
use static_web_server.Common.{
  Str, Bytes, Bool, false, ◌≡◌, refl, ap, some, List, [], ◌∷◌, equal, IsFirst, Bool-cases,
  Option-cases, inl, inr,
}
use static_web_server.Http.{get}
use static_web_server.Env.{Env}
use static_web_server.Env.Options.{VirtualHosts}
use static_web_server.VirtualHosts.{find_root, get_real_root}

module _ (E : Env) where
  -- the entry is for the host
  abbrev pub serves : Str → VirtualHosts E → Bool
  serves host vhost = equal vhost.host host

  -- The root of the first entry for the host that the `Host` header names.
  pub record IsRootOf (headers : E.http.HeaderMap) (vhosts : List (VirtualHosts E)) (root : Bytes)
      : Type 0 where
    pub value : Str
    pub host : Str
    pub vhost : VirtualHosts E
    pub has_host : get E.http headers "host" ≡ some value
    pub is_text : E.http.to_str value ≡ some host
    pub is_first : IsFirst (serves host) vhosts vhost
    pub is_root : vhost.root ≡ root

  FirstRoot : Str → List (VirtualHosts E) → Bytes → Type 0
  FirstRoot host l root = (v : VirtualHosts E) × IsFirst (serves host) l v × (v.root ≡ root)

  later_root :
      (v : VirtualHosts E) (l : List (VirtualHosts E)) (host : Str) (root : Bytes)
      → serves host v ≡ false
      → FirstRoot host l root
      → FirstRoot host (v ∷ l) root
  unfolding FirstRoot
  later_root v l host root e (w, f, same) = (
    w,
    record {
      before = v ∷ f.before;
      after = f.after;
      split = ap (◌∷◌ v) f.split;
      passes = f.passes;
      fails = (e, f.fails);
    },
    same,
  )

  find_root-FirstRoot :
      (l : List (VirtualHosts E)) (host : Str) (root : Bytes)
      → find_root E l host ≡ some root
      → FirstRoot host l root
  unfolding find_root FirstRoot
  find_root-FirstRoot [] host root h = cc
  find_root-FirstRoot (v ∷ l) host root h = elim (Bool-cases (serves host v)) [
    | inl e ↦
        let same : v.root ≡ root = cc (rw (e, find_root) at h) in
        (v, record { before = []; after = l; split = refl; passes = e; fails = tt }, same)
    | inr e ↦ later_root v l host root e (find_root-FirstRoot l host root (rw (e, find_root) at h))
  ]

  -- Another root is chosen only for a request whose `Host` header is exactly the name of a
  -- configured host, and it is that of the first entry with this name.
  pub get_real_root-IsRootOf :
      (headers : E.http.HeaderMap) (vhosts : List (VirtualHosts E)) (root : Bytes)
      → get_real_root E headers (some vhosts) ≡ some root
      → IsRootOf headers vhosts root
  unfolding get_real_root FirstRoot
  get_real_root-IsRootOf headers vhosts root h = elim (Option-cases (get E.http headers "host")) [
    | inl e ↦ cc (rw (e, get_real_root) at h)
    | inr (value, e) ↦ elim (Option-cases (E.http.to_str value)) [
      | inl t ↦ cc (rw (e, t, get_real_root) at h)
      | inr (host, t) ↦
          let (v, first, same) =
            find_root-FirstRoot vhosts host root (rw (e, t, get_real_root) at h) in
          record {
            value = value;
            host = host;
            vhost = v;
            has_host = e;
            is_text = t;
            is_first = first;
            is_root = same;
          }
    ]
  ]
