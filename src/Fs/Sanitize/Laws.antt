-- ===== src/Fs/Sanitize/Laws.antt =====
-- Where a sanitized path leads, and when it is hidden.
use static_web_server.Common.{
  Str, Bytes, Bool, ◌≡◌, refl, sym, ap, ◌∙◌, ◌||◌, ◌&&◌, List, [], ◌∷◌, ◌++◌, any, keep, ok,
  starts_with, All, arith, append_assoc, append-nil,
}
use static_web_server.Fs.Paths.{
  Component, root_dir, cur_dir, parent_dir, prefix, normal, components, push, is_utf8,
}
use static_web_server.Fs.Paths.Laws.{
  IsName, IsPlain, components-push, components-IsPlain, components_of_IsName,
}
use static_web_server.Fs.Sanitize.{
  is_normal, join_component, join_all, decode_tail_path, sanitize_path, is_hidden_component,
  is_hidden,
}

-- The components that are names, each of which is an entry's name.
abbrev pub AreNames : List Component → Type 0
AreNames [] = Unit
AreNames (normal s ∷ l) = IsName s × AreNames l
AreNames (_ ∷ l) = ⊥

join_component-components :
    (base : Bytes) (c : Component)
    → IsPlain c
    → components (join_component base c) ≡ components base ++ keep is_normal (c ∷ [])
unfolding join_component
join_component-components base (normal s) h =
    rw (components_of_IsName s h) (components-push base s h)
join_component-components base root_dir h = sym (append-nil _)
join_component-components base cur_dir h = sym (append-nil _)
join_component-components base parent_dir h = sym (append-nil _)
join_component-components base (prefix s) h = sym (append-nil _)

keep-cons {ℓ} :
    {A : Type ℓ} (p : A → Bool) (x : A) (l : List A) → keep p (x ∷ []) ++ keep p l ≡ keep p (x ∷ l)
keep-cons p x l = ground arith

join_all-components :
    (base : Bytes) (cs : List Component)
    → All IsPlain cs
    → components (join_all base cs) ≡ components base ++ keep is_normal cs
join_all-components base [] h = sym (append-nil _)
join_all-components base (c ∷ cs) (p, h) =
    join_all-components (join_component base c) cs h
    ∙ ap (λ l. l ++ keep is_normal cs) (join_component-components base c p)
    ∙ append_assoc (components base) _ _
    ∙ ap (λ l. components base ++ l) (keep-cons is_normal c cs)

keep-AreNames : (cs : List Component) → All IsPlain cs → AreNames (keep is_normal cs)
keep-AreNames [] h = tt
keep-AreNames (normal s ∷ cs) (p, h) = (p, keep-AreNames cs h)
keep-AreNames (root_dir ∷ cs) (p, h) = keep-AreNames cs h
keep-AreNames (cur_dir ∷ cs) (p, h) = keep-AreNames cs h
keep-AreNames (parent_dir ∷ cs) (p, h) = keep-AreNames cs h
keep-AreNames (prefix s ∷ cs) (p, h) = keep-AreNames cs h

-- Whatever the request path and the decoder, `sanitize_path` succeeds, and the components of its
-- path are those of the root directory, followed by the names among the components of the decoded
-- request path, in order. Each of these names is not "", "." or ".." and has no slash, so the path
-- stays below the root directory.
pub sanitize_path-components :
    (percent_decode : Str → Bytes) (base : Bytes) (tail : Str)
    → (p : Bytes) × (names : List Component) × (sanitize_path percent_decode base tail ≡ ok p)
      × (components p ≡ components base ++ names)
      × (names ≡ keep is_normal (components (decode_tail_path percent_decode tail)))
      × AreNames names
unfolding sanitize_path
sanitize_path-components percent_decode base tail =
    let cs = components (decode_tail_path percent_decode tail) in
    let plain = components-IsPlain (decode_tail_path percent_decode tail) in
    (
      join_all base cs,
      keep is_normal cs,
      refl,
      join_all-components base cs plain,
      refl,
      keep-AreNames cs plain,
    )

any-append {ℓ} :
    {A : Type ℓ} (p : A → Bool) (xs ys : List A) → any p (xs ++ ys) ≡ (any p xs || any p ys)
any-append p [] ys = refl
any-append p (x ∷ xs) ys = ground (arith, any-append p xs ys)

any-keep :
    (cs : List Component) → any is_hidden_component (keep is_normal cs) ≡ any is_hidden_component cs
any-keep [] = refl
any-keep (normal s ∷ cs) = ap (λ b. is_hidden_component (normal s) || b) (any-keep cs)
any-keep (root_dir ∷ cs) = any-keep cs
any-keep (cur_dir ∷ cs) = any-keep cs
any-keep (parent_dir ∷ cs) = any-keep cs
any-keep (prefix s ∷ cs) = any-keep cs

-- A sanitized path is hidden exactly when the root directory's path or the decoded request path is.
pub is_hidden-sanitize_path :
    (percent_decode : Str → Bytes) (base : Bytes) (tail : Str) (p : Bytes)
    → sanitize_path percent_decode base tail ≡ ok p
    → is_hidden p ≡ (is_hidden base || is_hidden (decode_tail_path percent_decode tail))
unfolding sanitize_path is_hidden
is_hidden-sanitize_path percent_decode base tail p e =
    let cs = components (decode_tail_path percent_decode tail) in
    let same : join_all base cs ≡ p = cc in
    rw (← same) (
      ap (any is_hidden_component)
        (join_all-components base cs (components-IsPlain (decode_tail_path percent_decode tail)))
      ∙ any-append is_hidden_component (components base) (keep is_normal cs)
      ∙ ap (λ b. any is_hidden_component (components base) || b) (any-keep cs))

-- With an entry's name pushed, a path is hidden exactly when it was, or when the name begins with a
-- dot and is UTF-8; so a dotfile whose name is not UTF-8 does not count as hidden.
pub is_hidden-push :
    (base s : Bytes)
    → IsName s
    → is_hidden (push base s) ≡ (is_hidden base || (is_utf8 s && starts_with b'.' s))
unfolding is_hidden
is_hidden-push base s h =
    let e =
      ap (any is_hidden_component) (components-push base s h)
      ∙ any-append is_hidden_component (components base) (normal s ∷ []) in
    ground (arith, e)
