-- ===== src/Fs/Paths/Siblings.antt =====
-- The parent and the name of a path that ends in names.
use mathlib.Core.List.{reverse, reverse-append, reverse-reverse}
use static_web_server.Common.{
  ℕ, Bytes, Bool, true, false, ◌≡◌, refl, sym, ap, ◌∙◌, ◌≢◌, some, List, [], ◌∷◌, ◌++◌, ◌==◌, arith,
  codes, equal_iff, Bool-cases, ==_iff, cons_first, inl, inr, All-append, Lacks, split_on,
  split_on-append, split_on-ne-nil, split_on_of_Lacks, ends_with, is_empty,
}
use static_web_server.Fs.Paths.{
  push, strip, join, last_name, but_last, parent, pop, file_name, set_file_name,
}
use static_web_server.Fs.Paths.Laws.{IsName}

-- A path `g/n`, whatever the slashes in `g` are.
abbrev pub child : Bytes → Bytes → Bytes
child g n = g ++ b'/' ∷ n

strip-IsName : (abs : Bool) (n : Bytes) (l : List Bytes) → IsName n → strip abs (n ∷ l) ≡ n ∷ l
unfolding strip is_empty
strip-IsName abs [] l h = absurd (h.0 refl)
strip-IsName true (c ∷ s) l h = ground (arith, equal_iff (c ∷ s) (b'.' ∷ []), h.1)
strip-IsName false (c ∷ s) [] h = refl
strip-IsName false (c ∷ s) (t ∷ l) h = ground (arith, equal_iff (c ∷ s) (b'.' ∷ []), h.1)

last_name-IsName : (n : Bytes) (l : List Bytes) → IsName n → last_name (n ∷ l) ≡ some n
unfolding last_name
last_name-IsName n l h =
    ground (arith, equal_iff n (b'.' ∷ []), equal_iff n (b'.' ∷ b'.' ∷ []), h.1, h.2)

reverse-split_on :
    (x n : Bytes) → IsName n → reverse (split_on b'/' (child x n)) ≡ n ∷ reverse (split_on b'/' x)
reverse-split_on x n h =
    ap reverse
      (split_on-append b'/' x n ∙ ap (λ l. split_on b'/' x ++ l) (split_on_of_Lacks b'/' n h.3))
    ∙ reverse-append (split_on b'/' x) (n ∷ [])

join-cons : (x : Bytes) (l : List Bytes) → l ≢ [] → join (x ∷ l) ≡ child x (join l)
join-cons x [] h = absurd (h refl)
join-cons x (y ∷ l) h = refl

join-cons_first : (x : ℕ) (l : List Bytes) → l ≢ [] → join (cons_first x l) ≡ x ∷ join l
join-cons_first x [] h = absurd (h refl)
join-cons_first x (p ∷ []) h = refl
join-cons_first x (p ∷ q ∷ l) h = refl

join-split_on : (s : Bytes) → join (split_on b'/' s) ≡ s
unfolding split_on
join-split_on [] = refl
join-split_on (x ∷ s) = elim (Bool-cases (x == b'/')) [
  | inl e ↦
      rw (e, split_on)
        (join-cons [] (split_on b'/' s) (split_on-ne-nil b'/' s)
          ∙ ap (◌∷◌ b'/') (join-split_on s)
          ∙ ap (λ y. y ∷ s) (sym ((==_iff x b'/').0 e)))
  | inr e ↦
      rw (e, split_on)
        (join-cons_first x (split_on b'/' s) (split_on-ne-nil b'/' s)
          ∙ ap (◌∷◌ x) (join-split_on s))
]

-- The last piece of a path, taken from its end, is a name.
EndsIn : Bytes → Bytes → Type 0
EndsIn x m = (l : List Bytes) × (reverse (split_on b'/' x) ≡ m ∷ l)

but_last-child :
    (abs : Bool) (x m n : Bytes)
    → IsName m
    → IsName n
    → EndsIn x m
    → but_last abs (strip abs (reverse (split_on b'/' (child x n)))) ≡ some x
unfolding but_last EndsIn
but_last-child abs x m n hm hn (l, e) =
    ap (λ r. but_last abs (strip abs r)) (reverse-split_on x n hn)
    ∙ ap (but_last abs) (strip-IsName abs n (reverse (split_on b'/' x)) hn)
    ∙ ap (λ r. some (join (reverse r))) (ap (strip abs) e ∙ strip-IsName abs m l hm ∙ sym e)
    ∙ ap some (ap join (reverse-reverse (split_on b'/' x)) ∙ join-split_on x)

child-EndsIn : (g m : Bytes) → IsName m → EndsIn (child g m) m
unfolding EndsIn
child-EndsIn g m h = (reverse (split_on b'/' g), reverse-split_on g m h)

name-EndsIn : (m : Bytes) → IsName m → EndsIn m m
unfolding EndsIn
name-EndsIn m h = ([], ap reverse (split_on_of_Lacks b'/' m h.3))

pub parent-child :
    (g m n : Bytes) → IsName m → IsName n → parent (child (child g m) n) ≡ some (child g m)
unfolding parent
parent-child [] m n hm hn = rw (but_last-child true m m n hm hn (name-EndsIn m hm)) refl
parent-child (c ∷ g) m n hm hn = elim (Bool-cases (c == b'/')) [
  | inl e ↦
      rw (e, but_last-child true (child g m) m n hm hn (child-EndsIn g m hm))
        (ap (λ y. some (y ∷ child g m)) (sym ((==_iff c b'/').0 e)))
  | inr e ↦
      rw (e, but_last-child false (child (c ∷ g) m) m n hm hn (child-EndsIn (c ∷ g) m hm)) refl
]

pub file_name-child : (g n : Bytes) → IsName n → file_name (child g n) ≡ some n
unfolding file_name
file_name-child [] n h =
    ap (λ l. last_name (strip true (reverse l))) (split_on_of_Lacks b'/' n h.3)
    ∙ ap last_name (strip-IsName true n [] h)
    ∙ last_name-IsName n [] h
file_name-child (c ∷ g) n h = elim (Bool-cases (c == b'/')) [
  | inl e ↦ rw e (
      ap (λ l. last_name (strip true l)) (reverse-split_on g n h)
      ∙ ap last_name (strip-IsName true n (reverse (split_on b'/' g)) h)
      ∙ last_name-IsName n (reverse (split_on b'/' g)) h)
  | inr e ↦ rw e (
      ap (λ l. last_name (strip false l)) (reverse-split_on (c ∷ g) n h)
      ∙ ap last_name (strip-IsName false n (reverse (split_on b'/' (c ∷ g))) h)
      ∙ last_name-IsName n (reverse (split_on b'/' (c ∷ g))) h)
]

ends_with-behind :
    (a : Bytes) (y : ℕ) (s : Bytes) → ends_with b'/' (a ++ y ∷ s) ≡ ends_with b'/' (y ∷ s)
unfolding ends_with
ends_with-behind [] y s = refl
ends_with-behind (x ∷ []) y s = refl
ends_with-behind (x ∷ z ∷ a) y s = ends_with-behind (z ∷ a) y s

ends_with-Lacks : (s : Bytes) → Lacks b'/' s → ends_with b'/' s ≡ false
unfolding ends_with
ends_with-Lacks [] h = refl
ends_with-Lacks (x ∷ []) h = ground (arith, h.0)
ends_with-Lacks (x ∷ y ∷ s) h = ends_with-Lacks (y ∷ s) h.1

ends_with-child : (g n : Bytes) → IsName n → ends_with b'/' (child g n) ≡ false
unfolding ends_with
ends_with-child g [] h = absurd (h.0 refl)
ends_with-child g (x ∷ n) h = ends_with-behind g b'/' (x ∷ n) ∙ ends_with-Lacks (x ∷ n) h.3

is_empty-child : (g n : Bytes) → is_empty (child g n) ≡ false
unfolding is_empty
is_empty-child [] n = refl
is_empty-child (c ∷ g) n = refl

pub push-child : (g m n : Bytes) → IsName m → IsName n → push (child g m) n ≡ child (child g m) n
unfolding push
push-child g m [] hm hn = absurd (hn.0 refl)
push-child g m (x ∷ n) hm hn = ground (arith, hn.3.0, is_empty-child g m, ends_with-child g m hm)

-- The file of another name in the same directory.
pub set_file_name-child :
    (g m n k : Bytes)
    → IsName m
    → IsName n
    → IsName k
    → set_file_name (child (child g m) n) k ≡ child (child g m) k
unfolding set_file_name pop
set_file_name-child g m n k hm hn hk =
    rw (set_file_name, file_name-child (child g m) n hn, pop, parent-child g m n hm hn)
      (push-child g m k hm hk)

-- What is pushed is popped.
pub pop-push-child : (g m n : Bytes) → IsName m → IsName n → pop (push (child g m) n) ≡ child g m
unfolding pop
pop-push-child g m n hm hn = rw (push-child g m n hm hn, pop, parent-child g m n hm hn) refl

longer : (n s : Bytes) → s ≢ [] → (n ++ s) ≢ []
longer [] s h = h
longer (x ∷ n) s h = λ e. cc

html_ne_dots : (n : Bytes) → n ≢ [] → (n ++ codes ".html") ≢ (b'.' ∷ b'.' ∷ [])
html_ne_dots [] h = absurd (h refl)
html_ne_dots (x ∷ []) h = λ e. cc
html_ne_dots (x ∷ y ∷ []) h = λ e. cc
html_ne_dots (x ∷ y ∷ z ∷ n) h = λ e. cc

html_ne_dot : (n : Bytes) → n ≢ [] → (n ++ codes ".html") ≢ (b'.' ∷ [])
html_ne_dot [] h = absurd (h refl)
html_ne_dot (x ∷ []) h = λ e. cc
html_ne_dot (x ∷ y ∷ n) h = λ e. cc

pub html-IsName : (n : Bytes) → IsName n → IsName (n ++ codes ".html")
html-IsName n (ne, dot, dots, free) = (
  longer n (codes ".html") (λ e. cc),
  html_ne_dot n ne,
  html_ne_dots n ne,
  All-append (λ x. x ≢ b'/') n (codes ".html") free (ground arith),
)
