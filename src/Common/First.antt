-- ===== src/Common/First.antt =====
-- What it is to search a list for its first member that passes a test.
use mathlib.Core.Path.{◌≡◌}
use mathlib.Core.Bool.{Bool, true, false}
use mathlib.Core.Option.{Option, none, some}
use mathlib.Core.List.{List, ◌∷◌, ◌++◌}
use static_web_server.Common.Lists.{All}

-- `a` is the first of the list that passes the test.
pub record IsFirst {A : Type 0} (test : A → Bool) (l : List A) (a : A) : Type 0 where
  pub before : List A
  pub after : List A
  pub split : l ≡ before ++ a ∷ after
  pub passes : test a ≡ true
  pub fails : All (λ b. test b ≡ false) before

-- What a search returns: the first that passes the test, or nothing if none passes it.
unfoldable pub FindsFirst : {A : Type 0} → (A → Bool) → List A → Option A → Type 0
FindsFirst test l none = All (λ b. test b ≡ false) l
FindsFirst test l (some a) = IsFirst test l a

pub FindsFirst-skip :
    {A : Type 0} (test : A → Bool) (b : A) (l : List A) (o : Option A)
    → test b ≡ false
    → FindsFirst test l o
    → FindsFirst test (b ∷ l) o
unfolding FindsFirst
FindsFirst-skip test b l none h f = (h, f)
FindsFirst-skip test b l (some a) h f = record {
  before = b ∷ f.before;
  after = f.after;
  split = cc (f.split);
  passes = f.passes;
  fails = (h, f.fails);
}
