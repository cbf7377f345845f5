-- ===== src/Http/Laws.antt =====
-- The laws of `get` over the operations of a header map, as the other modules use them.
use static_web_server.Common.{
  Str, Bool, ◌≡◌, refl, sym, Option, none, some, if◌then◌else◌, head?, ap, ◌∙◌, [], ◌∷◌, true,
  String, false, List, name_eq,
}
use static_web_server.Http.{Http, Response, get, insert_header, insert_all, values_of}

module _ (H : Http) where
  pub get-new : (k : String) → get H H.new k ≡ none
  get-new k = ap head? (H.get_all-new k)

  head?-if :
      (b : Bool) (v : Str) (l : List Str)
      → head? (if b then v ∷ [] else l) ≡ (if b then some v else head? l)
  head?-if true v l = refl
  head?-if false v l = refl

  head?-if_nil :
      (b : Bool) (l : List Str) → head? (if b then [] else l) ≡ (if b then none else head? l)
  head?-if_nil true l = refl
  head?-if_nil false l = refl

  pub get-insert :
      (m : H.HeaderMap) (k : String) (v : Str) (j : String)
      → get H (H.insert m k v) j ≡ (if name_eq k j then some v else get H m j)
  get-insert m k v j = ap head? (H.get_all-insert m k v j) ∙ head?-if _ v _

  pub get-remove :
      (m : H.HeaderMap) (k j : String)
      → get H (H.remove m k) j ≡ (if name_eq k j then none else get H m j)
  get-remove m k j = ap head? (H.get_all-remove m k j) ∙ head?-if_nil _ _

  -- the last of the values, or the one there was
  unfoldable pub last_or : List Str → Option Str → Option Str
  last_or [] o = o
  last_or (v ∷ l) o = last_or l (some v)

  last_or-step :
      (b : Bool) (v : Str) (l : List Str) (o : Option Str)
      → last_or (if b then v ∷ l else l) o ≡ last_or l (if b then some v else o)
  unfolding last_or
  last_or-step true v l o = refl
  last_or-step false v l o = refl

  -- What a header is after `insert_all`: the last value that the list has for it, or what it was.
  pub get-insert_all :
      (r : Response H) (l : List (String × Str)) (k : String)
      → get H (insert_all H r l).headers k ≡ last_or (values_of k l) (get H r.headers k)
  unfolding insert_all last_or
  get-insert_all r [] k = refl
  get-insert_all r ((j, v) ∷ l) k =
      get-insert_all (insert_header H r j v) l k
      ∙ ap (last_or (values_of k l)) (get-insert r.headers j v k)
      ∙ sym (last_or-step (name_eq j k) v (values_of k l) (get H r.headers k))

  pub insert_all-status :
      (r : Response H) (l : List (String × Str)) → (insert_all H r l).status ≡ r.status
  unfolding insert_all
  insert_all-status r [] = refl
  insert_all-status r ((j, v) ∷ l) = insert_all-status (insert_header H r j v) l

  pub insert_all-body :
      (r : Response H) (l : List (String × Str)) → (insert_all H r l).body ≡ r.body
  unfolding insert_all
  insert_all-body r [] = refl
  insert_all-body r ((j, v) ∷ l) = insert_all-body (insert_header H r j v) l
