-- ===== src/Storage/ObjectsTests.antt =====
-- A delete of which one key fails, and a listing in two pages.
use obs_instance_manager.Prelude.{
  ℕ, String, Bool, true, false, not, ◌≡◌, refl, Option, none, some, List, [], ◌∷◌, select, arith,
  ◌==◌,
}
use obs_instance_manager.Effects.{ok, Op}
use obs_instance_manager.Storage.Objects.{ListPage, ListedObject, delete_keys, list_objects}
use obs_instance_manager.Storage.Objects.Laws.{all_infos, deleted, listed}

abbrev is_bad : String → Bool
is_bad key = key == "b"

abbrev s3 : List String → Op ℕ (List String)
s3 batch env = (ok (select is_bad batch), env)

abbrev three : List String
three = "a" ∷ "b" ∷ "c" ∷ []

deleted_example : (delete_keys s3 3 three 0).0 ≡ some (ok (select (λ key. not (is_bad key)) three))
deleted_example = deleted s3 is_bad 3 three 0 (omega arith) (λ batch env short. refl)

abbrev object : String → ListedObject
object key = record { key = some key; etag = none; size = some 3 }

abbrev first : ListPage
first = record {
  contents = some (object "a" ∷ object "" ∷ []);
  is_truncated = true;
  next_token = some "t";
}

abbrev second : ListPage
second = record { contents = some (object "b" ∷ []); is_truncated = false; next_token = none }

abbrev pages_of : Option String → Op ℕ ListPage
pages_of none env = (ok first, env)
pages_of (some token) env = (ok second, env)

listed_example : (list_objects pages_of 2 0).0 ≡ some (ok (all_infos first (("t", second) ∷ [])))
listed_example =
    listed pages_of 2 first (("t", second) ∷ []) 0 (omega arith)
      ((λ env. refl), refl, refl, refl, ((λ env. refl), refl))
