-- ===== src/Storage/Objects.antt =====
-- src/services/storage/s3-objects.ts: the listing in pages and the delete in batches. A request to
-- S3 is a parameter, over the state `E` outside the process. The loops run on fuel.
pub mod Laws
use obs_instance_manager.Prelude.{
  ℕ, String, Bool, true, false, not, ◌||◌, zero, suc, Option, none, some, List, [], ◌∷◌, ◌++◌, any,
  select, take, drop, length, if◌then◌else◌, ◌==◌,
}
use obs_instance_manager.Effects.{Result, ok, err, Op}

abbrev pub delete_batch : ℕ
delete_batch = 1000

-- A key of the batch is among the keys of the answer's errors.
abbrev pub is_failed : List String → String → Bool
is_failed failed key = any (λ k. k == key) failed

module _ {E : Type 0} (delete_objects : List String → Op E (List String)) where
  -- The loop over the batches that are left; none when the fuel is used up.
  unfoldable pub delete_from : ℕ → List String → List String → E → Option (Result (List String)) × E
  delete_from fuel [] deleted env = (some (ok deleted), env)
  delete_from zero (key ∷ keys) deleted env = (none, env)
  delete_from (suc fuel) (key ∷ keys) deleted env =
      let batch = take delete_batch (key ∷ keys) in
      let env' = (delete_objects batch env).1 in
      elim (delete_objects batch env).0 [
        | ok failed ↦
            delete_from fuel (drop delete_batch (key ∷ keys))
              (deleted ++ select (λ k. not (is_failed failed k)) batch) env'
        | err e ↦ (some (err e), env')
      ]

  abbrev pub delete_keys : ℕ → List String → E → Option (Result (List String)) × E
  delete_keys fuel keys env = delete_from fuel keys [] env

-- What S3 answers for an object and for a page of them.
pub record ListedObject : Type 0 where
  pub key : Option String
  pub etag : Option String
  pub size : Option ℕ

pub record ListPage : Type 0 where
  pub contents : Option (List ListedObject)
  pub is_truncated : Bool
  pub next_token : Option String

pub record S3ObjectInfo : Type 0 where
  pub key : String
  pub etag : String
  pub size : ℕ

-- A missing text or an empty one is falsy.
abbrev pub given_text : Option String → Option String
given_text none = none
given_text (some text) = if text == "" then none else some text

abbrev pub text_or : Option String → String → String
text_or none text = text
text_or (some t) text = t

abbrev pub size_or : Option ℕ → ℕ → ℕ
size_or none n = n
size_or (some m) n = m

abbrev pub info_of : Option String → ListedObject → List S3ObjectInfo → List S3ObjectInfo
info_of none object infos = infos
info_of (some key) object infos =
    record { key = key; etag = text_or object.etag ""; size = size_or object.size 0 } ∷ infos

abbrev pub infos_of : List ListedObject → List S3ObjectInfo
infos_of [] = []
infos_of (object ∷ objects) = info_of (given_text object.key) object (infos_of objects)

abbrev pub page_infos : Option (List ListedObject) → List S3ObjectInfo
page_infos none = []
page_infos (some objects) = infos_of objects

abbrev pub continuation : ListPage → Option String
continuation page = if page.is_truncated then given_text page.next_token else none

module _ {E : Type 0} (list_page : Option String → Op E ListPage) where
  -- The loop over the pages from a token on; none when the fuel is used up.
  unfoldable pub list_from :
      ℕ → Option String → List S3ObjectInfo → E → Option (Result (List S3ObjectInfo)) × E
  list_from zero token objects env = (none, env)
  list_from (suc fuel) token objects env =
      let env' = (list_page token env).1 in
      elim (list_page token env).0 [
        | err e ↦ (some (err e), env')
        | ok page ↦
            let objects' = objects ++ page_infos page.contents in
            elim (continuation page) [
              | none ↦ (some (ok objects'), env')
              | some next ↦ list_from fuel (some next) objects' env'
            ]
      ]

  abbrev pub list_objects : ℕ → E → Option (Result (List S3ObjectInfo)) × E
  list_objects fuel env = list_from fuel none [] env
