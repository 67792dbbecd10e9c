-- ===== src/Storage/Objects/Laws.antt =====
-- What a delete in batches and a listing in pages answer.
use mathlib.Core.List.{append_assoc, append-nil, map-append}
use obs_instance_manager.Prelude.{
  ℕ, String, Bool, true, false, not, map, or_else, if◌then◌else◌, ◌==◌, ◌&&◌, zero, suc, ◌≤◌, ◌<◌,
  ◌≡◌, refl, sym, ap, ◌∙◌, Option, none, some, List, [], ◌∷◌, ◌++◌, select, take, drop, length, All,
  arith, eq_iff, eq_refl, Bool-cases, inl, inr, take-append-drop, select-append, length-take,
}
use obs_instance_manager.Effects.{ok, Op}
use obs_instance_manager.Storage.Objects.{
  delete_batch, is_failed, delete_from, delete_keys, ListPage, S3ObjectInfo, ListedObject, infos_of,
  info_of, text_or, size_or, given_text, page_infos, continuation, list_from, list_objects,
}

module _ (bad : String → Bool) where
  is_failed-select :
      (keys : List String) (key : String)
      → is_failed (select bad keys) key ≡ (bad key && is_failed keys key)
  is_failed-select [] key = ground arith
  is_failed-select (k ∷ keys) key =
      ground (arith, eq_iff k key, is_failed-select keys key, ap bad {x = k} {y = key})

  select-among :
      (all keys : List String)
      → All (λ key. is_failed all key ≡ true) keys
      → select (λ key. not (is_failed (select bad all) key)) keys
        ≡ select (λ key. not (bad key)) keys
  select-among all [] h = refl
  select-among all (key ∷ keys) (h, hs) =
      ground (arith, is_failed-select all key, select-among all keys hs)

among_cons :
    (k : String) (all keys : List String)
    → All (λ key. is_failed all key ≡ true) keys
    → All (λ key. is_failed (k ∷ all) key ≡ true) keys
among_cons k all [] h = tt
among_cons k all (key ∷ keys) (h, hs) = (ground (arith, h), among_cons k all keys hs)

among_self : (keys : List String) → All (λ key. is_failed keys key ≡ true) keys
among_self [] = tt
among_self (key ∷ keys) = (ground (arith, eq_refl key), among_cons key keys keys (among_self keys))

length-drop-le : {A : Type 0} (n : ℕ) (xs : List A) → length (drop n xs) ≤ length xs
length-drop-le zero xs = omega arith
length-drop-le (suc n) [] = omega arith
length-drop-le (suc n) (x ∷ xs) = let h = length-drop-le n xs in omega (arith, h)

module _ {E : Type 0} (delete_objects : List String → Op E (List String))
    (bad : String → Bool) where
  deleted_keys :
      (fuel : ℕ) (keys deleted : List String) (env : E)
      → length keys ≤ fuel
      → ((batch : List String) (env : E)
          → length batch ≤ 1000
          → (delete_objects batch env).0 ≡ ok (select bad batch))
      → (delete_from delete_objects fuel keys deleted env).0
        ≡ some (ok (deleted ++ select (λ key. not (bad key)) keys))
  unfolding delete_from
  deleted_keys fuel [] deleted env enough answers = rw append-nil refl
  deleted_keys zero (key ∷ keys) deleted env enough answers = ground arith
  deleted_keys (suc fuel) (key ∷ keys) deleted env enough answers =
      let batch = take delete_batch (key ∷ keys) in
      let rest = drop delete_batch (key ∷ keys) in
      let short : length batch ≤ 1000 =
        let h = length-take delete_batch (key ∷ keys) in ground (arith, h) in
      let left : length rest ≤ fuel = let h = length-drop-le 999 keys in omega (arith, h, enough) in
      rw (delete_from, answers batch env short)
        (deleted_keys fuel rest
            (deleted ++ select (λ k. not (is_failed (select bad batch) k)) batch) _ left answers
          ∙ ap (λ ks. some (ok ks))
              (append_assoc deleted _ _
                ∙ ap (λ ks. deleted ++ ks)
                    (ap (λ ks. ks ++ select (λ k. not (bad k)) rest)
                        (select-among bad batch batch (among_self batch))
                      ∙ sym (select-append (λ k. not (bad k)) batch rest)
                      ∙ ap (select (λ k. not (bad k)))
                          (take-append-drop delete_batch (key ∷ keys)))))

-- What is listed for an object: its key, and its tag and size if S3 names them.
abbrev pub described : ListedObject → S3ObjectInfo
described object = record {
  key = or_else object.key "";
  etag = or_else object.etag "";
  size = elim object.size [ none ↦ 0 | some size ↦ size ];
}

-- The objects of a page and of those that follow it, but those without a key.
abbrev pub objects_of : ListPage → List ListedObject
objects_of page = elim page.contents [ none ↦ [] | some objects ↦ objects ]

abbrev pub all_objects : ListPage → List (String × ListPage) → List ListedObject
all_objects page [] = objects_of page
all_objects page ((token, next) ∷ pages) = objects_of page ++ all_objects next pages

abbrev pub has_key : ListedObject → Bool
has_key object = not (or_else object.key "" == "")

abbrev pub all_infos : ListPage → List (String × ListPage) → List S3ObjectInfo
all_infos page pages = map described (select has_key (all_objects page pages))

described-info :
    (key : String) (etag : Option String) (size : Option ℕ)
    → ◌≡◌ {A = S3ObjectInfo}
        (record { key = key; etag = text_or etag ""; size = size_or size 0 })
        (described (record { key = some key; etag = etag; size = size }))
described-info key none none = refl
described-info key none (some size) = refl
described-info key (some etag) none = refl
described-info key (some etag) (some size) = refl

infos_cons :
    (key : Option String) (object : ListedObject) (infos : List S3ObjectInfo)
    (objects : List ListedObject)
    → infos ≡ map described objects
    → object.key ≡ key
    → info_of (given_text key) object infos
      ≡ map described (if has_key object then object ∷ objects else objects)
infos_cons none object infos objects h k = rw k h
infos_cons (some key) object infos objects h k = elim (Bool-cases (key == "")) [
  | inl empty ↦ rw (k, empty) h
  | inr named ↦
      rw (k, named)
        (ap (λ i. i ∷ infos) (described-info key object.etag object.size)
          ∙ ap (λ is. described (record object { key = some key }) ∷ is) h)
]

infos-described :
    (objects : List ListedObject) → infos_of objects ≡ map described (select has_key objects)
infos-described [] = refl
infos-described (object ∷ objects) =
    infos_cons object.key object (infos_of objects) (select has_key objects)
      (infos-described objects) refl

contents-described :
    (contents : Option (List ListedObject))
    → page_infos contents
      ≡ map described (select has_key (elim contents [ none ↦ [] | some objects ↦ objects ]))
contents-described none = refl
contents-described (some objects) = infos-described objects

page-described :
    (page : ListPage) → page_infos page.contents ≡ map described (select has_key (objects_of page))
page-described page = contents-described page.contents

all_infos-cons :
    (page next : ListPage) (token : String) (pages : List (String × ListPage))
    → all_infos page ((token, next) ∷ pages) ≡ page_infos page.contents ++ all_infos next pages
all_infos-cons page next token pages =
    ap (map described) (select-append has_key (objects_of page) (all_objects next pages))
    ∙ map-append described (select has_key (objects_of page))
        (select has_key (all_objects next pages))
    ∙ ap (λ is. is ++ all_infos next pages) (sym (page-described page))

module _ {E : Type 0} (list_page : Option String → Op E ListPage) where
  -- S3 answers a token with a page, and each page but the last is truncated and names the next.
  abbrev pub Follow : Option String → ListPage → List (String × ListPage) → Type 0
  Follow token page [] =
      ((env : E) → (list_page token env).0 ≡ ok page) × (page.is_truncated ≡ false)
  Follow token page ((next, page') ∷ pages) =
      ((env : E) → (list_page token env).0 ≡ ok page)
      × (page.is_truncated ≡ true)
      × (page.next_token ≡ some next)
      × ((next == "") ≡ false)
      × Follow (some next) page' pages

  listed_from :
      (fuel : ℕ) (token : Option String) (page : ListPage) (pages : List (String × ListPage))
      (objects : List S3ObjectInfo) (env : E)
      → length pages < fuel
      → Follow token page pages
      → (list_from list_page fuel token objects env).0 ≡ some (ok (objects ++ all_infos page pages))
  unfolding list_from
  listed_from zero token page pages objects env enough follow = ground arith
  listed_from (suc fuel) token page [] objects env enough (answers, last) =
      let ended : continuation page ≡ none =
        ap (λ c. if c then given_text page.next_token else none) last in
      rw (list_from, answers env)
        (rw ended (ap (λ is. some (ok (objects ++ is))) (page-described page)))
  listed_from (suc fuel) token page ((next, page') ∷ pages) objects env enough
        (answers, truncated, named, nonempty, follow) =
      let more : continuation page ≡ some next =
        ap (λ c. if c then given_text page.next_token else none) truncated
        ∙ ap given_text named
        ∙ ap (λ c. if c then none else some next) nonempty in
      rw (list_from, answers env)
        (rw more (
          listed_from fuel (some next) page' pages (objects ++ page_infos page.contents) _
            (omega (arith, enough)) follow
          ∙ ap (λ os. some (ok os)) (append_assoc objects _ _)
          ∙ ap (λ is. some (ok (objects ++ is))) (sym (all_infos-cons page page' next pages))))

module _ {E : Type 0} where
  -- For every S3 that answers a request for at most 1000 keys with the bad ones among them as its
  -- errors, and fuel for as many rounds as there are keys: a delete ends and answers all keys that are
  -- not bad, in their order.
  pub deleted :
      (delete_objects : List String → Op E (List String)) (bad : String → Bool) (fuel : ℕ)
      (keys : List String) (env : E)
      → length keys ≤ fuel
      → ((batch : List String) (env : E)
          → length batch ≤ 1000
          → (delete_objects batch env).0 ≡ ok (select bad batch))
      → (delete_keys delete_objects fuel keys env).0
        ≡ some (ok (select (λ key. not (bad key)) keys))
  deleted delete_objects bad fuel keys env = deleted_keys delete_objects bad fuel keys [] env

  -- For every S3 whose pages follow one another, each but the last truncated and with a nonempty token
  -- that is answered with the next, and more fuel than pages after the first: a listing ends and
  -- answers the objects of all pages that have a nonempty key, in their order, each with its tag, or
  -- the empty text, and its size, or 0.
  pub listed :
      (list_page : Option String → Op E ListPage) (fuel : ℕ) (page : ListPage)
      (pages : List (String × ListPage)) (env : E)
      → length pages < fuel
      → Follow list_page none page pages
      → (list_objects list_page fuel env).0 ≡ some (ok (all_infos page pages))
  listed list_page fuel page pages env = listed_from list_page fuel none page pages [] env
