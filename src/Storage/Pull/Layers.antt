-- ===== src/Storage/Pull/Layers.antt =====
-- What a download of the objects under a prefix leaves in a directory.
use Prim.Native.String
use Prim.Native.String.{len, slice}
use text.Mathlib.TextPositions.{len-append, slice-append_right}
use text.Mathlib.TextEquality.{eq_iff}
use obs_instance_manager.Prelude.{
  String, Bool, true, false, ◌||◌, ◌≡◌, refl, ap, ◌∙◌, Option, some, List, [], ◌∷◌, map, any,
  select, All, if◌then◌else◌, ◌==◌,
}
use obs_instance_manager.Prelude.Dict
use obs_instance_manager.Prelude.Dict.{Dict, get-set}
use obs_instance_manager.Effects.{Result, ok}
use obs_instance_manager.Storage.Sync.{rel_of}
use obs_instance_manager.Storage.Pull.{
  Bucket, Layer, DownloadRecord, has_nul, recorded, stored, download_to, download_key, and_rest,
  download_prefix,
}

abbrev pub has : String → List String → Bool
has path rels = any (λ rel. rel == path) rels

rel_of-append : (prefix rel : String) → rel_of prefix (String.◌++◌ prefix rel) ≡ rel
rel_of-append prefix rel =
    ap (λ n. slice (String.◌++◌ prefix rel) (len prefix) n) (len-append prefix rel)
    ∙ slice-append_right prefix rel

abbrev pub under : String → List String → List String
under prefix rels = map (λ rel. String.◌++◌ prefix rel) rels

layered :
    (c h : Bool) (x y : String) (old new : Option String)
    → (c ≡ true → y ≡ x)
    → new ≡ (if c then some y else old)
    → (if h then some x else new) ≡ (if c || h then some x else old)
layered true true x y old new same e = refl
layered true false x y old new same e = e ∙ ap some (same refl)
layered false true x y old new same e = refl
layered false false x y old new same e = e

module _ (b : Bucket) (body : String → String) where
  -- S3 has an object under the key, and its path is a plain one.
  abbrev pub IsPlain : String → String → Type 0
  IsPlain prefix rel =
      ((rel == "" || has_nul rel) ≡ false)
      × (b.resolve rel ≡ some rel)
      × (b.get_object (String.◌++◌ prefix rel) ≡ ok (some (body (String.◌++◌ prefix rel))))

  module _ (r : DownloadRecord) where
    keyed :
        (key rel other : String) (l : Layer)
        → rel_of r.prefix key ≡ rel
        → ((rel == "" || has_nul rel) ≡ false)
        → b.resolve rel ≡ some rel
        → b.get_object key ≡ ok (some other)
        → download_key b r key l ≡ (
          ok tt,
          record {
            files = Dict.set l.files rel other;
            entries = recorded b r rel rel other l.entries;
          },
        )
    unfolding download_key
    keyed key rel other l e named inside there =
        ap (λ x. if x == "" || has_nul x then (ok tt, l) else download_to b r key x (b.resolve x) l)
          e
        ∙ rw named
            (ap (λ o. download_to b r key rel o l) inside ∙ ap (λ a. stored b r rel rel a l) there)

    -- The last object of a path stands; all bodies are those of the keys.
    pub download_lem :
        (rels : List String) (l : Layer)
        → All (IsPlain r.prefix) rels
        → ((download_prefix b r (under r.prefix rels) l).0 ≡ ok tt)
          × ((path : String)
              → Dict.get (download_prefix b r (under r.prefix rels) l).1.files path ≡ (
                  if has path rels
                  then some (body (String.◌++◌ r.prefix path))
                  else Dict.get l.files path))
    unfolding download_prefix
    download_lem [] l h = (refl, λ path. refl)
    download_lem (rel ∷ rels) l ((named, inside, there), h) =
        let key = String.◌++◌ r.prefix rel in
        let l' : Layer = record {
          files = Dict.set l.files rel (body key);
          entries = recorded b r rel rel (body key) l.entries;
        } in
        let rest = download_lem rels l' h in
        let step = keyed key rel (body key) l (rel_of-append r.prefix rel) named inside there in
        let all : download_prefix b r (under r.prefix (rel ∷ rels)) l
            ≡ download_prefix b r (under r.prefix rels) l' =
          ap
            (λ (x : Result (Unit {0}) × Layer).
              and_rest b r x.0 (download_prefix b r (under r.prefix rels)) x.1)
            step in
        (
          ap (λ (x : Result (Unit {0}) × Layer). x.0) all ∙ rest.0,
          λ path.
              ap (λ (x : Result (Unit {0}) × Layer). Dict.get x.1.files path) all
              ∙ rest.1 path
              ∙ layered (rel == path) (has path rels) (body (String.◌++◌ r.prefix path)) (body key)
                  (Dict.get l.files path) _
                  (λ same. ap (λ x. body (String.◌++◌ r.prefix x)) ((eq_iff rel path).0 same))
                  (get-set l.files rel path (body key)),
        )

select_cons :
    (prefix : String) (f : String → Bool) (rel : String) (rels : List String) (c : Bool)
    {keys : List String}
    → c ≡ f rel
    → keys ≡ under prefix (select f rels)
    → (if c then String.◌++◌ prefix rel ∷ keys else keys) ≡ under prefix (select f (rel ∷ rels))
select_cons prefix f rel rels c e k = rw (e, k) (pushed (f rel))
  where
    pushed :
        (d : Bool)
        → (if d
            then String.◌++◌ prefix rel ∷ under prefix (select f rels)
            else under prefix (select f rels))
          ≡ under prefix (if d then rel ∷ select f rels else select f rels)
    pushed true = refl
    pushed false = refl

-- The policy's choice among the keys under a prefix is one among their paths.
pub select-under :
    (prefix : String) (f : String → Bool) (rels : List String)
    → select (λ key. f (rel_of prefix key)) (under prefix rels) ≡ under prefix (select f rels)
select-under prefix f [] = refl
select-under prefix f (rel ∷ rels) =
    select_cons prefix f rel rels (f (rel_of prefix (String.◌++◌ prefix rel)))
      (ap f (rel_of-append prefix rel)) (select-under prefix f rels)
