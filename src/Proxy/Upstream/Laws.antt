-- ===== src/Proxy/Upstream/Laws.antt =====
-- What crosses the viewer proxy in headers.
use Prim.Native.String
use text.Mathlib.TextEquality.{eq_iff}
use obs_instance_manager.Prelude.{
  String, Bool, true, false, ◌≡◌, inl, inr, refl, subst, ◌∙◌, ◌||◌, ap, any, Option, none, some,
  List, [], ◌∷◌, arith, if◌then◌else◌, ◌==◌, non_empty, Bool-cases, is_some, strip_prefix,
}
use obs_instance_manager.Prelude.Dict
use obs_instance_manager.Prelude.Dict.{Dict, get-set, get-remove}
use obs_instance_manager.Proxy.Upstream.{
  forward_request_headers, set_if, copy_headers, request_headers, upstream_csp, hop_by_hop,
  harden_upstream_headers, delete_headers, is_rooted, relocated, response_headers,
}

-- The value that is there, or else the other.
abbrev over : Option String → Option String → Option String
over none old = old
over (some v) old = some v

set_if-get :
    (name : String) (o : Option String) (headers : Dict String) (k : String)
    → Dict.get (set_if name o headers) k
      ≡ (if name == k then over o (Dict.get headers k) else Dict.get headers k)
set_if-get name none headers k = ground arith
set_if-get name (some value) headers k = ground (arith, get-set headers name k value)

over_twice : (o old : Option String) → over o (over o old) ≡ over o old
over_twice none old = refl
over_twice (some v) old = refl

over_again :
    (c d : Bool) (o o' old : Option String)
    → (c ≡ true → o ≡ o')
    → (if d then over o' (if c then over o old else old) else if c then over o old else old)
      ≡ (if c || d then over o' old else old)
over_again true true o o' old h = ap (λ x. over o' (over x old)) (h refl) ∙ over_twice o' old
over_again true false o o' old h = ap (λ x. over x old) (h refl)
over_again false true o o' old h = refl
over_again false false o o' old h = refl

copy-get :
    (header : String → Option String) (names : List String) (headers : Dict String) (k : String)
    → Dict.get (copy_headers header names headers) k ≡ (
        if any (λ n. n == k) names
        then over (non_empty (header k)) (Dict.get headers k)
        else Dict.get headers k)
unfolding copy_headers
copy-get header [] headers k = refl
copy-get header (name ∷ names) headers k =
    copy-get header names (set_if name (non_empty (header name)) headers) k
    ∙ ap (λ o. if any (λ n. n == k) names then over (non_empty (header k)) o else o)
        (set_if-get name (non_empty (header name)) headers k)
    ∙ over_again (name == k) (any (λ n. n == k) names) (non_empty (header name))
        (non_empty (header k)) (Dict.get headers k)
        (λ same. ap (λ n. non_empty (header n)) ((eq_iff name k).0 same))

-- What a container gets of a request, for every header: the instance's authorization, the browser's
-- nonempty value of a header of this list, and no other header, whatever the browser sends.
pub request_headers_lem :
    (header : String → Option String) (authorization k : String)
    → Dict.get (request_headers header authorization) k ≡ (
        if "authorization" == k
        then some authorization
        else if any
            (λ n. n == k)
            ("accept" ∷ "accept-language" ∷ "content-type" ∷ "content-length" ∷ "if-none-match"
              ∷ "if-modified-since" ∷ "range" ∷ "user-agent" ∷ [])
        then non_empty (header k)
        else none)
unfolding request_headers Dict.get
request_headers_lem header authorization k =
    get-set (copy_headers header forward_request_headers Dict.empty) "authorization" k authorization
    ∙ ap (λ o. if "authorization" == k then some authorization else o)
        (copy-get header forward_request_headers Dict.empty k
          ∙ over_none (any (λ n. n == k) forward_request_headers) (non_empty (header k)))
  where
    over_none :
        (c : Bool) (o : Option String) → (if c then over o none else none) ≡ (if c then o else none)
    over_none true none = refl
    over_none true (some v) = refl
    over_none false o = refl

delete-keeps :
    (names : List String) (headers : Dict String) (k : String)
    → (any (λ n. n == k) names ≡ false)
    → Dict.get (delete_headers names headers) k ≡ Dict.get headers k
unfolding delete_headers
delete-keeps [] headers k h = refl
delete-keeps (n ∷ names) headers k h =
    ground (arith, delete-keeps names (Dict.remove headers n) k, get-remove headers n k)

delete-keeps_none :
    (names : List String) (headers : Dict String) (k : String)
    → Dict.get headers k ≡ none
    → Dict.get (delete_headers names headers) k ≡ none
unfolding delete_headers
delete-keeps_none [] headers k h = h
delete-keeps_none (n ∷ names) headers k h =
    delete-keeps_none names (Dict.remove headers n) k (ground (arith, get-remove headers n k))

delete-removes :
    (names : List String) (headers : Dict String) (k : String)
    → (any (λ n. n == k) names ≡ true)
    → Dict.get (delete_headers names headers) k ≡ none
unfolding delete_headers
delete-removes [] headers k h = cc
delete-removes (n ∷ names) headers k h = elim (Bool-cases (n == k)) [
  | inl same ↦
      delete-keeps_none names (Dict.remove headers n) k (ground (arith, get-remove headers n k))
  | inr other ↦ delete-removes names (Dict.remove headers n) k (ground arith)
]

relocated-get :
    (base : String) (o : Option String) (out : Dict String) (k : String)
    → ("location" == k) ≡ false
    → Dict.get (relocated base o out) k ≡ Dict.get out k
relocated-get base none out k h = refl
relocated-get base (some l) out k h = elim (Bool-cases (is_rooted l)) [
  | inl rooted ↦ rw rooted (rw (get-set out "location" k (String.◌++◌ base l), h) refl)
  | inr foreign ↦ rw foreign refl
]

-- Where a redirect of the container leads the browser: a path of the host gets the viewer's prefix in
-- front, and any other location is passed on.
abbrev pub moved : String → Option String → Option String
moved base none = none
moved base (some l) = some (if is_some (strip_prefix "/" l) then String.◌++◌ base l else l)

relocated-location :
    (base : String) (o : Option String) (out : Dict String)
    → Dict.get out "location" ≡ o
    → Dict.get (relocated base o out) "location" ≡ moved base o
relocated-location base none out h = h
relocated-location base (some l) out h = elim (Bool-cases (is_rooted l)) [
  | inl rooted ↦ rw rooted (get-set out "location" "location" (String.◌++◌ base l))
  | inr foreign ↦ rw foreign h
]

deleted-get :
    (names : List String) (headers : Dict String) (k : String)
    → Dict.get (delete_headers names headers) k
      ≡ (if any (λ n. n == k) names then none else Dict.get headers k)
deleted-get names headers k = elim (Bool-cases (any (λ n. n == k) names)) [
  | inl gone ↦ rw gone (delete-removes names headers k gone)
  | inr kept ↦ rw kept (delete-keeps names headers k kept)
]

-- The headers of a response that are the node's own, and those that are not passed on.
abbrev pub passed_header : String → Dict String → String → Option String
passed_header base upstream k =
    if "location" == k
    then moved base (Dict.get upstream "location")
    else if any (λ n. n == k)
        ("connection" ∷ "keep-alive" ∷ "transfer-encoding" ∷ "upgrade" ∷ "set-cookie" ∷ [])
    then none
    else if "x-content-type-options" == k
    then some "nosniff"
    else if "content-security-policy" == k
    then some "sandbox; default-src 'none'; frame-ancestors 'none'"
    else Dict.get upstream k

-- Whatever headers a container answers with, the browser gets: this sandbox policy and no sniffing of
-- types, no cookie and none of the headers of the connection, a location that begins with a slash
-- with the viewer's prefix in front and any other location unchanged, and each other header
-- unchanged.
pub response_headers_lem :
    (base : String) (upstream : Dict String) (k : String)
    → Dict.get (response_headers base upstream) k ≡ passed_header base upstream k
unfolding response_headers harden_upstream_headers
response_headers_lem base upstream k =
    let csp = Dict.set upstream "content-security-policy" upstream_csp in
    let hard = Dict.set csp "x-content-type-options" "nosniff" in
    let out = delete_headers hop_by_hop hard in
    let o = Dict.get out "location" in
    let hardened : (j : String) → Dict.get hard j ≡ _ = λ j.
      get-set csp "x-content-type-options" j "nosniff"
      ∙ ap (λ x. if "x-content-type-options" == j then some "nosniff" else x)
          (get-set upstream "content-security-policy" j upstream_csp) in
    let kept : o ≡ Dict.get upstream "location" =
      deleted-get hop_by_hop hard "location" ∙ hardened "location" in
    elim (Bool-cases ("location" == k)) [
      | inl here ↦
          subst (λ j. Dict.get (relocated base o out) j ≡ passed_header base upstream j)
            ((eq_iff "location" k).0 here)
            (relocated-location base o out refl ∙ ap (moved base) kept)
      | inr other ↦ rw other (
          relocated-get base o out k other
          ∙ deleted-get hop_by_hop hard k
          ∙ ap (λ x. if any (λ n. n == k) hop_by_hop then none else x) (hardened k))
    ]
