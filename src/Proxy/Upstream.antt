-- ===== src/Proxy/Upstream.antt =====
-- src/services/proxy/selkies-proxy.ts and selkies-client-files.ts: what the viewer proxy sends to a
-- container, what it passes back, and the files that it serves itself. Headers are a dictionary by
-- their names in small letters; `header` reads those of the browser.
pub mod Laws
use Prim.Native.String
use obs_instance_manager.Prelude.{
  ℕ, String, Bool, true, false, not, ◌&&◌, Option, none, some, List, [], ◌∷◌, is_some,
  if◌then◌else◌, ◌==◌, strip_prefix, non_empty,
}
use obs_instance_manager.Prelude.Dict
use obs_instance_manager.Prelude.Dict.{Dict}

abbrev pub forward_request_headers : List String
forward_request_headers =
    "accept" ∷ "accept-language" ∷ "content-type" ∷ "content-length" ∷ "if-none-match"
    ∷ "if-modified-since" ∷ "range" ∷ "user-agent" ∷ []

abbrev pub hop_by_hop : List String
hop_by_hop = "connection" ∷ "keep-alive" ∷ "transfer-encoding" ∷ "upgrade" ∷ "set-cookie" ∷ []

abbrev pub upstream_csp : String
upstream_csp = "sandbox; default-src 'none'; frame-ancestors 'none'"

abbrev pub set_if : String → Option String → Dict String → Dict String
set_if name none headers = headers
set_if name (some value) headers = Dict.set headers name value

-- for (const name of FORWARD_REQUEST_HEADERS) { ... if (value) headers.set(name, value) }
unfoldable pub copy_headers : (String → Option String) → List String → Dict String → Dict String
copy_headers header [] headers = headers
copy_headers header (name ∷ names) headers =
    copy_headers header names (set_if name (non_empty (header name)) headers)

unfoldable pub request_headers : (String → Option String) → String → Dict String
request_headers header authorization =
    Dict.set (copy_headers header forward_request_headers Dict.empty) "authorization" authorization

unfoldable pub harden_upstream_headers : Dict String → Dict String
harden_upstream_headers headers =
    Dict.set (Dict.set headers "content-security-policy" upstream_csp) "x-content-type-options"
      "nosniff"

unfoldable pub delete_headers : List String → Dict String → Dict String
delete_headers [] headers = headers
delete_headers (name ∷ names) headers = delete_headers names (Dict.remove headers name)

abbrev pub is_rooted : String → Bool
is_rooted location = is_some (strip_prefix "/" location)

abbrev pub relocated : String → Option String → Dict String → Dict String
relocated base none out = out
relocated base (some location) out =
    if is_rooted location then Dict.set out "location" (String.◌++◌ base location) else out

unfoldable pub response_headers : String → Dict String → Dict String
response_headers base upstream =
    let out = delete_headers hop_by_hop (harden_upstream_headers upstream) in
    relocated base (Dict.get out "location") out

pub record Fetch : Type 0 where
  pub method : String
  pub target : String
  pub headers : Dict String
  pub has_body : Bool

pub data Fetched : Type 0 where
  unreachable : Fetched
  -- the status and the headers
  response : ℕ → Dict String → Fetched

-- What the browser gets: the response with the container's body, or the JSON of an error.
pub data Passed : Type 0 where
  passed : ℕ → Dict String → Passed
  failed_json : ℕ → Passed

-- `instanceTarget`
abbrev pub instance_target : String → String → String
instance_target container_name port = String.◌++◌ container_name (String.◌++◌ ":" port)

-- `search` is that of the request without its parameter `token`.
unfoldable pub fetch_of :
    String → (String → Option String) → String → String → String → String → Fetch
fetch_of method header container_name authorization rest search = record {
  method = method;
  target =
      String.◌++◌ "http://"
        (String.◌++◌ (instance_target container_name "8080") (String.◌++◌ rest search));
  headers = request_headers header authorization;
  has_body = not (method == "GET") && not (method == "HEAD");
}

unfoldable pub forward_http : String → Fetched → Passed
forward_http base unreachable = failed_json 502
forward_http base (response status headers) = passed status (response_headers base headers)

-- What the disk says of a path: its real path, if it exists, and whether that is a file.
pub record Disk : Type 0 where
  pub realpath : String → Option String
  pub is_file : String → Bool
  -- `path.resolve(root, relative)`
  pub resolve : String → String → String

pub record FileResponse : Type 0 where
  pub file : String
  pub is_immutable : Bool
  pub has_body : Bool

abbrev pub relative_of : (String → Option String) → String → Option String
relative_of decode rest =
    if rest == "/"
    then some "index.html"
    else elim (strip_prefix "/" rest) [ none ↦ none | some path ↦ decode path ]

module _ (disk : Disk) where
  abbrev pub served : String → String → String → String → Option FileResponse
  served root file relative method =
      if is_some (strip_prefix (String.◌++◌ root "/") file) && disk.is_file file
      then some (record {
        file = file;
        is_immutable = is_some (strip_prefix "assets/" relative);
        has_body = not (method == "HEAD");
      })
      else none

  abbrev pub with_file : String → String → String → Option String → Option FileResponse
  with_file root relative method none = none
  with_file root relative method (some file) = served root file relative method

  abbrev pub with_root : Option String → String → String → Option FileResponse
  with_root none relative method = none
  with_root (some root) relative method =
      with_file root relative method (disk.realpath (disk.resolve root relative))

  -- `rest` is a static path, so it decodes and begins with a slash.
  unfoldable pub client_file_response :
      (String → Option String) → String → String → String → Option FileResponse
  client_file_response decode web_root rest method = elim (relative_of decode rest) [
    | none ↦ none
    | some relative ↦ with_root (disk.realpath web_root) relative method
  ]
