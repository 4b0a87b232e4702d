-- ===== src/RequestDetail.antt =====
-- internal/models/request_detail.go: what a gateway reads off a client's request. Of a
-- `fasthttp.Request` the model has what the accessors return that the code calls.
pub mod Params
pub mod Runs
use Prim.Native.Nat.{◌*◌}
use apron_gateway_p2p.Prelude.{
  ℕ, zero, suc, ◌+◌, ◌-◌, Bool, true, false, not, ◌&&◌, ◌||◌, Option, none, some, List, [], ◌∷◌,
  ◌++◌, Bytes, codes, bytes_eq, take, drop, length, GoMap, empty, insert, leb, ◌==◌, if◌then◌else◌,
}
use apron_gateway_p2p.Outcome.{Outcome, ok, err, panic}
use apron_gateway_p2p.Regex.{Item, find_all}

-- `fasthttp.Request`
pub record Request : Type 0 where
  pub host : Bytes
  pub path : Bytes
  pub method : Bytes
  pub headers : List (Bytes × Bytes)
  pub query_args : List (Bytes × Bytes)
  pub body : Bytes

pub record RequestDetail : Type 0 where
  pub host : Bytes
  pub path : Bytes
  pub method : Bytes
  pub headers : GoMap (List Bytes)
  pub query_params : GoMap (List Bytes)
  pub form_params : GoMap (List Bytes)
  pub request_body : Bytes
  pub version : ℕ
  pub service_name : Bytes
  pub user_key : Bytes
  pub proxy_request_path : Bytes

unfoldable pub within : ℕ → ℕ → ℕ → Bool
within lo hi c = leb lo c && leb c hi

-- `\d`
unfoldable pub is_digit : ℕ → Bool
unfolding within
is_digit c = within b'0' b'9' c

-- `[\w-]`
unfoldable pub is_word : ℕ → Bool
unfolding within is_digit
is_word c = is_digit c || within b'A' b'Z' c || within b'a' b'z' c || c == b'_' || c == b'-'

abbrev pub one_of : (ℕ → Bool) → Item
one_of class = record { class = class; least = 1; most = some 1 }

abbrev pub lit : ℕ → Item
lit x = one_of (λ c. c == x)

-- `(?m)/v([1-9]\d{0,3})/([\w-]+)/?(.*)`
abbrev pub proxy_request_path_pattern : List Item
proxy_request_path_pattern =
    lit b'/'
    ∷ lit b'v'
    ∷ one_of (within b'1' b'9')
    ∷ record { class = is_digit; least = 0; most = some 3 }
    ∷ lit b'/'
    ∷ record { class = is_word; least = 1; most = none }
    ∷ record { class = λ c. c == b'/'; least = 0; most = some 1 }
    ∷ record { class = λ c. not (c == b'\n'); least = 0; most = none }
    ∷ []

-- `([\w-]{10})([\w-]+)`
abbrev pub service_id_user_key_pattern : List Item
service_id_user_key_pattern =
    record { class = is_word; least = 10; most = some 10 }
    ∷ record { class = is_word; least = 1; most = none }
    ∷ []

abbrev pub invalid_path_format : Bytes
invalid_path_format = codes "invalid path format"

-- exactly one match with its two groups
unfoldable pub one_service_match : List (List Bytes) → Outcome (Bytes × Bytes)
one_service_match ((service_id ∷ user_key ∷ []) ∷ []) = ok (service_id, user_key)
one_service_match _ = err invalid_path_format

-- `ExtractServiceIdAndUserKey`
unfoldable pub extract_service_id_and_user_key : Bytes → Outcome (Bytes × Bytes)
unfolding one_service_match
extract_service_id_and_user_key combined =
    one_service_match (find_all service_id_user_key_pattern combined)

-- `strconv.ParseUint(s, 10, 32)` of at most four digits
unfoldable pub parse_uint : ℕ → Bytes → ℕ
parse_uint acc [] = acc
parse_uint acc (c ∷ cs) = parse_uint (acc * 10 + (c - b'0')) cs

abbrev pub or_nil : Option (List Bytes) → List Bytes
or_nil none = []
or_nil (some vs) = vs

-- `m[k]`, nil if there is none
abbrev pub values : GoMap (List Bytes) → Bytes → List Bytes
values m k = or_nil (m k)

-- `req.Header.VisitAll(…)`
unfoldable pub visit_headers : List (Bytes × Bytes) → GoMap (List Bytes) → GoMap (List Bytes)
visit_headers [] headers = headers
visit_headers ((k, v) ∷ rest) headers =
    visit_headers rest (insert k (values headers k ++ v ∷ []) headers)

-- `req.URI().QueryArgs().VisitAll(…)`: the code appends to the values of the header of that name
unfoldable pub visit_query_args :
    GoMap (List Bytes) → List (Bytes × Bytes) → GoMap (List Bytes) → GoMap (List Bytes)
visit_query_args headers [] params = params
visit_query_args headers ((k, v) ∷ rest) params =
    visit_query_args headers rest (insert k (values headers k ++ v ∷ []) params)

-- `bytes.HasPrefix(detail.Path, []byte("/ws"))`, and the path without it
unfoldable pub path_with_key : Bytes → Bytes
path_with_key path = if bytes_eq (take 3 path) (codes "/ws") then drop 3 path else path

-- the detail before the path is looked at
unfoldable pub base_detail : Request → RequestDetail → RequestDetail
unfolding visit_headers visit_query_args
base_detail req detail =
    let headers = visit_headers req.headers empty in
    record detail {
      host = req.host;
      path = req.path;
      method = req.method;
      headers = headers;
      query_params = visit_query_args headers req.query_args empty;
      form_params = empty;
      request_body = req.body;
    }

-- behind `ExtractServiceIdAndUserKey`, which sets both fields also when it fails
unfoldable pub set_service_match :
    Bytes → RequestDetail → Outcome (Bytes × Bytes) → RequestDetail × Option Bytes
set_service_match proxy_path detail (ok (service_id, user_key)) = (
  record detail { service_name = service_id; user_key = user_key; proxy_request_path = proxy_path },
  none,
)
set_service_match proxy_path detail (err e) =
    (record detail { service_name = []; user_key = [] }, some e)
set_service_match proxy_path detail (panic e) =
    (record detail { service_name = []; user_key = [] }, some e)

-- Exactly one match of the path pattern: the version, which is its items 3 and 4, and the path that
-- is passed on, which is its item 8.
unfoldable pub path_groups : List (List Bytes) → Option (Bytes × Bytes)
path_groups ((slash ∷ v ∷ digit ∷ digits ∷ slash₂ ∷ key ∷ slash₃ ∷ rest ∷ []) ∷ []) =
    some (digit ++ digits, rest)
path_groups _ = none

unfoldable pub set_path_match :
    RequestDetail → Option (Bytes × Bytes) → RequestDetail × Option Bytes
unfolding set_service_match
set_path_match detail none = (detail, some invalid_path_format)
set_path_match detail (some (version, rest)) =
    set_service_match rest (record detail { version = parse_uint 0 version })
      (extract_service_id_and_user_key detail.path)

-- `ExtractRequestDetailFromFasthttpRequest`: the detail as it is left, and the error if there is one
unfoldable pub extract_request_detail_from_fasthttp_request :
    Request → RequestDetail → RequestDetail × Option Bytes
unfolding base_detail set_path_match path_with_key path_groups
extract_request_detail_from_fasthttp_request req detail =
    set_path_match (base_detail req detail)
      (path_groups (find_all proxy_request_path_pattern (path_with_key req.path)))

-- `var clientReqDetail models.RequestDetail`
abbrev pub no_detail : RequestDetail
no_detail = record {
  host = [];
  path = [];
  method = [];
  headers = empty;
  query_params = empty;
  form_params = empty;
  request_body = [];
  version = 0;
  service_name = [];
  user_key = [];
  proxy_request_path = [];
}
