-- ===== src/RequestDetail/Params.antt =====
-- What `ExtractRequestDetailFromFasthttpRequest` leaves in the detail
-- (internal/models/request_detail.go).
use apron_gateway_p2p.Prelude.{
  ◌≡◌, refl, sym, ap, ◌∙◌, Bool, true, false, Option, none, some, List, [], ◌∷◌, ◌++◌, Bytes,
  bytes_eq, bytes_eq_iff, insert, get-insert, GoMap, inl, inr, Bool-cases, append-nil, append_assoc,
  if◌then◌else◌,
}
use apron_gateway_p2p.Outcome.{Outcome, ok, err, panic}
use apron_gateway_p2p.RequestDetail.{
  Request, RequestDetail, base_detail, set_path_match, set_service_match,
  extract_request_detail_from_fasthttp_request, no_detail, values, or_nil, parse_uint,
  visit_headers, visit_query_args, extract_service_id_and_user_key,
}

set_service_match-fails :
    (rest : Bytes) (d : RequestDetail) (r : Outcome (Bytes × Bytes)) (e : Bytes)
    → (set_service_match rest d r).1 ≡ some e
    → (set_service_match rest d r).0.service_name ≡ []
unfolding set_service_match
set_service_match-fails rest d (ok p) e h = cc
set_service_match-fails rest d (err z) e h = refl
set_service_match-fails rest d (panic z) e h = refl

set_path_match-fails :
    (d : RequestDetail) (o : Option (Bytes × Bytes)) (e : Bytes)
    → d.service_name ≡ []
    → (set_path_match d o).1 ≡ some e
    → (set_path_match d o).0.service_name ≡ []
unfolding set_path_match
set_path_match-fails d none e n h = n
set_path_match-fails d (some (v, rest)) e n h =
    set_service_match-fails rest (record d { version = parse_uint 0 v })
      (extract_service_id_and_user_key d.path) e h

-- If the extraction fails, no service name is left in the detail.
pub extract-fails :
    (req : Request) (e : Bytes)
    → (extract_request_detail_from_fasthttp_request req no_detail).1 ≡ some e
    → (extract_request_detail_from_fasthttp_request req no_detail).0.service_name ≡ []
unfolding extract_request_detail_from_fasthttp_request
extract-fails req e h = set_path_match-fails (base_detail req no_detail) _ e refl h

-- the values of a name among pairs, in order
unfoldable pub all_values : Bytes → List (Bytes × Bytes) → List Bytes
all_values k [] = []
all_values k ((j, v) ∷ rest) =
    let more = all_values k rest in if bytes_eq j k then v ∷ more else more

-- the last of them, if there is one
unfoldable pub last_value : Bytes → List (Bytes × Bytes) → Option Bytes → Option Bytes
last_value k [] found = found
last_value k ((j, v) ∷ rest) found = last_value k rest (if bytes_eq j k then some v else found)

or_nil_if :
    (b : Bool) (vs : List Bytes) (o : Option (List Bytes))
    → or_nil (if b then some vs else o) ≡ (if b then vs else or_nil o)
or_nil_if true vs o = refl
or_nil_if false vs o = refl

values-insert :
    (k j : Bytes) (vs : List Bytes) (m : GoMap (List Bytes))
    → values (insert k vs m) j ≡ (if bytes_eq k j then vs else values m j)
values-insert k j vs m = ap or_nil (get-insert k j vs m) ∙ or_nil_if (bytes_eq k j) vs (m j)

header_step :
    (b : Bool) (at_j at_k more : List Bytes) (v : Bytes)
    → (b ≡ true → at_j ≡ at_k)
    → (if b then at_j ++ v ∷ [] else at_k) ++ more ≡ at_k ++ (if b then v ∷ more else more)
header_step true at_j at_k more v e = rw (e refl) (append_assoc at_k (v ∷ []) more)
header_step false at_j at_k more v e = refl

-- Visiting the headers appends to each name all of its values, in order.
pub values-visit_headers :
    (hs : List (Bytes × Bytes)) (m : GoMap (List Bytes)) (k : Bytes)
    → values (visit_headers hs m) k ≡ values m k ++ all_values k hs
unfolding visit_headers all_values
values-visit_headers [] m k = sym (append-nil (values m k))
values-visit_headers ((j, v) ∷ hs) m k =
    values-visit_headers hs (insert j (values m j ++ v ∷ []) m) k
    ∙ ap (λ (t : List Bytes). t ++ all_values k hs) (values-insert j k (values m j ++ v ∷ []) m)
    ∙ header_step (bytes_eq j k) (values m j) (values m k) (all_values k hs) v
        (λ e. ap (values m) ((bytes_eq_iff j k).0 e))

-- what the code leaves as the values of a query parameter of that last value
abbrev pub param_values :
    GoMap (List Bytes) → Bytes → Option Bytes → Option (List Bytes) → Option (List Bytes)
param_values headers k none old = old
param_values headers k (some v) old = some (values headers k ++ v ∷ [])

last_value_found :
    (k : Bytes) (qs : List (Bytes × Bytes)) (headers : GoMap (List Bytes)) (v : Bytes)
    (old : Option (List Bytes))
    → param_values headers k (last_value k qs (some v)) old
      ≡ param_values headers k (last_value k qs none) (some (values headers k ++ v ∷ []))
unfolding last_value
last_value_found k [] headers v old = refl
last_value_found k ((j, u) ∷ qs) headers v old = elim (Bool-cases (bytes_eq j k)) [
  | inl e ↦ rw e (
      last_value_found k qs headers u old
      ∙ sym (last_value_found k qs headers u (some (values headers k ++ v ∷ []))))
  | inr e ↦ rw e (last_value_found k qs headers v old)
]

param_step :
    (k j v : Bytes) (qs : List (Bytes × Bytes)) (headers : GoMap (List Bytes))
    (old : Option (List Bytes)) (b : Bool)
    → (b ≡ true → j ≡ k)
    → param_values headers k
        (last_value k qs none)
        (if b then some (values headers j ++ v ∷ []) else old)
      ≡ param_values headers k (last_value k qs (if b then some v else none)) old
param_step k j v qs headers old true same =
    rw (same refl) (sym (last_value_found k qs headers v old))
param_step k j v qs headers old false same = refl

-- Of a query parameter the code leaves the values of the header of that name and, behind them, the
-- parameter's last value: its other values are lost. A name without a parameter keeps its entry.
pub visit_query_args_lem :
    (headers : GoMap (List Bytes)) (qs : List (Bytes × Bytes)) (params : GoMap (List Bytes))
    (k : Bytes)
    → visit_query_args headers qs params k
      ≡ param_values headers k (last_value k qs none) (params k)
unfolding visit_query_args last_value
visit_query_args_lem headers [] params k = refl
visit_query_args_lem headers ((j, v) ∷ qs) params k =
    visit_query_args_lem headers qs (insert j (values headers j ++ v ∷ []) params) k
    ∙ ap (param_values headers k (last_value k qs none))
        (get-insert j k (values headers j ++ v ∷ []) params)
    ∙ param_step k j v qs headers (params k) (bytes_eq j k) (bytes_eq_iff j k).0
