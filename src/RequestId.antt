-- ===== src/RequestId.antt =====
-- Request ids and usage keys: `ExtractServiceInfoFromRequestID` of internal/models/helper.go,
-- `GenerateUsageRecordKey` of internal/models/usage_record.go, `ServiceHostnameToIdByte` of
-- internal/utils.go, and the ids that internal/trans_network/csgw_http.go and csgw_socket.go build.
pub mod Split
pub mod Keys
use apron_gateway_p2p.Prelude.{
  ℕ, zero, suc, List, [], ◌∷◌, ◌++◌, Option, none, some, Bool, true, false, ◌||◌, Bytes, codes,
  ◌==◌, if◌then◌else◌,
}
use apron_gateway_p2p.Outcome.{Outcome, ok, panic}

abbrev pub dot : ℕ
dot = b'.'

-- the text before and behind the first `sep`
unfoldable pub cut : ℕ → Bytes → Option (Bytes × Bytes)
cut sep [] = none
cut sep (c ∷ cs) =
    if c == sep
    then some ([], cs)
    else elim (cut sep cs) [ none ↦ none | some (a, b) ↦ some (c ∷ a, b) ]

-- behind `cut`: the first part, and the others by `next`
unfoldable pub split_at : (Bytes → List Bytes) → Bytes → Option (Bytes × Bytes) → List Bytes
split_at next s none = s ∷ []
split_at next s (some (a, b)) = a ∷ next b

-- `strings.SplitN(s, sep, n)` for a separator of one byte and n ≥ 0
unfoldable pub split_n : ℕ → ℕ → Bytes → List Bytes
unfolding cut split_at
split_n zero sep s = []
split_n (suc zero) sep s = s ∷ []
split_n (suc (suc n)) sep s = split_at (split_n (suc n) sep) s (cut sep s)

unfoldable pub service_info : Bytes → List Bytes → Outcome (Bytes × Bytes)
service_info request_id (a ∷ b ∷ c ∷ []) = ok (a, b)
service_info request_id _ =
    panic
      (codes "invalid format of request id (" ++ (request_id ++ codes "), please contract admin"))

-- `ExtractServiceInfoFromRequestID`: the user key and the service id
unfoldable pub extract_service_info_from_request_id : Bytes → Outcome (Bytes × Bytes)
unfolding split_n service_info
extract_service_info_from_request_id request_id = service_info request_id (split_n 3 dot request_id)

-- `fmt.Sprintf("%s.%s", serviceId, userKey)`
unfoldable pub generate_usage_record_key : Bytes → Bytes → Bytes
generate_usage_record_key service_id user_key = service_id ++ dot ∷ user_key

-- `fmt.Sprintf("%s.%s.%s", userKey, serviceId, uuid)`
unfoldable pub new_request_id : Bytes → Bytes → Bytes → Bytes
new_request_id user_key service_id uuid = user_key ++ dot ∷ (service_id ++ dot ∷ uuid)

-- `bytes.Replace(hostname, []byte("."), []byte("_"), -1)`
unfoldable pub service_hostname_to_id_byte : Bytes → Bytes
service_hostname_to_id_byte [] = []
service_hostname_to_id_byte (c ∷ cs) =
    (if c == dot then b'_' else c) ∷ service_hostname_to_id_byte cs

-- whether a text has a dot
unfoldable pub has_dot : Bytes → Bool
has_dot [] = false
has_dot (c ∷ cs) = c == dot || has_dot cs
