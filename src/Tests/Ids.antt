-- ===== src/Tests/Ids.antt =====
-- Request ids, through internal/models/helper.go and internal/utils.go.
use apron_gateway_p2p.Prelude.{◌≡◌, refl, codes}
use apron_gateway_p2p.Outcome.{ok}
use apron_gateway_p2p.RequestId.{extract_service_info_from_request_id, new_request_id, has_dot}
use apron_gateway_p2p.RequestId.Split.{extract-new_request_id, Extracts, extract-Extracts}

extract-new_request_id_example :
    extract_service_info_from_request_id
      (new_request_id (codes "user") (codes "httpbin_org") (codes "ab.12"))
    ≡ ok (codes "user", codes "httpbin_org")
unfolding has_dot
extract-new_request_id_example =
    extract-new_request_id (codes "user") (codes "httpbin_org") (codes "ab.12") refl refl

extract-Extracts_example :
    Extracts (codes "user.service") (extract_service_info_from_request_id (codes "user.service"))
extract-Extracts_example = extract-Extracts (codes "user.service")
