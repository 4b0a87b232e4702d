-- ===== src/Tests/Paths.antt =====
-- Paths of _cases/README.md through internal/models/request_detail.go.
use apron_gateway_p2p.Prelude.{◌≡◌, refl, [], ◌∷◌, Bytes, codes}
use apron_gateway_p2p.Outcome.{ok, err}
use apron_gateway_p2p.Regex.{find_all}
use apron_gateway_p2p.RequestDetail.{
  Request, is_digit, is_word, proxy_request_path_pattern, extract_service_id_and_user_key,
  invalid_path_format,
}
use apron_gateway_p2p.RequestDetail.Runs.{of_runs, long_runs, extract_service_id_and_user_key-runs}

abbrev pub get_at : Bytes → Request
get_at path = record {
  host = codes "localhost";
  path = path;
  method = codes "GET";
  headers = [];
  query_args = [];
  body = [];
}

abbrev pub readme_path : Bytes
readme_path = codes "/v1/aaaaaaaaaahellouser/testget"

readme_groups :
    find_all proxy_request_path_pattern readme_path
    ≡ (codes "/"
        ∷ codes "v"
        ∷ codes "1"
        ∷ []
        ∷ codes "/"
        ∷ codes "aaaaaaaaaahellouser"
        ∷ codes "/"
        ∷ codes "testget"
        ∷ [])
      ∷ []
unfolding find_all is_digit is_word
readme_groups = refl

readme_service :
    extract_service_id_and_user_key readme_path ≡ ok (codes "aaaaaaaaaa", codes "hellouser")
unfolding find_all is_word extract_service_id_and_user_key
readme_service = refl

-- a second long word in the path
long_word :
    extract_service_id_and_user_key (codes "/v1/aaaaaaaaaahellouser/documentation")
    ≡ err invalid_path_format
unfolding find_all is_word extract_service_id_and_user_key
long_word = refl

extract_service_id_and_user_key-runs_example :
    extract_service_id_and_user_key readme_path ≡ of_runs (long_runs [] readme_path)
extract_service_id_and_user_key-runs_example = extract_service_id_and_user_key-runs readme_path
