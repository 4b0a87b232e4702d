-- ===== src/Models.antt =====
-- The messages of proto/models.proto and proto/ext_service.proto, as the structs of
-- internal/models/models.pb.go and internal/models/ext_service.pb.go declare them. Strings and byte
-- slices are lists of bytes; an `int64`, and an `enum`, is the number of its bit pattern.
use apron_gateway_p2p.Prelude.{ℕ, Bool, false, List, [], Bytes}

pub record ApronServiceProvider : Type 0 where
  pub id : Bytes
  pub name : Bytes
  pub desc : Bytes
  pub created_at : ℕ
  pub updated_at : ℕ
  pub extra_detail : Bytes
  pub base_url : Bytes
  pub schema : Bytes
  pub network_type : ℕ

pub record ApronService : Type 0 where
  pub id : Bytes
  pub name : Bytes
  pub desc : Bytes
  pub logo : Bytes
  pub usage : Bytes
  pub user_id : Bytes
  pub providers : List ApronServiceProvider
  pub is_deleted : Bool

-- the zero value, which a lookup of a missing key returns
abbrev pub no_service : ApronService
no_service = record {
  id = [];
  name = [];
  desc = [];
  logo = [];
  usage = [];
  user_id = [];
  providers = [];
  is_deleted = false;
}

pub record ApronServiceRequest : Type 0 where
  pub service_id : Bytes
  pub request_id : Bytes
  pub peer_id : Bytes
  pub is_ws_request : Bool
  pub raw_request : Bytes

pub record ApronServiceData : Type 0 where
  pub request_id : Bytes
  pub raw_data : Bytes

pub record ApronUsageRecord : Type 0 where
  pub user_key : Bytes
  pub service_id : Bytes
  pub start_ts : ℕ
  pub end_ts : ℕ
  pub access_count : ℕ
  pub upload_traffic : ℕ
  pub download_traffic : ℕ

pub record NodeReport : Type 0 where
  pub node_id : Bytes
  pub records : List ApronUsageRecord

pub record ApronSocketInitRequest : Type 0 where
  pub service_id : Bytes
  pub request_id : Bytes
  pub peer_id : Bytes
  pub user_id : Bytes

pub record ApronSocketServiceRequest : Type 0 where
  pub service_id : Bytes
  pub request_id : Bytes
  pub peer_id : Bytes

pub record ExtServiceData : Type 0 where
  pub service_name : Bytes
  pub request_id : Bytes
  pub msg_id : Bytes
  pub content_type : ℕ
  pub content : Bytes
