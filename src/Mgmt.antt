-- ===== src/Mgmt.antt =====
-- The management API of a gateway: internal/trans_network/node_mgmt_handler.go. The listings range
-- over a map under the mutex, in the order `keys`; their JSON rendering is left to `encoding/json`, and the
-- model has the value that is rendered. `json.Unmarshal` of a service is a parameter.
pub mod Lists
use apron_gateway_p2p.Prelude.{
  Bool, true, false, not, Option, none, some, List, [], ◌∷◌, Bytes, GoMap, empty, insert, bytes_eq,
  if◌then◌else◌,
}
use apron_gateway_p2p.Outcome.{Outcome, ok, err, panic, check_error}
use apron_gateway_p2p.Models.{ApronService, no_service}
use apron_gateway_p2p.Node.{Node, PeerId}
use apron_gateway_p2p.Registry.{register_local_service}

-- the loop body of `listServiceHandler`
unfoldable pub append_some : Option ApronService → List ApronService → List ApronService
append_some none rest = rest
append_some (some v) rest = v ∷ rest

-- `listServiceHandler`, over `n.services`
unfoldable pub list_service_handler : List Bytes → Node → List ApronService
unfolding append_some
list_service_handler [] n = []
list_service_handler (k ∷ ks) n = append_some (n.services k) (list_service_handler ks n)

-- `listServicePeerHandler`, over `n.servicePeerMapping`; `pretty` is libp2p's `Pretty`
unfoldable pub put_some : (PeerId → Bytes) → Bytes → Option PeerId → GoMap Bytes → GoMap Bytes
put_some pretty k none rslt = rslt
put_some pretty k (some v) rslt = insert k (pretty v) rslt

unfoldable pub list_service_peer_handler :
    (PeerId → Bytes) → List Bytes → Node → GoMap Bytes → GoMap Bytes
unfolding put_some
list_service_peer_handler pretty [] n rslt = rslt
list_service_peer_handler pretty (k ∷ ks) n rslt =
    list_service_peer_handler pretty ks n (put_some pretty k (n.service_peer_mapping k) rslt)

-- `n.services[k]`, the zero value if there is none
abbrev pub service_at : Option ApronService → ApronService
service_at none = no_service
service_at (some s) = s

-- the loop body of the next two: `wanted` is the test on the peer
unfoldable pub append_if :
    (PeerId → Bool) → Option PeerId → Option ApronService → List ApronService → List ApronService
append_if wanted none s rest = rest
append_if wanted (some v) s rest = if wanted v then service_at s ∷ rest else rest

unfoldable pub list_where : (PeerId → Bool) → List Bytes → Node → List ApronService
unfolding append_if
list_where wanted [] n = []
list_where wanted (k ∷ ks) n =
    append_if wanted (n.service_peer_mapping k) (n.services k) (list_where wanted ks n)

-- `listLocalServiceHandler` and `listRemoteServiceHandler`, over `n.servicePeerMapping`
unfoldable pub list_local_service_handler : List Bytes → Node → List ApronService
unfolding list_where
list_local_service_handler keys n = list_where (λ v. bytes_eq v n.self_id) keys n

unfoldable pub list_remote_service_handler : List Bytes → Node → List ApronService
unfolding list_where
list_remote_service_handler keys n = list_where (λ v. not (bytes_eq v n.self_id)) keys n

module _ (unmarshal_json : Bytes → Outcome ApronService) (marshal : ApronService → Outcome Bytes)
    (publish : Bytes → Outcome (Unit {0})) where
  -- behind `CheckError`: nothing is registered if the body does not parse
  unfoldable pub register_parsed :
      (ApronService → ApronService) → Outcome ApronService → Node → Outcome (Unit {0}) × Node
  unfolding register_local_service
  register_parsed f (ok service) n = register_local_service marshal publish (f service) n
  register_parsed f (err e) n = (panic e, n)
  register_parsed f (panic e) n = (panic e, n)

  -- `newOrUpdateServiceHandler`
  unfoldable pub new_or_update_service_handler : Bytes → Node → Outcome (Unit {0}) × Node
  unfolding register_parsed
  new_or_update_service_handler body n = register_parsed (λ s. s) (unmarshal_json body) n

  -- `deleteServiceHandler`
  unfoldable pub delete_service_handler : Bytes → Node → Outcome (Unit {0}) × Node
  unfolding register_parsed
  delete_service_handler body n =
      register_parsed (λ s. record s { is_deleted = true }) (unmarshal_json body) n
