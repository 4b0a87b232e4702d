-- ===== src/Tests/Management.antt =====
-- The management API and the request's parameters on small inputs
-- (internal/trans_network/node_mgmt_handler.go and internal/models/request_detail.go).
use apron_gateway_p2p.Prelude.{true, [], ◌∷◌, ◌++◌, Bytes, codes}
use apron_gateway_p2p.Outcome.{Outcome, ok, err}
use apron_gateway_p2p.Models.{ApronService, no_service}
use apron_gateway_p2p.Node.{Node, new_node}
use apron_gateway_p2p.Registry.{set_service}
use apron_gateway_p2p.Registry.Invariant.{IsConsistent-new_node, set_service-IsConsistent}
use apron_gateway_p2p.Mgmt.{
  list_service_handler, list_local_service_handler, list_remote_service_handler,
  new_or_update_service_handler, delete_service_handler,
}
use apron_gateway_p2p.Mgmt.Lists.{local_remote-perm, Handled, handlers-Handled}
use mathlib.Core.List.{Perm}

abbrev echo : ApronService
echo = record no_service { id = codes "echo" }

abbrev with_echo : Node
with_echo = set_service (codes "B") echo new_node

local_remote-perm_example :
    Perm
      (list_local_service_handler (codes "echo" ∷ []) with_echo
        ++ list_remote_service_handler (codes "echo" ∷ []) with_echo)
      (list_service_handler (codes "echo" ∷ []) with_echo)
local_remote-perm_example =
    local_remote-perm with_echo
      (set_service-IsConsistent new_node IsConsistent-new_node (codes "B") echo) (codes "echo" ∷ [])

abbrev parse_echo : Bytes → Outcome ApronService
parse_echo body = ok echo

abbrev marshal_echo : ApronService → Outcome Bytes
marshal_echo s = ok s.id

abbrev publish_fails : Bytes → Outcome (Unit {0})
publish_fails content = err content

handlers-Handled_example :
    Handled parse_echo marshal_echo publish_fails with_echo
      (λ s. s)
      (parse_echo [])
      (new_or_update_service_handler parse_echo marshal_echo publish_fails [] with_echo)
    × Handled parse_echo marshal_echo publish_fails with_echo
        (λ s. record s { is_deleted = true })
        (parse_echo [])
        (delete_service_handler parse_echo marshal_echo publish_fails [] with_echo)
handlers-Handled_example = handlers-Handled parse_echo marshal_echo publish_fails with_echo []
