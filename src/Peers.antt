-- ===== src/Peers.antt =====
-- The addresses of bootstrap peers: `AddrList` of internal/trans_network/addr_list.go, the value of the
-- flag `-peers` of cmd/gateway/main.go. `multiaddr.NewMultiaddr` and the text of an address are parameters.
use apron_gateway_p2p.Prelude.{List, [], ◌∷◌, ◌++◌, Bytes, codes, map}
use apron_gateway_p2p.Outcome.{Outcome, ok, err, panic}

-- `strings.Join(texts, ",")`
unfoldable pub join_texts : List Bytes → Bytes
join_texts [] = []
join_texts (t ∷ []) = t
join_texts (t ∷ u ∷ us) = let rest = join_texts (u ∷ us) in t ++ (codes "," ++ rest)

module _ {Addr : Type 0} (text : Addr → Bytes) (new_multiaddr : Bytes → Outcome Addr) where
  -- `(*AddrList).String`
  unfoldable pub addr_list_string : List Addr → Bytes
  unfolding join_texts
  addr_list_string al = join_texts (map text al)

  -- behind the parsing
  unfoldable pub append_addr : Outcome Addr → List Addr → Outcome (Unit {0}) × List Addr
  append_addr (ok addr) al = (ok tt, al ++ addr ∷ [])
  append_addr (err e) al = (err e, al)
  append_addr (panic e) al = (panic e, al)

  -- `(*AddrList).Set`
  unfoldable pub addr_list_set : Bytes → List Addr → Outcome (Unit {0}) × List Addr
  unfolding append_addr
  addr_list_set value al = append_addr (new_multiaddr value) al
