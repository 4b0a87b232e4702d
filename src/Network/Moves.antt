-- ===== src/Network/Moves.antt =====
-- What a step puts on its way (internal/trans_network/csgw_http.go and node_proxy_handler.go).
use apron_gateway_p2p.Prelude.{
  ◌≡◌, refl, sym, ap, ◌∙◌, ◌⊎◌, inl, inr, Option, none, some, List, [], ◌∷◌, append-nil, Bytes,
  drop, length, drop-length-append,
}
use apron_gateway_p2p.Outcome.{Outcome, ok, err, panic}
use apron_gateway_p2p.Models.{ApronServiceData}
use apron_gateway_p2p.RequestDetail.{Request}
use apron_gateway_p2p.Wire.Frame.{data_ch}
use apron_gateway_p2p.Act.{World, Exit, sent_chan, wrote_reply}
use apron_gateway_p2p.Act.Frames.{frames_in}
use apron_gateway_p2p.Act.Ends.{ExitOf, Ended-frames_in}
use apron_gateway_p2p.Gateway.Env.{Env}
use apron_gateway_p2p.Gateway.Http.{send_request, finish_http_request}
use apron_gateway_p2p.Gateway.Service.{proxy_http_init_request_handler, proxy_http_resp_handler}
use apron_gateway_p2p.Network.Client.{Sent, send_request-Ends}
use apron_gateway_p2p.Network.Service.{Served, proxy_http_init_request_handler-Ends}
use apron_gateway_p2p.Network.Steps.{Labelled, chan_data, reply_bodies, new_effects}

new_effects-none : (w : World) → new_effects w w ≡ []
new_effects-none w =
    ap (drop (length w.effects)) (sym (append-nil w.effects)) ∙ drop-length-append w.effects []

module _ (env : Env) where
  pub send_request-frames :
      (req : Request) (w : World)
      → ExitOf
          (Sent env req)
          (send_request env req w).0
          (frames_in (new_effects w (send_request env req w).1))
  send_request-frames req w =
      Ended-frames_in (Sent env req) w (send_request env req w) ((send_request-Ends env req).at w)

  pub serve-frames :
      (bytes : Bytes) (w : World)
      → ExitOf
          (λ u fs. Served env (data_ch bytes) fs)
          (proxy_http_init_request_handler env (data_ch bytes) w).0
          (frames_in (new_effects w (proxy_http_init_request_handler env (data_ch bytes) w).1))
  serve-frames bytes w =
      Ended-frames_in (λ u fs. Served env (data_ch bytes) fs) w
        (proxy_http_init_request_handler env (data_ch bytes) w)
        ((proxy_http_init_request_handler-Ends env (data_ch bytes)).at w)

  -- the data that the bytes decode to, under its own id, or nothing
  abbrev pub Handed : Bytes → List Labelled → Type 0
  Handed bytes ds =
      (ds ≡ [])
      ⊎ ((d : ApronServiceData) × (env.unmarshal_data bytes ≡ ok d)
          × (ds ≡ (d.request_id, d.raw_data) ∷ []))

  module _ (bytes : Bytes) (w : World) where
    abbrev resp : Exit (Unit {0}) × World
    resp = proxy_http_resp_handler env (data_ch bytes) w

    unchanged-Handed : resp.1 ≡ w → Handed bytes (chan_data (new_effects w resp.1))
    unfolding chan_data
    unchanged-Handed h =
        inl (ap (λ (v : World). chan_data (new_effects w v)) h ∙ ap chan_data (new_effects-none w))

    to_channel :
        (d : ApronServiceData) (c : Option (Unit {0}))
        → env.unmarshal_data bytes ≡ ok d
        → w.node.client_http_data_chan d.request_id ≡ c
        → Handed bytes (chan_data (new_effects w resp.1))
    unfolding proxy_http_resp_handler chan_data
    to_channel d none decodes h = unchanged-Handed (rw (decodes, h) refl)
    to_channel d (some c) decodes h = inr (
      d,
      decodes,
      rw (decodes, h)
          (ap chan_data (drop-length-append w.effects (sent_chan d.request_id d.raw_data ∷ []))),
    )

    decoded :
        (o : Outcome ApronServiceData)
        → env.unmarshal_data bytes ≡ o
        → Handed bytes (chan_data (new_effects w resp.1))
    unfolding proxy_http_resp_handler
    decoded (ok d) h = to_channel d (w.node.client_http_data_chan d.request_id) h refl
    decoded (err e) h = unchanged-Handed (rw h refl)
    decoded (panic e) h = unchanged-Handed (rw h refl)

    pub resp-Handed : Handed bytes (chan_data (new_effects w resp.1))
    resp-Handed = decoded (env.unmarshal_data bytes) refl

  pub finish-reply_bodies :
      (id content : Bytes) (w : World)
      → reply_bodies (new_effects w (finish_http_request env id content w).1) ≡ content ∷ []
  unfolding finish_http_request reply_bodies
  finish-reply_bodies id content w =
      ap reply_bodies (drop-length-append w.effects (wrote_reply content ∷ []))
