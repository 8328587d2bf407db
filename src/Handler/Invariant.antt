-- ===== src/Handler/Invariant.antt =====
-- Invariants of the handler: a property of the state that its three writers keep, with one of the
-- tasks that they spawn, holds after every request.
use gostly_ai_proxy.Base.{ℕ, Option, none, some, List, [], Text, text_eq, All, by_if, by_option}
use gostly_ai_proxy.Base.HashMap.{HashMap}
use gostly_ai_proxy.Http.{Bytes}
use gostly_ai_proxy.Types.{Mode, learn, mock, passthrough, transitioning}
use gostly_ai_proxy.Tenant.{resolve_tenant}
use gostly_ai_proxy.Chaos.Config.{
  ChaosConfig, ChaosSettings, ChaosModel, uniform, markov, MarkovState, settings,
}
use gostly_ai_proxy.State.{Platform, AppState, Request, Routed, Clock, Draws, Task}
use gostly_ai_proxy.Response.{Response, Outcome, responded, failed, panicked}
use gostly_ai_proxy.Upstream.{UpstreamRequest, Sent, refused, broken, replied, upstream_request}
use gostly_ai_proxy.Learn.{record_response, learn_from, handle_learn, pass_on, handle_passthrough}
use gostly_ai_proxy.Handler.{
  applies, mode_str, chaos_rates_for, inject, active_settings, inject_active, is_chaotic, chaos_for,
  chaos_block, serve_mock, dispatch_as, dispatch, handle_routed, route, proxy_handler,
}

module _ {F : Type 0} (p : Platform F) (I : AppState F → Type 0)
    (chaos_kept : (st : AppState F) (m : HashMap Text MarkovState)
      → I st
      → I (record st { markov_state = m })) where
  abbrev Calm : Option Response × ℕ × AppState F → Type 0
  Calm (response, slept, st) = I st

  rates-kept :
      (st : AppState F) (r : Routed F) (clock : Clock) (draws : Draws F) (cc : ChaosSettings F)
      (m : ChaosModel)
      → I st
      → I (chaos_rates_for p st r clock draws cc m).2
  rates-kept st r clock draws cc uniform h = h
  rates-kept st r clock draws cc markov h = chaos_kept st _ h

  inject-kept :
      (st : AppState F) (r : Routed F) (clock : Clock) (draws : Draws F) (cc : ChaosSettings F)
      → I st
      → Calm (inject p st r clock draws cc)
  unfolding inject
  inject-kept st r clock draws cc h = rates-kept st r clock draws cc cc.chaos_model h

  inject_active-kept :
      (st : AppState F) (r : Routed F) (clock : Clock) (draws : Draws F) (svc_cc : ChaosConfig F)
      → I st
      → Calm (inject_active p st r clock draws svc_cc)
  inject_active-kept st r clock draws svc_cc h =
      let active = active_settings p r svc_cc in
      by_if Calm (applies active.modes (mode_str r.mode)) (inject p st r clock draws active)
        (none, 0, st) (inject-kept st r clock draws active h) h

  chaos_for-kept :
      (st : AppState F) (r : Routed F) (clock : Clock) (draws : Draws F)
      (o : Option (ChaosConfig F))
      → I st
      → Calm (chaos_for p st r clock draws o)
  chaos_for-kept st r clock draws none h = h
  chaos_for-kept st r clock draws (some svc_cc) h =
      by_if Calm (settings svc_cc).enabled (inject_active p st r clock draws svc_cc) (none, 0, st)
        (inject_active-kept st r clock draws svc_cc h) h

  pub chaos_block-kept :
      (st : AppState F) (r : Routed F) (clock : Clock) (draws : Draws F)
      → I st
      → I (chaos_block p st r clock draws).2
  unfolding chaos_block
  chaos_block-kept st r clock draws h =
      by_if Calm (is_chaotic p r.mode) (chaos_for p st r clock draws r.chaos) (none, 0, st)
        (chaos_for-kept st r clock draws r.chaos h) h

-- What a property of states and one of tasks have to keep.
pub record IsInvariant {F : Type 0} (p : Platform F) (I : AppState F → Type 0) (T : Task → Type 0)
    : Type 0 where
  pub chaos_kept :
      (st : AppState F) (m : HashMap Text MarkovState) → I st → I (record st { markov_state = m })
  pub mock_kept :
      (st : AppState F) (r : Routed F) (clock : Clock) → I st → I (serve_mock p st r clock).1
  pub learn_kept :
      (st : AppState F) (r : Routed F) (clock : Clock) (status : ℕ) (headers : HashMap Text Text)
      (bytes : Bytes)
      → I st
      → I (record_response p st r clock status headers bytes).0
  pub learn_spawned :
      (st : AppState F) (r : Routed F) (clock : Clock) (status : ℕ) (headers : HashMap Text Text)
      (bytes : Bytes)
      → I st
      → All T (record_response p st r clock status headers bytes).1

module _ {F : Type 0} (p : Platform F) (I : AppState F → Type 0) (T : Task → Type 0)
    (inv : IsInvariant p I T) where
  abbrev pub Kept : Outcome × AppState F × List Task → Type 0
  Kept (outcome, st, tasks) = I st × All T tasks

  learn_from-Kept :
      (st : AppState F) (r : Routed F) (clock : Clock) (sent : Sent)
      → I st
      → Kept (learn_from p st r clock sent)
  learn_from-Kept st r clock refused h = (h, tt)
  learn_from-Kept st r clock broken h = (h, tt)
  learn_from-Kept st r clock (replied status headers bytes) h =
      (inv.learn_kept st r clock status _ bytes h, inv.learn_spawned st r clock status _ bytes h)

  pass_on-Kept : (st : AppState F) (sent : Sent) → I st → Kept (pass_on p st sent)
  pass_on-Kept st refused h = (h, tt)
  pass_on-Kept st broken h = (h, tt)
  pass_on-Kept st (replied status headers bytes) h = (h, tt)

  serve_mock-Kept :
      (st : AppState F) (r : Routed F) (clock : Clock) → I st → Kept (serve_mock p st r clock)
  unfolding serve_mock
  serve_mock-Kept st r clock h = (inv.mock_kept st r clock h, tt)

  dispatch_as-Kept :
      (send : UpstreamRequest → Sent) (st : AppState F) (r : Routed F) (clock : Clock) (m : Mode)
      → I st
      → Kept (dispatch_as p send st r clock m)
  unfolding handle_learn handle_passthrough
  dispatch_as-Kept send st r clock learn h =
      learn_from-Kept st r clock (send (upstream_request p.rules r)) h
  dispatch_as-Kept send st r clock mock h = serve_mock-Kept st r clock h
  dispatch_as-Kept send st r clock passthrough h =
      pass_on-Kept st (send (upstream_request p.rules r)) h
  dispatch_as-Kept send st r clock transitioning h = (h, tt)

  handle_routed-Kept :
      (send : UpstreamRequest → Sent) (st : AppState F) (r : Routed F) (clock : Clock)
      (draws : Draws F)
      → I st
      → Kept (handle_routed p send st r clock draws)
  unfolding handle_routed dispatch
  handle_routed-Kept send st r clock draws h =
      let c = chaos_block p st r clock draws in
      let calm = chaos_block-kept p I inv.chaos_kept st r clock draws h in
      by_option Kept c.0 (dispatch p send c.2 r clock) (λ response. (responded response, c.2, []))
        (dispatch_as-Kept send c.2 r clock r.mode calm) (λ response. (calm, tt))

  pub proxy_handler-Kept :
      (send : UpstreamRequest → Sent) (st : AppState F) (req : Request) (clock : Clock)
      (draws : Draws F)
      → I st
      → Kept (proxy_handler p send st req clock draws)
  unfolding proxy_handler
  proxy_handler-Kept send st req clock draws h =
      by_option Kept req.body (failed 500, st, []) _ (h, tt)
        (λ bytes.
          by_option Kept (resolve_tenant req.headers req.query) (panicked, st, []) _ (h, tt)
            (λ tenant. handle_routed-Kept send st (route p st req bytes tenant) clock draws h))
