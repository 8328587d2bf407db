-- ===== src/Handler/Effect.antt =====
-- What a request does to the library, and what its client is sent.
use mathlib.Core.Path.{subst}
use gostly_ai_proxy.Library.{MockLibrary}
use gostly_ai_proxy.Proxy.{MockState, Reply, served, missed, handle_mock}
use gostly_ai_proxy.Proxy.Preserves.{handle_mock-kept}
use gostly_ai_proxy.Http.{Bytes}
use gostly_ai_proxy.Base.{
  Text, ℕ, ◌≡◌, refl, ap, ◌∙◌, Option, List, [], by_option, by_if, ◌==◌, text_eq, codes,
}
use gostly_ai_proxy.Types.{Mode, learn, mock, passthrough, transitioning}
use gostly_ai_proxy.State.{Platform, AppState, Routed, Clock, Draws, Task}
use gostly_ai_proxy.Response.{Response, Outcome, responded, failed, build_response}
use gostly_ai_proxy.Upstream.{
  UpstreamRequest, Sent, refused, broken, replied, upstream_request, collect_headers,
}
use gostly_ai_proxy.Learn.{learn_from, handle_learn, pass_on, handle_passthrough}
use gostly_ai_proxy.Handler.{
  chaos_block, note_served, serve_mock, dispatch_as, dispatch, handle_routed,
}
use gostly_ai_proxy.Handler.Branches.{chaos_block-markov}

-- The modes that ask the upstream.
pub data AsksUpstream : Mode → Type 0 where
  learning : AsksUpstream learn
  passing : AsksUpstream passthrough

-- The call was refused, or the body of its response broke off.
pub data IsFailure : Sent → Type 0 where
  was_refused : IsFailure refused
  was_broken : IsFailure broken

module _ {F : Type 0} (p : Platform F) where
  -- What a request does to the library, by its outcome. A response that records nothing, a call that
  -- failed, and a recording, of which the client is sent the upstream's own response.
  pub data Effect (library : MockLibrary) (send : UpstreamRequest → Sent) (r : Routed F)
      : Outcome × AppState F × List Task → Type 0 where
    answered :
        (response : Response) (st' : AppState F)
        → st'.mock.library ≡ library
        → Effect library send r (responded response, st', [])
    upstream_failed :
        (st' : AppState F)
        → AsksUpstream r.mode
        → IsFailure (send (upstream_request p.rules r))
        → st'.mock.library ≡ library
        → Effect library send r (failed 502, st', [])
    recorded :
        (status : ℕ) (headers : List (Text × Option Text)) (bytes : Bytes) (st' : AppState F)
        (tasks : List Task)
        → r.mode ≡ learn
        → send (upstream_request p.rules r) ≡ replied status headers bytes
        → Effect library send r (
          responded (build_response p.rules status (collect_headers [] headers) bytes),
          st',
          tasks,
        )

  learn_from-Effect :
      (send : UpstreamRequest → Sent) (st : AppState F) (r : Routed F) (clock : Clock) (sent : Sent)
      → r.mode ≡ learn
      → send (upstream_request p.rules r) ≡ sent
      → Effect st.mock.library send r (learn_from p st r clock sent)
  learn_from-Effect send st r clock refused mode asked =
      upstream_failed st (rw mode learning) (rw asked was_refused) refl
  learn_from-Effect send st r clock broken mode asked =
      upstream_failed st (rw mode learning) (rw asked was_broken) refl
  learn_from-Effect send st r clock (replied status headers bytes) mode asked =
      recorded status headers bytes _ _ mode asked

  pass_on-Effect :
      (send : UpstreamRequest → Sent) (st : AppState F) (r : Routed F) (sent : Sent)
      → r.mode ≡ passthrough
      → send (upstream_request p.rules r) ≡ sent
      → Effect st.mock.library send r (pass_on p st sent)
  pass_on-Effect send st r refused mode asked =
      upstream_failed st (rw mode passing) (rw asked was_refused) refl
  pass_on-Effect send st r broken mode asked =
      upstream_failed st (rw mode passing) (rw asked was_broken) refl
  pass_on-Effect send st r (replied status headers bytes) mode asked = answered _ st refl

  note_served-library :
      (st : AppState F) (r : Routed F) (reply : Reply)
      → (note_served p st r reply).mock.library ≡ st.mock.library
  note_served-library st r (missed status body) = refl
  note_served-library st r (served a) =
      by_if (λ (s : AppState F). s.mock.library ≡ st.mock.library)
        (a.extra_key == codes "X-Ghost-Transition") st _ refl refl

  serve_mock-library :
      (st : AppState F) (r : Routed F) (clock : Clock)
      → (serve_mock p st r clock).1.mock.library ≡ st.mock.library
  unfolding serve_mock
  serve_mock-library st r clock =
      let (reply, m) = handle_mock p.wide p.json st.mock clock.now r.asked in
      note_served-library (record st { mock = m }) r reply
      ∙ handle_mock-kept p.wide p.json (λ (s : MockState). s.library ≡ st.mock.library)
          (record {
            counted = λ s c h. h;
            advanced = λ s now svc collection id action h. h;
            noted = λ s q h. h;
          })
          st.mock clock.now r.asked refl

  dispatch_as-Effect :
      (send : UpstreamRequest → Sent) (st : AppState F) (r : Routed F) (clock : Clock) (m : Mode)
      → r.mode ≡ m
      → Effect st.mock.library send r (dispatch_as p send st r clock m)
  unfolding handle_learn handle_passthrough serve_mock
  dispatch_as-Effect send st r clock learn mode =
      learn_from-Effect send st r clock (send (upstream_request p.rules r)) mode refl
  dispatch_as-Effect send st r clock passthrough mode =
      pass_on-Effect send st r (send (upstream_request p.rules r)) mode refl
  dispatch_as-Effect send st r clock mock mode = answered _ _ (serve_mock-library st r clock)
  dispatch_as-Effect send st r clock transitioning mode = answered _ st refl

  -- Nothing is recorded of a request but by LEARN mode, from a response of the upstream that is sent
  -- on to the client. Every request, whatever its mode, the upstream and chaos, either is answered,
  -- spawns nothing and leaves the library as it was; or asked an upstream that failed, in LEARN or
  -- PASSTHROUGH mode, gives 502, spawns nothing and leaves the library as it was; or is in LEARN
  -- mode, the upstream replied, and the client is sent that reply.
  pub handle_routed-Effect :
      (send : UpstreamRequest → Sent) (st : AppState F) (r : Routed F) (clock : Clock)
      (draws : Draws F)
      → Effect st.mock.library send r (handle_routed p send st r clock draws)
  unfolding handle_routed dispatch
  handle_routed-Effect send st r clock draws =
      let c = chaos_block p st r clock draws in
      let same : c.2.mock.library ≡ st.mock.library =
        ap (λ (s : AppState F). s.mock.library) (chaos_block-markov p st r clock draws) in
      by_option (Effect st.mock.library send r) c.0 (dispatch p send c.2 r clock)
        (λ response. (responded response, c.2, []))
        (subst (λ (l : MockLibrary). Effect l send r (dispatch p send c.2 r clock)) same
          (dispatch_as-Effect send c.2 r clock r.mode refl))
        (λ response. answered response c.2 same)
