-- ===== src/Handler/Branches.antt =====
-- What each mode does with the upstream and with the state, over all of the handler after routing.
use gostly_ai_proxy.Base.{
  ℕ, ◌≡◌, refl, ap, ◌∙◌, false, Option, none, some, List, [], by_option, text_eq,
}
use gostly_ai_proxy.Types.{Mode, learn, mock, passthrough, transitioning}
use gostly_ai_proxy.State.{Platform, AppState, Routed, Clock, Draws, Task}
use gostly_ai_proxy.Response.{Response, Outcome, responded}
use gostly_ai_proxy.Upstream.{UpstreamRequest, Sent, refused, broken, replied, upstream_request}
use gostly_ai_proxy.Learn.{pass_on, handle_passthrough}
use gostly_ai_proxy.Handler.Invariant.{chaos_block-kept}
use gostly_ai_proxy.Handler.{is_chaotic, chaos_block, dispatch_as, dispatch, handle_routed}

-- The modes that do not ask the upstream.
pub data IsLocal : Mode → Type 0 where
  mocking : IsLocal mock
  waiting : IsLocal transitioning

-- The modes that only pass on what they are given.
pub data IsTransparent : Mode → Type 0 where
  passes : IsTransparent passthrough
  waits : IsTransparent transitioning

-- The modes in which chaos is off.
pub data IsSteady : Mode → Type 0 where
  learns : IsSteady learn
  waits_steady : IsSteady transitioning

module _ {F : Type 0} (p : Platform F) where
  -- After the block of chaos: the branch of the mode, where nothing was injected.
  pub calm :
      (send : UpstreamRequest → Sent) (st : AppState F) (r : Routed F) (clock : Clock)
      (draws : Draws F)
      → (chaos_block p st r clock draws).0 ≡ none
      → handle_routed p send st r clock draws
        ≡ dispatch_as p send (chaos_block p st r clock draws).2 r clock r.mode
  unfolding handle_routed dispatch
  calm send st r clock draws h = rw (h, handle_routed) refl

  local_dispatch :
      (send send' : UpstreamRequest → Sent) (st : AppState F) (r : Routed F) (clock : Clock)
      (m : Mode)
      → IsLocal m
      → dispatch_as p send st r clock m ≡ dispatch_as p send' st r clock m
  local_dispatch send send' st r clock mock mocking = refl
  local_dispatch send send' st r clock transitioning waiting = refl
  local_dispatch send send' st r clock learn local = elim local [ ]
  local_dispatch send send' st r clock passthrough local = elim local [ ]

  -- MOCK mode and the time of transition never depend on an upstream: with any other upstream in its
  -- place, the response, the state and the tasks are the same.
  pub handle_routed-local :
      (send send' : UpstreamRequest → Sent) (st : AppState F) (r : Routed F) (clock : Clock)
      (draws : Draws F)
      → IsLocal r.mode
      → handle_routed p send st r clock draws ≡ handle_routed p send' st r clock draws
  unfolding handle_routed dispatch
  handle_routed-local send send' st r clock draws local =
      let c = chaos_block p st r clock draws in
      ap
        (λ (x : Outcome × AppState F × List Task). elim c.0 [
          | none ↦ x
          | some response ↦ (responded response, c.2, [])
        ])
        (local_dispatch send send' c.2 r clock r.mode local)

  pass_on-untouched :
      (st : AppState F) (sent : Sent) → ((pass_on p st sent).1 ≡ st) × ((pass_on p st sent).2 ≡ [])
  pass_on-untouched st refused = (refl, refl)
  pass_on-untouched st broken = (refl, refl)
  pass_on-untouched st (replied status headers bytes) = (refl, refl)

  dispatch_as-untouched :
      (send : UpstreamRequest → Sent) (st : AppState F) (r : Routed F) (clock : Clock) (m : Mode)
      → IsTransparent m
      → ((dispatch_as p send st r clock m).1 ≡ st) × ((dispatch_as p send st r clock m).2 ≡ [])
  unfolding handle_passthrough
  dispatch_as-untouched send st r clock passthrough passes =
      pass_on-untouched st (send (upstream_request p.rules r))
  dispatch_as-untouched send st r clock transitioning waits = (refl, refl)
  dispatch_as-untouched send st r clock learn h = elim h [ ]
  dispatch_as-untouched send st r clock mock h = elim h [ ]

  -- The block of chaos writes the Markov states alone.
  abbrev pub DiffersInMarkov : AppState F → AppState F → Type 0
  DiffersInMarkov st st' = record st' { markov_state = st.markov_state } ≡ st

  pub chaos_block-markov :
      (st : AppState F) (r : Routed F) (clock : Clock) (draws : Draws F)
      → DiffersInMarkov st (chaos_block p st r clock draws).2
  chaos_block-markov st r clock draws =
      chaos_block-kept p (DiffersInMarkov st) (λ st' m h. h) st r clock draws refl

  -- PASSTHROUGH mode and the time of transition record nothing: whatever the upstream and chaos do,
  -- no task is spawned, and the state is as it was but for the Markov states of chaos.
  pub handle_routed-untouched :
      (send : UpstreamRequest → Sent) (st : AppState F) (r : Routed F) (clock : Clock)
      (draws : Draws F)
      → IsTransparent r.mode
      → DiffersInMarkov st (handle_routed p send st r clock draws).1
        × ((handle_routed p send st r clock draws).2 ≡ [])
  unfolding handle_routed dispatch
  handle_routed-untouched send st r clock draws transparent =
      let c = chaos_block p st r clock draws in
      let (same, none_spawned) = dispatch_as-untouched send c.2 r clock r.mode transparent in
      let calm = chaos_block-markov st r clock draws in
      by_option (λ (x : Outcome × AppState F × List Task). DiffersInMarkov st x.1 × (x.2 ≡ [])) c.0
        (dispatch p send c.2 r clock) (λ response. (responded response, c.2, []))
        (
          ap (λ (s : AppState F). record s { markov_state = st.markov_state }) same ∙ calm,
          none_spawned,
        )
        (λ response. (calm, refl))

  steady_block :
      (st : AppState F) (r : Routed F) (clock : Clock) (draws : Draws F)
      → is_chaotic p r.mode ≡ false
      → chaos_block p st r clock draws ≡ (none, 0, st)
  unfolding chaos_block
  steady_block st r clock draws h = rw (h, chaos_block) refl

  not_chaotic : (m : Mode) → IsSteady m → is_chaotic p m ≡ false
  not_chaotic learn learns = refl
  not_chaotic transitioning waits_steady = refl
  not_chaotic mock h = elim h [ ]
  not_chaotic passthrough h = elim h [ ]

  -- A recording is never disturbed by chaos: in LEARN mode, and while transitioning, the request is
  -- answered by its branch, whatever the configuration of chaos and the random draws are.
  pub handle_routed-steady :
      (send : UpstreamRequest → Sent) (st : AppState F) (r : Routed F) (clock : Clock)
      (draws : Draws F)
      → IsSteady r.mode
      → handle_routed p send st r clock draws ≡ dispatch p send st r clock
  unfolding handle_routed
  handle_routed-steady send st r clock draws steady =
      ap
        (λ (c : Option Response × ℕ × AppState F). elim c.0 [
          | none ↦ dispatch p send c.2 r clock
          | some response ↦ (responded response, c.2, [])
        ])
        (steady_block st r clock draws (not_chaotic r.mode steady))
