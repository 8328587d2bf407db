-- ===== src/Handler/Redaction.antt =====
-- The safety of redaction over whole requests: no value of a header of the floor is stored in the
-- library, nor is it in a line that is given to a log.
use gostly_ai_proxy.Base.{
  ℕ, refl, Option, none, some, List, [], ◌++◌, Text, All, All-append, by_if, by_option,
}
use gostly_ai_proxy.Base.HashMap.{HashMap}
use gostly_ai_proxy.Http.{Bytes}
use gostly_ai_proxy.Types.{MockEntry}
use gostly_ai_proxy.Json.{Json}
use gostly_ai_proxy.Paths.{path_collection_segment}
use gostly_ai_proxy.Library.{service_key}
use gostly_ai_proxy.Library.Every.{Every, publish-Every}
use gostly_ai_proxy.Proxy.{MockState, Reply, served, missed, handle_mock}
use gostly_ai_proxy.Proxy.Preserves.{IsKept, handle_mock-kept}
use gostly_ai_proxy.State.{Platform, AppState, Request, Routed, Clock, Draws, Task}
use gostly_ai_proxy.Upstream.{UpstreamRequest, Sent}
use gostly_ai_proxy.Learn.{
  learned_entry, emit_event, count_learned, log_traffic, publish_learned, traffic_id,
  capture_parsed, capture_under, capture_tasks, record_response,
}
use gostly_ai_proxy.Learn.Redacted.{
  CoversFloor, KeepsFloor, IsRedacted, IsSafe, learned_entry-IsRedacted,
}
use gostly_ai_proxy.Handler.{note_served, serve_mock, proxy_handler}
use gostly_ai_proxy.Handler.Invariant.{IsInvariant, proxy_handler-Kept}

module _ {F : Type 0} (p : Platform F) (keeps : KeepsFloor p.rules.to_lowercase) where
  -- The redaction list has the floor, and every entry is redacted.
  abbrev pub IsConfidential : AppState F → Type 0
  IsConfidential st =
      CoversFloor st.redact_headers × Every (IsRedacted p.rules.to_lowercase) st.mock.library

  abbrev HasRedacted : MockState → Type 0
  HasRedacted m = Every (IsRedacted p.rules.to_lowercase) m.library

  redacted_kept : IsKept HasRedacted
  redacted_kept = record {
    counted = λ st c h. h;
    advanced = λ st now svc collection id action h. h;
    noted = λ st q h. h;
  }

  note_served-IsConfidential :
      (st : AppState F) (r : Routed F) (reply : Reply)
      → IsConfidential st
      → IsConfidential (note_served p st r reply)
  note_served-IsConfidential st r (missed status body) h = h
  note_served-IsConfidential st r (served a) h = by_if IsConfidential _ st _ h h

  serve_mock-IsConfidential :
      (st : AppState F) (r : Routed F) (clock : Clock)
      → IsConfidential st
      → IsConfidential (serve_mock p st r clock).1
  unfolding serve_mock
  serve_mock-IsConfidential st r clock (c, e) =
      let m = handle_mock p.wide p.json st.mock clock.now r.asked in
      let kept =
        handle_mock-kept p.wide p.json HasRedacted redacted_kept st.mock clock.now r.asked e in
      note_served-IsConfidential (record st { mock = m.1 }) r m.0 (c, kept)

  capture_parsed-IsSafe :
      (r : Routed F) (status : ℕ) (headers : HashMap Text Text) (collection : Text)
      (o : Option Json)
      → All (IsSafe p) (capture_parsed p r status headers collection o)
  capture_parsed-IsSafe r status headers collection none = tt
  capture_parsed-IsSafe r status headers collection (some body) = (tt, tt)

  capture_under-IsSafe :
      (r : Routed F) (status : ℕ) (headers : HashMap Text Text) (bytes : Bytes) (o : Option Text)
      → All (IsSafe p) (capture_under p r status headers bytes o)
  capture_under-IsSafe r status headers bytes none = tt
  capture_under-IsSafe r status headers bytes (some collection) =
      capture_parsed-IsSafe r status headers collection (p.parse_bytes bytes)

  capture_tasks-IsSafe :
      (r : Routed F) (status : ℕ) (headers : HashMap Text Text) (bytes : Bytes)
      → All (IsSafe p) (capture_tasks p r status headers bytes)
  unfolding capture_tasks
  capture_tasks-IsSafe r status headers bytes =
      by_if (All (IsSafe p)) _ _ []
        (capture_under-IsSafe r status headers bytes (path_collection_segment r.asked.path_query))
        tt

  -- A step of the recording: its state and its tasks.
  abbrev Discreet : AppState F × List Task → Type 0
  Discreet (st, tasks) = IsConfidential st × All (IsSafe p) tasks

  emit_event-Discreet :
      (st : AppState F) (r : Routed F) (clock : Clock) (status : ℕ)
      → IsConfidential st
      → Discreet (emit_event p st r clock status)
  emit_event-Discreet st r clock status h =
      by_if Discreet st.observability_enabled _ (st, []) (h, (tt, tt)) (h, tt)

  log_traffic-Discreet :
      (st : AppState F) (r : Routed F) (clock : Clock) (entry : MockEntry)
      → IsRedacted p.rules.to_lowercase entry
      → IsConfidential st
      → Discreet (log_traffic p st r clock entry)
  log_traffic-Discreet st r clock entry redacted h =
      by_option Discreet r.asked.resolved_service_id (st, []) _ (h, tt)
        (λ svc. (
          h,
          (
            (
              record entry { id = traffic_id clock.traffic_millis st.entry_counter },
              redacted,
              refl,
            ),
            tt,
          ),
        ))

  record_response-Discreet :
      (st : AppState F) (r : Routed F) (clock : Clock) (status : ℕ) (headers : HashMap Text Text)
      (bytes : Bytes)
      → IsConfidential st
      → Discreet (record_response p st r clock status headers bytes)
  unfolding record_response
  record_response-Discreet st r clock status headers bytes (c, e) =
      let entry = learned_entry p st r clock status headers bytes in
      let redacted = learned_entry-IsRedacted p st r clock status headers bytes c keeps in
      let (st1, event) = emit_event p st r clock status in
      let (h1, s1) = emit_event-Discreet st r clock status (c, e) in
      let st2 = count_learned p st1 r clock in
      let (st3, traffic) = log_traffic p st2 r clock entry in
      let ((c3, e3), s3) = log_traffic-Discreet st2 r clock entry redacted h1 in
      let line = (publish_learned p st3 r entry).1 in
      let captures = capture_tasks p r status headers bytes in
      let safe_line : All (IsSafe p) line = ((entry, redacted, refl), tt) in
      (
        (
          c3,
          publish-Every (IsRedacted p.rules.to_lowercase) (service_key r.asked.resolved_service_id)
              entry st3.mock.library redacted e3,
        ),
        All-append (IsSafe p) (event ++ traffic ++ line) captures
            (All-append (IsSafe p) (event ++ traffic) line
              (All-append (IsSafe p) event traffic s1 s3) safe_line)
            (capture_tasks-IsSafe r status headers bytes),
      )

  IsConfidential-kept : IsInvariant p IsConfidential (IsSafe p)
  IsConfidential-kept = record {
    chaos_kept = λ st m h. h;
    mock_kept = serve_mock-IsConfidential;
    learn_kept = λ st r clock status headers bytes h.
        (record_response-Discreet st r clock status headers bytes h).0;
    learn_spawned = λ st r clock status headers bytes h.
        (record_response-Discreet st r clock status headers bytes h).1;
  }

  -- No request makes the proxy keep a secret of a response. Where the redaction list covers the
  -- floor, `to_lowercase` leaves the floor's names alone and every entry of the library has the
  -- marker in place of each value of a header of the floor, in whatever case its name is, so has
  -- every entry after the request, and so has the entry of every line that the request gives to the
  -- mock log and to the traffic log. The redaction list covers the floor still.
  pub proxy_handler-IsConfidential :
      (send : UpstreamRequest → Sent) (st : AppState F) (req : Request) (clock : Clock)
      (draws : Draws F)
      → IsConfidential st
      → IsConfidential (proxy_handler p send st req clock draws).1
        × All (IsSafe p) (proxy_handler p send st req clock draws).2
  proxy_handler-IsConfidential send st req clock draws h =
      proxy_handler-Kept p IsConfidential (IsSafe p) IsConfidential-kept send st req clock draws h
