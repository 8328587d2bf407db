-- ===== src/Learn/TrafficLines.antt =====
-- The lines that recordings give to the traffic log (src/main.rs), and its counter.
use gostly_ai_proxy.Base.{ℕ, ◌≡◌, refl, [], ◌∷◌, ◌++◌, Text}
use mathlib.Core.List.{append-nil}
use gostly_ai_proxy.Base.{
  ◌+◌, ◌%◌, ◌^◌, ◌&&◌, ◌||◌, ◌∙◌, ap, text_eq, ◌==◌, codes, leb, ltb, Option, none, some, List, map,
  by_if,
}
use gostly_ai_proxy.Base.HashMap.{HashMap}
use gostly_ai_proxy.Http.{Bytes}
use gostly_ai_proxy.Json.{Json}
use gostly_ai_proxy.Types.{MockEntry}
use gostly_ai_proxy.Paths.{path_collection_segment}
use gostly_ai_proxy.State.{
  Platform, AppState, Routed, Clock, Task, append_to_mock_log, append_to_traffic_log,
  append_wide_event, capture,
}
use gostly_ai_proxy.Learn.{
  traffic_id, learned_entry, emit_event, count_learned, log_traffic, publish_learned,
  capture_parsed, capture_under, capture_tasks, record_response, line_of,
}

-- The lines that the tasks give to the traffic log, in their order.
abbrev pub traffic_lines : List Task → List Text
traffic_lines [] = []
traffic_lines (append_to_traffic_log svc line ∷ ts) = line ∷ traffic_lines ts
traffic_lines (append_to_mock_log svc line ∷ ts) = traffic_lines ts
traffic_lines (append_wide_event event ∷ ts) = traffic_lines ts
traffic_lines (capture svc collection body content_type status ∷ ts) = traffic_lines ts

pub traffic_lines-append :
    (ts us : List Task) → traffic_lines (ts ++ us) ≡ traffic_lines ts ++ traffic_lines us
traffic_lines-append [] us = refl
traffic_lines-append (append_to_traffic_log svc line ∷ ts) us =
    ap (λ (ls : List Text). line ∷ ls) (traffic_lines-append ts us)
traffic_lines-append (append_to_mock_log svc line ∷ ts) us = traffic_lines-append ts us
traffic_lines-append (append_wide_event event ∷ ts) us = traffic_lines-append ts us
traffic_lines-append (capture svc collection body content_type status ∷ ts) us =
    traffic_lines-append ts us

-- A response of an upstream that is recorded, with its request and the time.
pub record Recording (F : Type 0) : Type 0 where
  pub routed : Routed F
  pub clock : Clock
  pub status : ℕ
  pub headers : HashMap Text Text
  pub bytes : Bytes

module _ {F : Type 0} (p : Platform F) where
  abbrev pub recorded : AppState F → Recording F → AppState F × List Task
  recorded st x = record_response p st x.routed x.clock x.status x.headers x.bytes

  -- What is spawned by recordings, one after another.
  abbrev pub record_all : AppState F → List (Recording F) → List Task
  record_all st [] = []
  record_all st (x ∷ xs) = (recorded st x).1 ++ record_all (recorded st x).0 xs

  -- The entry whose line goes to the traffic log, and the counter after it.
  abbrev pub logged_at : Clock → ℕ → MockEntry → Option Text → List MockEntry
  logged_at clock c entry none = []
  logged_at clock c entry (some svc) = record entry { id = traffic_id clock.traffic_millis c } ∷ []

  abbrev pub logged : AppState F → Recording F → Option Text → List MockEntry
  logged st x o =
      logged_at x.clock st.entry_counter
        (learned_entry p st x.routed x.clock x.status x.headers x.bytes) o

  abbrev pub counted : ℕ → Option Text → ℕ
  counted c none = c
  counted c (some svc) = (c + 1) % 2 ^ 64

  lines-log_traffic :
      (st : AppState F) (r : Routed F) (clock : Clock) (entry : MockEntry) (o : Option Text)
      → r.asked.resolved_service_id ≡ o
      → traffic_lines (log_traffic p st r clock entry).1
        ≡ map (line_of p) (logged_at clock st.entry_counter entry o)
  lines-log_traffic st r clock entry none at = rw at refl
  lines-log_traffic st r clock entry (some svc) at = rw at refl

  counter-log_traffic :
      (st : AppState F) (r : Routed F) (clock : Clock) (entry : MockEntry) (o : Option Text)
      → r.asked.resolved_service_id ≡ o
      → (log_traffic p st r clock entry).0.entry_counter ≡ counted st.entry_counter o
  counter-log_traffic st r clock entry none at = rw at refl
  counter-log_traffic st r clock entry (some svc) at = rw at refl

  captures_only :
      (r : Routed F) (status : ℕ) (headers : HashMap Text Text) (bytes : Bytes)
      → traffic_lines (capture_tasks p r status headers bytes) ≡ []
  unfolding capture_tasks
  captures_only r status headers bytes =
      by_if (λ (ts : List Task). traffic_lines ts ≡ [])
        ((r.asked.method == codes "POST" || r.asked.method == codes "PUT")
          && leb 200 status
          && ltb status 300)
        (capture_under p r status headers bytes (path_collection_segment r.asked.path_query)) []
        (under (path_collection_segment r.asked.path_query)) refl
    where
      parsed :
          (collection : Text) (o : Option Json)
          → traffic_lines (capture_parsed p r status headers collection o) ≡ []
      parsed collection none = refl
      parsed collection (some body) = refl

      under : (o : Option Text) → traffic_lines (capture_under p r status headers bytes o) ≡ []
      under none = refl
      under (some collection) = parsed collection (p.parse_bytes bytes)

  counter-emit_event :
      (st : AppState F) (x : Recording F)
      → (emit_event p st x.routed x.clock x.status).0.entry_counter ≡ st.entry_counter
  counter-emit_event st x =
      by_if (λ (y : AppState F × List Task). y.0.entry_counter ≡ st.entry_counter)
        st.observability_enabled _ (st, []) refl refl

  no_traffic-emit_event :
      (st : AppState F) (x : Recording F)
      → traffic_lines (emit_event p st x.routed x.clock x.status).1 ≡ []
  no_traffic-emit_event st x =
      by_if (λ (y : AppState F × List Task). traffic_lines y.1 ≡ []) st.observability_enabled _
        (st, []) refl refl

  -- Of the tasks of a recording, those of `log_traffic` alone give lines to the traffic log.
  second_alone :
      (a b c d : List Task)
      → traffic_lines a ≡ []
      → traffic_lines c ≡ []
      → traffic_lines d ≡ []
      → traffic_lines (a ++ b ++ c ++ d) ≡ traffic_lines b
  second_alone a b c d ha hc hd =
      traffic_lines-append (a ++ b ++ c) d
      ∙ ap (λ (ls : List Text). traffic_lines (a ++ b ++ c) ++ ls) hd
      ∙ append-nil (traffic_lines (a ++ b ++ c))
      ∙ traffic_lines-append (a ++ b) c
      ∙ ap (λ (ls : List Text). traffic_lines (a ++ b) ++ ls) hc
      ∙ append-nil (traffic_lines (a ++ b))
      ∙ traffic_lines-append a b
      ∙ ap (λ (ls : List Text). ls ++ traffic_lines b) ha

  pub lines-recorded :
      (st : AppState F) (x : Recording F) (o : Option Text)
      → x.routed.asked.resolved_service_id ≡ o
      → traffic_lines (recorded st x).1 ≡ map (line_of p) (logged st x o)
  unfolding record_response
  lines-recorded st x o at =
      let entry = learned_entry p st x.routed x.clock x.status x.headers x.bytes in
      let (st1, event) = emit_event p st x.routed x.clock x.status in
      let st2 = count_learned p st1 x.routed x.clock in
      let (st3, traffic) = log_traffic p st2 x.routed x.clock entry in
      second_alone event traffic (publish_learned p st3 x.routed entry).1
        (capture_tasks p x.routed x.status x.headers x.bytes) (no_traffic-emit_event st x) refl
        (captures_only x.routed x.status x.headers x.bytes)
      ∙ lines-log_traffic st2 x.routed x.clock entry o at
      ∙ ap (λ (c : ℕ). map (line_of p) (logged_at x.clock c entry o)) (counter-emit_event st x)

  pub counter-recorded :
      (st : AppState F) (x : Recording F) (o : Option Text)
      → x.routed.asked.resolved_service_id ≡ o
      → (recorded st x).0.entry_counter ≡ counted st.entry_counter o
  unfolding record_response
  counter-recorded st x o at =
      let st1 = (emit_event p st x.routed x.clock x.status).0 in
      counter-log_traffic (count_learned p st1 x.routed x.clock) x.routed x.clock
        (learned_entry p st x.routed x.clock x.status x.headers x.bytes) o at
      ∙ ap (λ (c : ℕ). counted c o) (counter-emit_event st x)
