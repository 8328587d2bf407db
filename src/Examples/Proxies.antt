-- ===== src/Examples/Proxies.antt =====
-- The theorems of MOCK mode at a published order.
use gostly_ai_proxy.Base.{ℕ, Bool, true, false, none, some, [], codes, text_eq}
use gostly_ai_proxy.Types.{MockEntry, global_tenant}
use gostly_ai_proxy.Library.{empty_library}
use gostly_ai_proxy.Statechart.Fixtures.{with_bundled_fixtures}
use gostly_ai_proxy.ResourceStore.{new}
use gostly_ai_proxy.Swap.{JsonSerde}
use gostly_ai_proxy.Proxy.{MockState, handle_mock}
use gostly_ai_proxy.Proxy.Replay.{query_of, Noted, handle_mock-Noted}

abbrev no_wide : ℕ → Bool
no_wide c = false

abbrev no_json : JsonSerde
no_json = record { parse = λ t. none; print = λ v. none }

abbrev state : MockState
state = record {
  library = empty_library;
  sequences = [];
  sequence_counters = [];
  resource_store = new [] (some with_bundled_fixtures);
  unmatched = [];
  runtime_config = record { unmatched_status = 404; unmatched_body = codes "{}" };
  smart_swap_enabled = true;
}

abbrev order : MockEntry
order = record {
  id = codes "e1";
  timestamp = codes "now";
  request = record { method = codes "GET"; uri = codes "/orders/17"; body = [] };
  response = record { status = 200; headers = []; body = codes "ok"; latency_ms = 1 };
  service_id = none;
  tenant = global_tenant;
  workload_class = codes "human";
}

handle_mock-Noted_example :
    Noted no_wide no_json state
      (query_of order)
      (handle_mock no_wide no_json state 5 (query_of order))
handle_mock-Noted_example = handle_mock-Noted no_wide no_json state 5 (query_of order)
