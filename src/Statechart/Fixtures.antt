-- ===== src/Statechart/Fixtures.antt =====
-- The five bundled fixtures (src/statecharts/*.json), as the values that their JSON spells.
use gostly_ai_proxy.Base.{Option, some, List, [], ◌∷◌, Text, text_eq, codes}
use gostly_ai_proxy.Statechart.{StateMachine, StatechartRegistry, with_fixtures}

unfoldable pub charge : StateMachine
charge = record {
  id = codes "charge";
  initial = codes "created";
  status_field = codes "status";
  states =
      (
        codes "created",
        record {
          transitions = (codes "capture", codes "captured") ∷ (codes "void", codes "voided") ∷ [];
        },
      )
      ∷ (codes "captured", record { transitions = (codes "refund", codes "refunded") ∷ [] })
      ∷ (codes "refunded", record { transitions = [] })
      ∷ (codes "voided", record { transitions = [] })
      ∷ [];
}

unfoldable pub customer : StateMachine
customer = record {
  id = codes "customer";
  initial = codes "active";
  status_field = codes "status";
  states =
      (
        codes "active",
        record {
          transitions =
              (codes "suspend", codes "suspended") ∷ (codes "delete", codes "deleted") ∷ [];
        },
      )
      ∷ (
        codes "suspended",
        record {
          transitions =
              (codes "reactivate", codes "active") ∷ (codes "delete", codes "deleted") ∷ [];
        },
      )
      ∷ (codes "deleted", record { transitions = [] })
      ∷ [];
}

unfoldable pub invoice : StateMachine
invoice = record {
  id = codes "invoice";
  initial = codes "draft";
  status_field = codes "status";
  states =
      (
        codes "draft",
        record {
          transitions = (codes "finalize", codes "open") ∷ (codes "void", codes "voided") ∷ [];
        },
      )
      ∷ (
        codes "open",
        record {
          transitions =
              (codes "pay", codes "paid")
              ∷ (codes "void", codes "voided")
              ∷ (codes "uncollectible", codes "uncollectible")
              ∷ [];
        },
      )
      ∷ (codes "paid", record { transitions = (codes "refund", codes "refunded") ∷ [] })
      ∷ (codes "refunded", record { transitions = [] })
      ∷ (codes "voided", record { transitions = [] })
      ∷ (
        codes "uncollectible",
        record { transitions = (codes "pay", codes "paid") ∷ (codes "void", codes "voided") ∷ [] },
      )
      ∷ [];
}

unfoldable pub order : StateMachine
order = record {
  id = codes "order";
  initial = codes "pending";
  status_field = codes "status";
  states =
      (
        codes "pending",
        record {
          transitions = (codes "pay", codes "paid") ∷ (codes "cancel", codes "cancelled") ∷ [];
        },
      )
      ∷ (
        codes "paid",
        record {
          transitions = (codes "ship", codes "shipped") ∷ (codes "refund", codes "refunded") ∷ [];
        },
      )
      ∷ (
        codes "shipped",
        record {
          transitions =
              (codes "deliver", codes "delivered") ∷ (codes "return", codes "returned") ∷ [];
        },
      )
      ∷ (codes "delivered", record { transitions = (codes "return", codes "returned") ∷ [] })
      ∷ (codes "returned", record { transitions = (codes "refund", codes "refunded") ∷ [] })
      ∷ (codes "refunded", record { transitions = [] })
      ∷ (codes "cancelled", record { transitions = [] })
      ∷ [];
}

unfoldable pub subscription : StateMachine
subscription = record {
  id = codes "subscription";
  initial = codes "trialing";
  status_field = codes "status";
  states =
      (
        codes "trialing",
        record {
          transitions =
              (codes "activate", codes "active") ∷ (codes "cancel", codes "cancelled") ∷ [];
        },
      )
      ∷ (
        codes "active",
        record {
          transitions = (codes "pause", codes "paused") ∷ (codes "cancel", codes "cancelled") ∷ [];
        },
      )
      ∷ (
        codes "paused",
        record {
          transitions = (codes "resume", codes "active") ∷ (codes "cancel", codes "cancelled") ∷ [];
        },
      )
      ∷ (codes "cancelled", record { transitions = [] })
      ∷ [];
}

-- `BUNDLED_FIXTURES`.
unfoldable pub bundled_fixtures : List (Text × Option StateMachine)
unfolding charge customer invoice order subscription
bundled_fixtures =
    (codes "charge", some charge)
    ∷ (codes "customer", some customer)
    ∷ (codes "invoice", some invoice)
    ∷ (codes "order", some order)
    ∷ (codes "subscription", some subscription)
    ∷ []

unfoldable pub with_bundled_fixtures : StatechartRegistry
unfolding with_fixtures bundled_fixtures
with_bundled_fixtures = with_fixtures bundled_fixtures
