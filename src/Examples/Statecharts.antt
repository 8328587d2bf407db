-- ===== src/Examples/Statecharts.antt =====
-- The statechart theorems at the bundled charge machine.
use gostly_ai_proxy.Base.{◌≡◌, refl, true, some, codes, text_eq, list_beq}
use gostly_ai_proxy.Base.HashMap
use gostly_ai_proxy.Statechart.{has_state, apply, get, with_fixtures}
use gostly_ai_proxy.Statechart.Fixtures.{charge, bundled_fixtures, with_bundled_fixtures}
use gostly_ai_proxy.Statechart.Reach.{Reach, start, step, with_bundled_fixtures-Reach}

charge_found : get (with_fixtures bundled_fixtures) (codes "charge") ≡ some charge
unfolding get with_fixtures bundled_fixtures HashMap.get list_beq HashMap.insert
charge_found = refl

bundled_charge : get with_bundled_fixtures (codes "charge") ≡ some charge
unfolding get with_bundled_fixtures with_fixtures bundled_fixtures HashMap.get list_beq
    HashMap.insert
bundled_charge = refl

captured : apply charge (codes "created") (codes "capture") ≡ some (codes "captured")
unfolding apply charge HashMap.get list_beq
captured = refl

refunded : apply charge (codes "captured") (codes "refund") ≡ some (codes "refunded")
unfolding apply charge HashMap.get list_beq
refunded = refl

to_refunded : Reach charge charge.initial (codes "refunded")
unfolding charge
to_refunded = step (codes "refund") (step (codes "capture") start captured) refunded

with_bundled_fixtures-Reach_example : has_state charge (codes "refunded") ≡ true
with_bundled_fixtures-Reach_example =
    with_bundled_fixtures-Reach (codes "charge") charge (codes "refunded") bundled_charge
      to_refunded
