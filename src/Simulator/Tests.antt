-- ===== src/Simulator/Tests.antt =====
-- The options of src/promiseguard/simulator.py for a concrete order.
use promiseguard_ai.Models.{OrderContext}
use promiseguard_ai.Examples.{order_at_risk}

-- Amounts with a part of a cent: a margin of 10.005 and a reroute for 3.0049.
abbrev order_below_cent : OrderContext
order_below_cent = record order_at_risk {
  gross_margin = record { digits = 10005; places = 3 };
  reroute_cost = record { digits = 30049; places = 4 };
}
