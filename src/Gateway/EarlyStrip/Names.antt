-- ===== src/Gateway/EarlyStrip/Names.antt =====
-- The names of the policies.
use vmcp_operator.Base.{String, ◌<>◌, true, Option, none, some, ◌≡◌, truthy}
use vmcp_operator.Gateway.EarlyStrip.{listener_policy_name}

-- Two parents whose names differ can get one and the same policy name: a listener `b` of the
-- Gateway `a`, and the Gateway `a-b`.
pub listener_policy_name_collision :
    (gateway a b : String) (i j : Option String)
    → truthy b ≡ true
    → listener_policy_name gateway (record { name = a; namespace = i; section_name = some b })
      ≡ listener_policy_name gateway
          (record { name = a <> ("-" <> b); namespace = j; section_name = none })
unfolding listener_policy_name
listener_policy_name_collision gateway a b i j t = rw t
