-- ===== src/Handlers/Children.antt =====
-- `enqueue_from_child`
use vmcp_operator.Base.{Option, none, some}
use vmcp_operator.Base.Exec.{Exec, pure, lift, ◌>>=◌}
use vmcp_operator.Json.{Fields}
use vmcp_operator.Models.Gateway.{GatewayKey}
use vmcp_operator.Enqueue.{should_enqueue_child}
use vmcp_operator.Handlers.Runtime.{Operator, enqueue}

module _ {S : Type 0} where
  unfoldable pub enqueue_key : Option GatewayKey → Exec (Operator S) (Unit {0})
  unfolding enqueue
  enqueue_key none = pure tt
  enqueue_key (some key) = enqueue key

  -- `enqueue_from_child`
  unfoldable pub enqueue_from_child : Fields → Exec (Operator S) (Unit {0})
  unfolding enqueue_key should_enqueue_child
  enqueue_from_child body = lift (should_enqueue_child body) >>= enqueue_key
