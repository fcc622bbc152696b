-- ===== src/Node/Nodes.antt =====
-- module.go: the nodes that the scheduler asks for.
use marstack_cloud.Common.{
  ℕ, ◌-◌, String, Bool, true, false, not, ◌&&◌, List, [], ◌∷◌, leb, keep_if, pure, ◌>>=◌, ask_at,
}
use marstack_cloud.Fault.{ok}
use marstack_cloud.Node.Rows.{Node, Status, Device, Env, M, status_at}
use marstack_cloud.Node.Service.{list_nodes, set_draining}
use marstack_cloud.Node.Devices.{devices_of_instance}

-- `n.StatusAt(now) == StatusReady`
unfoldable pub is_ready : Node → ℕ → Bool
is_ready n now = elim (status_at n now) [ Status.ready ↦ true | Status.unreachable ↦ false ]

-- A node that is not ready was seen at an earlier time, so that the difference is not negative.
unfoldable pub nodes_unreachable_for : Env → ℕ → M (List Node)
nodes_unreachable_for env grace = do
  nodes ← list_nodes env
  now ← ask_at (λ n. ok (env.now n))
  pure (keep_if (λ n. not (is_ready n now) && leb grace (now - n.last_seen_at)) nodes)

unfoldable pub ready_nodes : Env → M (List Node)
ready_nodes env = do
  nodes ← list_nodes env
  now ← ask_at (λ n. ok (env.now n))
  pure (keep_if (λ n. is_ready n now && n.schedulable) nodes)

unfoldable pub draining_nodes : Env → M (List Node)
draining_nodes env = do nodes ← list_nodes env; pure (keep_if (λ n. n.draining) nodes)

unfoldable pub finish_draining : Env → String → M Unit
finish_draining env node_id = set_draining env node_id false

abbrev first_address : List Device → String
first_address [] = ""
first_address (d ∷ held) = d.address

unfoldable pub address_of : Env → String → M String
address_of env instance_id = do
  held ← devices_of_instance env instance_id
  pure (first_address held)
