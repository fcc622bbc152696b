-- ===== src/Events.antt =====
-- internal/kernel/events: what a component notes for the operators.
use Prim.Native.String.{String}

pub data Severity : Type 0 where
  info warn error : Severity

pub record Entry : Type 0 where
  pub project_id : String
  pub kind : String
  pub subject : String
  pub node_id : String
  pub message : String
  pub severity : Severity
