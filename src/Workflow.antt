-- ===== src/Workflow.antt =====
-- src/engine/workflow.py: nodes, edges and workflows, with the fields that the modelled code reads.
use composer.Base.{ℕ, String, Bool, Option, List}
use composer.Value.{Value}

-- `kind` is the field `type`; a default of None is `null`.
-- Left out: layout coordinates, labels, and the settings of node types whose executors are not
-- modelled; no modelled code reads them.
pub record StartInputVariable : Type 0 where
  pub name : String
  pub kind : String
  pub required : Bool
  pub default_value : Value

pub data DecisionMode : Type 0 where
  binary choice : DecisionMode

-- The `type` of a node with what is read of its `data`.
pub data NodeData : Type 0 where
  start : List StartInputVariable → NodeData
  if_else : Option String → NodeData
  decision : DecisionMode → Option (List String) → NodeData
  while : Option String → ℕ → NodeData
  end join note file_trigger user_approval : NodeData
  file_write agent mcp transform data_transform set_state extract http guardrails : NodeData
  vector_db gamma_ai email arcade join_chunks confluence jira download_pdf : NodeData

pub record WorkflowNode : Type 0 where
  pub id : String
  pub node_name : Option String
  pub payload : NodeData

pub record WorkflowEdge : Type 0 where
  pub id : String
  pub source : String
  pub target : String
  pub branch : Option String

pub record Workflow : Type 0 where
  pub nodes : List WorkflowNode
  pub edges : List WorkflowEdge
