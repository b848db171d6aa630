-- ===== src/Flow.antt =====
-- The objects that a flow's data consists of, in a store. A reference is a number, a field that is
-- a map from ids holds references, and a node that embeds a flow has the fields of a flow's data.
use azkaban_private.Prelude.{
  ℕ, ◌==◌, if◌then◌else◌, Bool, false, Option, none, some, List, [], String, str_eq,
}
use azkaban_private.Status.{Status}

abbrev pub Ref : Type 0
Ref = ℕ

-- `inNodes`, `outNodes` and `nodeMap`: from an id to the node.
abbrev pub Links : Type 0
Links = List (String × Ref)

pub record Edge : Type 0 where
  pub from : String
  pub to : String

-- `node.level`: absent, the NaN that arithmetic with an absent level gives, or a number.
pub data Level : Type 0 where
  undefined nan : Level
  num : ℕ → Level

-- A time in milliseconds: absent, the -1 that stands for "not yet", or a number.
pub data Stamp : Type 0 where
  missing unset : Stamp
  at_ms : ℕ → Stamp

pub record Node : Type 0 where
  pub id : String
  pub type : String
  pub status : Option Status
  -- An absent flag reads as false.
  pub disabled : Bool
  -- The field `in`: the ids that the server sent.
  pub deps : Option (List String)
  pub in_nodes : Option Links
  pub out_nodes : Option Links
  pub nodes : List Ref
  pub node_map : Links
  pub edges : List Edge
  pub parent : Option Ref
  pub level : Level
  pub start_time : Stamp
  pub end_time : Stamp
  pub update_time : Stamp
  pub changed_node : Option Ref

-- The store. A reference in a JavaScript program always leads to an object.
abbrev pub Heap : Type 0
Heap = Ref → Node

-- Assignment to fields of the object at `r`.
abbrev pub modify : Heap → Ref → (Node → Node) → Heap
modify h r f x = if r == x then f (h x) else h x

abbrev pub is_flow : Node → Bool
is_flow n = str_eq n.type "flow"

-- The entries of a map that may be absent; a loop over an absent map is guarded.
abbrev pub links_of : Option Links → Links
links_of none = []
links_of (some l) = l

-- A node as the server sends it.
abbrev pub fresh : String → String → List String → List Ref → Node
fresh id type deps nodes = record {
  id = id;
  type = type;
  status = none;
  disabled = false;
  deps = some deps;
  in_nodes = none;
  out_nodes = none;
  nodes = nodes;
  node_map = [];
  edges = [];
  parent = none;
  level = undefined;
  start_time = missing;
  end_time = missing;
  update_time = missing;
  changed_node = none;
}
