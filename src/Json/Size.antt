-- ===== src/Json/Size.antt =====
-- How deep a document nests, and how many nodes it has.
use tmx.Base.{ℕ, suc, ◌+◌, max}
use tmx.Json.{
  Value, Items, Fields, null, boolean, number, string, array, object, no_items, item, no_fields,
  field,
}

-- The nesting depth: a scalar is one level, a container one more than its deepest child.
unfoldable mutual
  pub depth : Value → ℕ
  depth null = 1
  depth (boolean b) = 1
  depth (number n) = 1
  depth (string s) = 1
  depth (array vs) = suc (depth_items vs)
  depth (object fs) = suc (depth_fields fs)

  pub depth_items : Items → ℕ
  depth_items no_items = 0
  depth_items (item v vs) = max (depth v) (depth_items vs)

  pub depth_fields : Fields → ℕ
  depth_fields no_fields = 0
  depth_fields (field k v fs) = max (depth v) (depth_fields fs)

unfoldable mutual
  pub nodes : Value → ℕ
  nodes null = 1
  nodes (boolean b) = 1
  nodes (number n) = 1
  nodes (string s) = 1
  nodes (array vs) = suc (nodes_items vs)
  nodes (object fs) = suc (nodes_fields fs)

  pub nodes_items : Items → ℕ
  nodes_items no_items = 0
  nodes_items (item v vs) = nodes v + nodes_items vs

  pub nodes_fields : Fields → ℕ
  nodes_fields no_fields = 0
  nodes_fields (field k v fs) = nodes v + nodes_fields fs
