-- ===== src/Enricher/Raw.antt =====
-- Untyped JSON objects: the `map[string]interface{}` of log bodies and of unstructured objects. A value
-- is a nested object, or anything else as one opaque text; the first entry of a key counts.
use lumigo_kubernetes_operat.Prelude.{String, Option, none, some, ◌==◌, if◌then◌else◌}

mutual
  pub data Raw : Type 0 where
    opaque : String → Raw
    nested : Fields → Raw

  pub data Fields : Type 0 where
    empty_object : Fields
    field : String → Raw → Fields → Fields

-- `m[key]`
unfoldable pub find_field : String → Fields → Option Raw
find_field key empty_object = none
find_field key (field k v rest) = if k == key then some v else find_field key rest

-- `m[key] = value`
unfoldable pub put_field : String → Raw → Fields → Fields
put_field key value empty_object = field key value empty_object
put_field key value (field k v rest) =
    let rest' = put_field key value rest in
    if k == key then field key value rest else field k v rest'
