-- ===== src/Contracts/Json.antt =====
-- What `JSON.parse` returns.
use ais_tracking_system.Prelude.{String, Bool, Option, none, some, or_else, ite, str_discrete}
use ais_tracking_system.Prelude.Double.{Double}

mutual
  pub data Json : Type 0 where
    null : Json
    bool : Bool → Json
    num : Double → Json
    str : String → Json
    arr : Items → Json
    obj : Fields → Json

  pub data Items : Type 0 where
    nil : Items
    cons : Json → Items → Items

  pub data Fields : Type 0 where
    end : Fields
    field : String → Json → Fields → Fields

-- A property of an object; where a name is repeated, the last one counts.
unfoldable pub property : String → Fields → Option Json
property name end = none
property name (field other value fields) =
    or_else (property name fields) (ite (str_discrete other name) (some value) none)
