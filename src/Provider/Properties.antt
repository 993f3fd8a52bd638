-- ===== src/Provider/Properties.antt =====
-- src/provider/binary/jDataProvider/JDataProvider.cpp, getDefaultNodeProperties and getNodeProperties.
use opc_ua_server.Prelude.{
  Bool, true, false, Option, none, some, List, [], ◌∷◌, ◌++◌, ◌≡◌, refl, ap, sym, ◌∙◌, Text, bytes,
  if◌then◌else◌, Bool-cases, inl, inr,
}
use opc_ua_server.Prelude.Int.{ℤ}
use opc_ua_server.Prelude.Result.{ok}
use opc_ua_server.Io
use opc_ua_server.Bridge.{
  Properties, get_value_handling, handling_in, find_handling, handling_of, default_of,
}

abbrev pub ids_none : List Text
ids_none =
    bytes "AirConditioner_1.Humidity.EURange"
    ∷ bytes "AirConditioner_1.Humidity.EngineeringUnits"
    ∷ bytes "AirConditioner_1.HumiditySetpoint.EURange"
    ∷ bytes "AirConditioner_1.HumiditySetpoint.EngineeringUnits"
    ∷ bytes "AirConditioner_1.Temperature.EURange"
    ∷ bytes "AirConditioner_1.Temperature.EngineeringUnits"
    ∷ bytes "AirConditioner_1.TemperatureSetpoint.EURange"
    ∷ bytes "AirConditioner_1.TemperatureSetpoint.EngineeringUnits"
    ∷ bytes "Furnace_2.Temperature.EURange"
    ∷ bytes "Furnace_2.Temperature.EngineeringUnits"
    ∷ bytes "Furnace_2.TemperatureSetpoint.EURange"
    ∷ bytes "Furnace_2.TemperatureSetpoint.EngineeringUnits"
    ∷ []

abbrev pub ids_sync : List Text
ids_sync =
    bytes "rfr310.IOData.HS1"
    ∷ bytes "rfr310.IOData.HS1.direction"
    ∷ bytes "rfr310.IOData.HS2"
    ∷ bytes "rfr310.IOData.HS2.direction"
    ∷ bytes "rfr310.IOData.HS3"
    ∷ bytes "rfr310.IOData.HS3.direction"
    ∷ bytes "rfr310.IOData.HS4"
    ∷ bytes "rfr310.IOData.HS4.direction"
    ∷ bytes "rfr310.IOData.SWS1_SWD1"
    ∷ bytes "rfr310.IOData.SWS1_SWD1.direction"
    ∷ bytes "rfr310.IOData.SWS2_SWD2"
    ∷ bytes "rfr310.IOData.SWS2_SWD2.direction"
    ∷ bytes "rfr310.IOData.LS1"
    ∷ bytes "rfr310.IOData.LS1.direction"
    ∷ bytes "rfr310.IOData.LS2"
    ∷ bytes "rfr310.IOData.LS2.direction"
    ∷ bytes "rfr310.RuntimeParameters.RfPower"
    ∷ bytes "rfr310.RuntimeParameters.MinRssi"
    ∷ bytes "AirConditioner_1.Temperature"
    ∷ bytes "ControllerConfigurations"
    ∷ []

-- The entries of one handling.
unfoldable pub entries : ℤ → Io.ValueHandling → List Text → List Io.NodeData
entries ns h [] = []
entries ns h (s ∷ ss) =
    record {
      node = Io.NodeId.string ns s;
      payload = some (Io.Variant.node_properties h);
      exception = none;
    }
    ∷ entries ns h ss

unfoldable pub get_default_node_properties : Io.ValueHandling
get_default_node_properties = Io.ValueHandling.async

unfoldable pub get_node_properties : ℤ → List Io.NodeData
unfolding entries
get_node_properties ns =
    entries ns Io.ValueHandling.unhandled ids_none ++ entries ns Io.ValueHandling.sync ids_sync

-- What the bridge keeps of them.
unfoldable pub properties : ℤ → Properties
unfolding get_default_node_properties get_node_properties
properties ns = record {
  default_handling = some get_default_node_properties;
  nodes = some (get_node_properties ns);
}

-- A text id of the namespace with one of the texts.
unfoldable pub is_listed : ℤ → List Text → Io.NodeId → Bool
unfolding Io.equals
is_listed ns [] id = false
is_listed ns (s ∷ ss) id =
    let rest = is_listed ns ss id in if Io.equals id (Io.NodeId.string ns s) then true else rest

find_handling-entries :
    (ns : ℤ) (h : Io.ValueHandling) (ss : List Text) (id : Io.NodeId) (d : Option Io.ValueHandling)
    (rest : List Io.NodeData)
    → find_handling id d (entries ns h ss ++ rest)
      ≡ (if is_listed ns ss id then ok h else find_handling id d rest)
unfolding find_handling handling_of entries is_listed
find_handling-entries ns h [] id d rest = refl
find_handling-entries ns h (s ∷ ss) id d rest =
    elim (Bool-cases (Io.equals id (Io.NodeId.string ns s))) [
      | inl e ↦ rw (e) refl
      | inr e ↦ rw (e) (find_handling-entries ns h ss id d rest)
    ]

entries-nil :
    (ns : ℤ) (h : Io.ValueHandling) (ss : List Text) → entries ns h ss ++ [] ≡ entries ns h ss
unfolding entries
entries-nil ns h [] = refl
entries-nil ns h (s ∷ ss) = rw (entries-nil ns h ss) refl

-- The result of a choice.
ok-if : {A : Type 0} (b : Bool) (x y : A) → (if b then ok x else ok y) ≡ ok (if b then x else y)
ok-if true x y = refl
ok-if false x y = refl

find_handling-both :
    (ns : ℤ) (ss ts : List Text) (id : Io.NodeId) (d : Io.ValueHandling)
    → find_handling id
        (some d)
        (entries ns Io.ValueHandling.unhandled ss ++ entries ns Io.ValueHandling.sync ts)
      ≡ ok (
          if is_listed ns ss id
          then Io.ValueHandling.unhandled
          else if is_listed ns ts id
          then Io.ValueHandling.sync
          else d)
unfolding find_handling default_of
find_handling-both ns ss ts id d =
    let second =
      ap (find_handling id (some d)) (sym (entries-nil ns Io.ValueHandling.sync ts))
      ∙ find_handling-entries ns Io.ValueHandling.sync ts id (some d) []
      ∙ ok-if (is_listed ns ts id) Io.ValueHandling.sync d in
    find_handling-entries ns Io.ValueHandling.unhandled ss id (some d)
      (entries ns Io.ValueHandling.sync ts)
    ∙ ap (λ r. if is_listed ns ss id then ok Io.ValueHandling.unhandled else r) second
    ∙ ok-if (is_listed ns ss id) Io.ValueHandling.unhandled
        (if is_listed ns ts id then Io.ValueHandling.sync else d)

-- With these properties the bridge's value handling of any node is none for the nodes of the first list,
-- synchronous for those of the second, and asynchronous for all others, and nothing is thrown.
pub get_value_handling-properties :
    (ns : ℤ) (id : Io.NodeId)
    → get_value_handling (properties ns) id
      ≡ ok (
          if is_listed ns ids_none id
          then Io.ValueHandling.unhandled
          else if is_listed ns ids_sync id
          then Io.ValueHandling.sync
          else Io.ValueHandling.async)
unfolding get_value_handling handling_in properties get_node_properties get_default_node_properties
get_value_handling-properties ns id =
    find_handling-both ns ids_none ids_sync id Io.ValueHandling.async
