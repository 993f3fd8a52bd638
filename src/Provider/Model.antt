-- ===== src/Provider/Model.antt =====
-- src/provider/binary/jDataProvider/JDataProvider.cpp, findFieldModel, getParamId and updateModel. The first
-- has the text of Client::findFieldModel, with the node browser in place of the session.
use opc_ua_server.Prelude.{ℕ, Bool, true, false, Option, none, some, [], Text, c_str}
use opc_ua_server.Prelude.Int.{pos}
use opc_ua_server.Prelude.Result.{Result, ok, throws, undefined}
use opc_ua_server.Binary.Dto
use opc_ua_server.Binary.ParamId
use opc_ua_server.Ua.Sdk.{UaNodeId, ua_namespace}
use opc_ua_server.Client.Model
use opc_ua_server.Client.Model.{Fields, Source, and_then}

-- Without a node browser nothing is found.
unfoldable pub find_field_model : Option Source → ℕ → UaNodeId → Fields → Fields × Result Bool
unfolding Model.find_field_model
find_field_model none depth start m = (m, ok false)
find_field_model (some src) depth start m = Model.find_field_model src depth start m

-- The text of the type of a variable; a type with a text is one only for a variable that has a text id, too.
unfoldable pub type_text : (UaNodeId → Text) → UaNodeId → UaNodeId → Text
unfolding Dto.create_numeric ParamId.to_string
type_text identifier_string n (UaNodeId.numeric ns i) =
    ParamId.to_string (Dto.create_numeric (pos ns) i)
type_text identifier_string (UaNodeId.string ns s) t =
    ParamId.to_string (Dto.ParamId.string (pos (ua_namespace t)) (c_str (identifier_string t)))
type_text identifier_string n t = []

-- By the type of the variable of a node; an empty text for other nodes.
unfoldable pub get_param_id : (UaNodeId → Text) → (UaNodeId → Option UaNodeId) → UaNodeId → Text
unfolding type_text
get_param_id identifier_string variable_type n = elim (variable_type n) [
  | none ↦ []
  | some t ↦ type_text identifier_string n t
]

-- native2j gets the fields if there are new ones.
unfoldable pub told :
    (Fields → Result (Unit {0})) → Fields × Result Bool → Fields × Result (Unit {0})
unfolding and_then
told update (m, undefined) = (m, undefined)
told update (m, throws e) = (m, throws e)
told update (m, ok true) = (m, update m)
told update (m, ok false) = (m, ok tt)

unfoldable pub update_model :
    (Fields → Result (Unit {0}))
    → (UaNodeId → Option UaNodeId)
    → Option Source
    → ℕ
    → UaNodeId
    → Fields
    → Fields × Result (Unit {0})
unfolding told find_field_model
update_model update variable_type src depth n m = elim (variable_type n) [
  | none ↦ (m, ok tt)
  | some t ↦ told update (find_field_model src depth t m)
]
