-- ===== src/Client/Model.antt =====
-- src/binaryServer/Client.cpp, browse, findFieldModel and checkModel: the nodes below a node, and the types of
-- fields that the message handler is told. The loop over the further answers of browse is on fuel, one unit
-- for an answer. The stack has room for a number of calls of findFieldModel.
pub mod Browsing
mod Tests
use opc_ua_server.Prelude.{
  ℕ, zero, suc, ◌/◌, ◌%◌, ◌+◌, Bool, true, false, Option, none, some, List, [], ◌∷◌, ◌++◌,
  if◌then◌else◌, ◌==◌, Text, bytes, text_eq, show_nat, c_str,
}
use opc_ua_server.Prelude.Int.{ℤ, pos}
use opc_ua_server.Prelude.Result.{Result, ok, throws, undefined, ◌>>=◌, fmap}
use opc_ua_server.EventTypes.{find, assign}
use opc_ua_server.Binary.Dto
use opc_ua_server.Binary.ParamId
use opc_ua_server.Ua.Sdk.{UaNodeId, StructureField, StructureDefinition, ua_namespace}
use opc_ua_server.Browser.{last}

-- What browse reads of a reference description, its class as the bits of a mask.
pub record Reference : Type 0 where
  pub node_id : UaNodeId
  pub node_class : ℕ
  pub browse_name : Text

-- The answer of a status that is not bad: the references, and whether there are more.
abbrev pub Answer : Type 0
Answer = Option (List Reference × Bool)

abbrev pub Values : Type 0
Values = List (Text × Text)

-- `values[key] = value`
unfoldable pub put : Text → Text → Values → Values
unfolding assign text_eq
put k v m = assign text_eq k v m

abbrev classes : List (ℕ × Text)
classes =
    (1, bytes "Object")
    ∷ (2, bytes "Variable")
    ∷ (4, bytes "Method")
    ∷ (8, bytes "ObjectType")
    ∷ (16, bytes "VariableType")
    ∷ (32, bytes "ReferenceType")
    ∷ (64, bytes "DataType")
    ∷ (128, bytes "View")
    ∷ []

unfoldable pub put_classes : ℕ → List (ℕ × Text) → Values → Values
unfolding put
put_classes c [] m = m
put_classes c ((bit, name) ∷ cs) m =
    put_classes c cs (if c / bit % 2 == 1 then put (bytes "NodeClass") name m else m)

module _ (full_string : UaNodeId → Text) (prefix : Text) where
  -- The number or the text of an id; other ids are not known.
  unfoldable pub put_identifier : UaNodeId → Values → Values × Bool
  unfolding put
  put_identifier (UaNodeId.numeric ns i) m = (
    put (bytes "IdentifierType") (bytes "Numeric") (put (bytes "Identifier") (show_nat i) m),
    true,
  )
  put_identifier (UaNodeId.string ns s) m =
      (put (bytes "IdentifierType") (bytes "String") (put (bytes "Identifier") (c_str s) m), true)
  put_identifier id m = (m, false)

  unfoldable pub put_names : Reference → Values → Values
  unfolding put
  put_names r m = put (bytes "NamespaceIndex") (show_nat (ua_namespace r.node_id)) (
      put (bytes "TreeName") (prefix ++ (bytes "." ++ r.browse_name))
        (put (bytes "BrowseName") r.browse_name m))

  -- The body of the loops over the references: the values, which stay for the next one, and the fields.
  unfoldable pub add_reference :
      Reference → Values × List (Text × Values) → Values × List (Text × Values)
  unfolding put_classes put_identifier put_names put assign text_eq
  add_reference r (m, fields) =
      let (v, known) = put_identifier r.node_id (
        put (bytes "IdentifierFull") (full_string r.node_id)
          (put_classes r.node_class classes m)) in
      if known
      then (put_names r v, assign text_eq (full_string r.node_id) (put_names r v) fields)
      else (v, fields)

  -- The first loop clears the values before each reference, the second does not.
  unfoldable pub add_cleared :
      List Reference → Values × List (Text × Values) → Values × List (Text × Values)
  unfolding add_reference
  add_cleared [] st = st
  add_cleared (r ∷ rs) st = add_cleared rs (add_reference r ([], st.1))

  unfoldable pub add_kept :
      List Reference → Values × List (Text × Values) → Values × List (Text × Values)
  unfolding add_reference
  add_kept [] st = st
  add_kept (r ∷ rs) st = add_kept rs (add_reference r st)

  -- The `while` loop by the answers of browseNext. After a bad one the continuation point is the same.
  unfoldable pub browse_rest :
      (ℕ → Answer) → ℕ → ℕ → Values × List (Text × Values) → Option (List (Text × Values))
  unfolding add_kept
  browse_rest next zero k st = none
  browse_rest next (suc n) k st = elim (next k) [
    | none ↦ browse_rest next n (suc k) st
    | some (rs, more) ↦
        if more then browse_rest next n (suc k) (add_kept rs st) else some (add_kept rs st).1
  ]

  unfoldable pub browse : Answer → (ℕ → Answer) → ℕ → Option (List (Text × Values))
  unfolding add_cleared browse_rest
  browse none next fuel = some []
  browse (some (rs, false)) next fuel = some (add_cleared rs ([], [])).1
  browse (some (rs, true)) next fuel = browse_rest next fuel 0 (add_cleared rs ([], []))

-- ModelType: a reference to another type, or a type of the namespace 0; `none` is the default number -99.
pub data ModelType : Type 0 where
  ref : Text → ModelType
  type : Option ℕ → ModelType

abbrev pub Fields : Type 0
Fields = List (Text × List (Text × ModelType))

-- The session, and the texts and numbers of ids. The type of a variable is that of the variant getVariable
-- returns. A method's arguments have a name and a type.
pub record Source : Type 0 where
  pub get_structure_definition : UaNodeId → Result StructureDefinition
  pub get_super_types : UaNodeId → Result (List UaNodeId)
  pub get_input_arguments : UaNodeId → Result (List (Text × UaNodeId))
  pub variable_type : UaNodeId → UaNodeId
  pub full_string : UaNodeId → Text
  pub identifier_numeric : UaNodeId → ℕ
  pub identifier_string : UaNodeId → Text

-- The fields are a member: they stay when a call throws.
unfoldable pub and_then {ℓ κ} :
    {A : Type ℓ} {B : Type κ}
    → Fields × Result A
    → (Fields → A → Fields × Result B)
    → Fields × Result B
and_then (m, undefined) next = (m, undefined)
and_then (m, throws e) next = (m, throws e)
and_then (m, ok x) next = next m x

unfoldable pub fields_at : Text → Fields → List (Text × ModelType)
unfolding find text_eq
fields_at k m = elim (find text_eq k m) [ none ↦ [] | some vs ↦ vs ]

-- `fields[key][name] = type`
unfoldable pub put_type : Text → Text → ModelType → Fields → Fields
unfolding assign text_eq fields_at
put_type k n t m = assign text_eq k (assign text_eq n t (fields_at k m)) m

module _ (src : Source) where
  -- The text of the ParamId of an id.
  unfoldable pub id_text : UaNodeId → Text
  unfolding Dto.create_numeric ParamId.to_string
  id_text (UaNodeId.numeric ns i) = ParamId.to_string (Dto.create_numeric (pos ns) i)
  id_text id =
      ParamId.to_string
        (Dto.ParamId.string (pos (ua_namespace id)) (c_str (src.identifier_string id)))

  -- A type of another namespace is a reference, and its own fields are looked for.
  unfoldable pub type_of :
      (UaNodeId → Fields → Fields × Result Bool) → UaNodeId → Fields → Fields × Result ModelType
  unfolding and_then id_text
  type_of go t m =
      if ua_namespace t == 0
      then (m, ok (type (some (src.identifier_numeric t))))
      else and_then (go t m) (λ fields changed. (fields, ok (ref (id_text t))))

  unfoldable pub structure_types :
      (UaNodeId → Fields → Fields × Result Bool)
      → List StructureField
      → List (Text × ModelType)
      → Fields
      → Fields × Result (List (Text × ModelType))
  unfolding and_then type_of assign text_eq
  structure_types go [] vs m = (m, ok vs)
  structure_types go (f ∷ fs) vs m =
      and_then (type_of go f.type_id m)
        (λ fields t. structure_types go fs (assign text_eq f.name t vs) fields)

  unfoldable pub numeric_of : UaNodeId → Option ℕ
  numeric_of (UaNodeId.numeric ns i) = some i
  numeric_of id = none

  -- Without fields: the last of the super types, or the type itself.
  unfoldable pub base_type :
      (UaNodeId → Fields → Fields × Result Bool)
      → UaNodeId
      → List UaNodeId
      → Fields
      → Fields × Result ModelType
  unfolding type_of numeric_of last
  base_type go start ts m = elim (last ts) [
    | none ↦ (m, ok (type (numeric_of start)))
    | some t ↦ type_of go t m
  ]

  unfoldable pub types_of :
      (UaNodeId → Fields → Fields × Result Bool)
      → UaNodeId
      → List StructureField
      → Fields
      → Fields × Result (List (Text × ModelType))
  unfolding and_then base_type structure_types
  types_of go start [] m =
      and_then (m, src.get_super_types start)
        λ fields ts.
          and_then (base_type go start ts fields)
            λ rest t. (rest, ok ((src.full_string start, t) ∷ []))
  types_of go start (f ∷ fs) m = structure_types go (f ∷ fs) [] m

  -- The fields of a type are stored after those of the types in it.
  unfoldable pub find_new :
      (UaNodeId → Fields → Fields × Result Bool) → UaNodeId → Fields → Fields × Result Bool
  unfolding and_then types_of assign text_eq
  find_new go start m =
      and_then (m, src.get_structure_definition start)
        λ fields def.
          and_then (types_of go start def.children fields)
            λ rest vs. (assign text_eq (src.full_string start) vs rest, ok true)

  unfoldable pub find_field_model : ℕ → UaNodeId → Fields → Fields × Result Bool
  unfolding find text_eq find_new
  find_field_model zero start m = (m, undefined)
  find_field_model (suc n) start m = elim (find text_eq (src.full_string start) m) [
    | some vs ↦ (m, ok false)
    | none ↦ find_new (find_field_model n) start m
  ]

  -- The loop over the arguments of a method, with the fields that the handler is told after each of them.
  unfoldable pub argument_types :
      ℕ → Text → List (Text × UaNodeId) → Fields → Fields × Result (List Text × List Fields)
  unfolding and_then put_type find_field_model
  argument_types n p [] m = (m, ok ([], []))
  argument_types n p ((name, t) ∷ others) m =
      and_then (find_field_model n t (put_type p name (ref (src.full_string t)) m))
        λ fields changed.
          and_then (argument_types n p others fields)
            λ rest out. (rest, ok (name ∷ out.0, fields ∷ out.1))

  -- The names, and what the handler is told. `is_call` is a type of 0; `p` is the text of the ParamId.
  unfoldable pub check_model :
      ℕ → Bool → Text → UaNodeId → Fields → Fields × Result (List Text × List Fields)
  unfolding and_then argument_types put_type find_field_model
  check_model n true p id m =
      and_then (m, src.get_input_arguments id) λ fields args. argument_types n p args fields
  check_model n false p id m =
      let t = src.variable_type id in
      let name = src.full_string t in
      and_then (find_field_model n t (put_type p name (ref name) m))
        λ fields changed. (fields, ok (name ∷ [], fields ∷ []))
