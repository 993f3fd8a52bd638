-- ===== src/Client/Cache/Recursive.antt =====
-- src/binaryServer/CachedConverterCallback.cpp: `preload` of a structure that has itself as a field.
use opc_ua_server.Prelude.{
  ℕ, zero, suc, Bool, true, false, some, List, ◌∷◌, ◌≡◌, refl, ap, ◌∙◌, ◌==◌,
}
use opc_ua_server.Prelude.Result.{
  Result, ok, throws, undefined, ◌>>=◌, no_structure_definition, no_super_types, too_deep,
}
use opc_ua_server.Ua.Sdk.{UaNodeId, StructureDefinition, StructureField, ua_namespace}
use opc_ua_server.Client.Cache.{
  Cache, Source, found, and_then, base_type, is_structured, preload_fields, preload, load_fields,
  load_type, get_super_types, get_structure_definition,
}
use opc_ua_server.Client.Cache.Transparent.{IsTrue}
use opc_ua_server.Client.Cache.Preload.{super_types_direct, definition_direct}

and_then_ok :
    {A B : Type 0} (out : Cache × Result A) (x : A) (next : Cache → A → Cache × Result B)
    → out.1 ≡ ok x
    → and_then out next ≡ next out.0 x
unfolding and_then
and_then_ok (c, ok y) x next e = let k : y ≡ x = cc in ap (next c) k
and_then_ok (c, throws w) x next e = absurd (cc)
and_then_ok (c, undefined) x next e = absurd (cc)

and_then_deep :
    {A B : Type 0} (out : Cache × Result A) (next : Cache → A → Cache × Result B)
    → out.1 ≡ throws too_deep
    → (and_then out next).1 ≡ throws too_deep
unfolding and_then
and_then_deep (c, ok y) next e = absurd (cc)
and_then_deep (c, throws w) next e = let k : w ≡ too_deep = cc in ap throws k
and_then_deep (c, undefined) next e = absurd (cc)

module _ (same : UaNodeId → UaNodeId → Bool) (is_null : UaNodeId → Bool)
    (identifier_numeric : UaNodeId → ℕ) (src : Source) where
  -- For a structured type outside of namespace 0 whose first field has the type itself, `preload`
  -- does not end: it uses up any amount of fuel, from every cache with answers of the source.
  pub preload-recursive :
      (n : ℕ) (t b : UaNodeId) (ts : List UaNodeId) (d : StructureDefinition) (f : StructureField)
      (fs : List StructureField) (c : Cache)
      → ((x y : UaNodeId) → same x y ≡ true → x ≡ y)
      → (ua_namespace t == 0) ≡ false
      → src.get_super_types t ≡ ok (some ts)
      → base_type same is_null identifier_numeric src ts ≡ ok b
      → is_structured same is_null identifier_numeric src b ≡ true
      → src.get_structure_definition t ≡ ok (some d)
      → d.children ≡ f ∷ fs
      → f.type_id ≡ t
      → IsTrue same src c
      → (preload same is_null identifier_numeric src n t c).1 ≡ throws too_deep
  unfolding preload load_type load_fields preload_fields found
  preload-recursive zero t b ts d f fs c s e1 e2 e3 e4 e5 e6 e7 v = refl
  preload-recursive (suc n) t b ts d f fs c s e1 e2 e3 e4 e5 e6 e7 v =
      let (w, r) = super_types_direct same is_null identifier_numeric src t c s v in
      let (x, q) =
        definition_direct same is_null identifier_numeric src t (get_super_types same src t c).0 s
          w in
      let rest =
        preload-recursive n t b ts d f fs
          (get_structure_definition same src t (get_super_types same src t c).0).0 s e1 e2 e3 e4 e5
          e6 e7 x in
      let r2 : (get_super_types same src t c).1 ≡ ok ts =
        r ∙ ap (λ z. z >>= found no_super_types) e2 in
      let q2 : (get_structure_definition same src t (get_super_types same src t c).0).1 ≡ ok d =
        q ∙ ap (λ z. z >>= found no_structure_definition) e5 in
      rw
        (
          e1,
          and_then_ok (get_super_types same src t c) ts
              (λ d ts.
                and_then (d, base_type same is_null identifier_numeric src ts)
                  (load_fields same is_null identifier_numeric src
                    (preload same is_null identifier_numeric src n) t))
              r2,
          and_then_ok
              ((get_super_types same src t c).0, base_type same is_null identifier_numeric src ts) b
              (load_fields same is_null identifier_numeric src
                (preload same is_null identifier_numeric src n) t)
              e3,
          e4,
          and_then_ok (get_structure_definition same src t (get_super_types same src t c).0) d
              (λ g y.
                preload_fields same is_null identifier_numeric src
                  (preload same is_null identifier_numeric src n) y.children g)
              q2,
          e6,
        )
        (and_then_deep
          (preload same is_null identifier_numeric src n f.type_id
            (get_structure_definition same src t (get_super_types same src t c).0).0)
          (λ g u.
            preload_fields same is_null identifier_numeric src
              (preload same is_null identifier_numeric src n) fs g)
          (rw e7 rest))
