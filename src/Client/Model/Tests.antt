-- ===== src/Client/Model/Tests.antt =====
-- Browsing with two answers of the server.
use opc_ua_server.Prelude.{
  ℕ, true, false, none, some, [], ◌∷◌, ◌≡◌, ◌≢◌, refl, Text, ◌==◌, if◌then◌else◌,
}
use opc_ua_server.Ua.Sdk.{UaNodeId, numeric, ua_namespace}
use opc_ua_server.Client.Model.{Reference, Answer, browse}
use opc_ua_server.Client.Model.Browsing.{browse-ends, browse-bad}

abbrev full : UaNodeId → Text
full n = ua_namespace n ∷ []

abbrev level : Reference
level = record { node_id = numeric 2 1; node_class = 2; browse_name = 76 ∷ [] }

-- The second answer is bad.
abbrev answers : ℕ → Answer
answers k = if k == 0 then none else some (level ∷ [], false)

browse-ends_example : browse full [] (some (level ∷ [], true)) answers 2 ≢ none
browse-ends_example = browse-ends full [] answers (some (level ∷ [], true)) 1 (level ∷ [], refl)

never_ends : browse full [] (some (level ∷ [], true)) (λ i. none) 100 ≡ none
never_ends = browse-bad full [] (λ i. none) (level ∷ []) 100 (λ i. refl)
