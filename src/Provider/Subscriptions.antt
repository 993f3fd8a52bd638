-- ===== src/Provider/Subscriptions.antt =====
-- src/provider/binary/jDataProvider/JDataProvider.cpp, subscribe and unsubscribe.
use opc_ua_server.Prelude.{◌≡◌, refl, ap, ◌∙◌, false, List, [], ◌∷◌, ◌++◌, All}
use opc_ua_server.Io
use opc_ua_server.Bridge.Reading.Positions.{equals_refl}
use opc_ua_server.Provider.{
  Environment, State, add_callbacks, remove_first, remove_callbacks, subscribe, unsubscribe, read,
  take_ids,
}

module _ (env : Environment) where
  -- A node has no callback.
  abbrev pub Absent : List (Io.NodeId × env.Callback) → Io.NodeId → Type 0
  Absent cs n = All (λ e. Io.equals n e.0 ≡ false) cs

  -- No node stands before an equal one.
  abbrev pub IsDistinct : List Io.NodeId → Type 0
  IsDistinct [] = Unit {0}
  IsDistinct (n ∷ nodes) = All (λ m. Io.equals m n ≡ false) nodes × IsDistinct nodes

  remove_first-append :
      (n : Io.NodeId) (c : env.Callback) (cs : List (Io.NodeId × env.Callback))
      → Absent cs n
      → remove_first env n (cs ++ (n, c) ∷ []) ≡ cs
  unfolding remove_first
  remove_first-append n c [] a = rw (equals_refl n) refl
  remove_first-append n c (e ∷ cs) a = rw (a.0) (ap (λ l. e ∷ l) (remove_first-append n c cs a.1))

  Absent-append :
      (m n : Io.NodeId) (c : env.Callback) (cs : List (Io.NodeId × env.Callback))
      → Io.equals m n ≡ false
      → Absent cs m
      → Absent (cs ++ (n, c) ∷ []) m
  Absent-append m n c [] h a = (h, tt)
  Absent-append m n c (e ∷ cs) h a = (a.0, Absent-append m n c cs h a.1)

  All-Absent :
      (n : Io.NodeId) (c : env.Callback) (cs : List (Io.NodeId × env.Callback))
      (nodes : List Io.NodeId)
      → All (λ m. Io.equals m n ≡ false) nodes
      → All (Absent cs) nodes
      → All (Absent (cs ++ (n, c) ∷ [])) nodes
  All-Absent n c cs [] d a = tt
  All-Absent n c cs (m ∷ nodes) d a =
      (Absent-append m n c cs d.0 a.0, All-Absent n c cs nodes d.1 a.1)

  remove_callbacks-add_callbacks :
      (nodes : List Io.NodeId) (c : env.Callback) (cs : List (Io.NodeId × env.Callback))
      → IsDistinct nodes
      → All (Absent cs) nodes
      → remove_callbacks env nodes (add_callbacks env nodes c cs) ≡ cs
  unfolding remove_callbacks add_callbacks
  remove_callbacks-add_callbacks [] c cs d a = refl
  remove_callbacks-add_callbacks (n ∷ nodes) c cs d a =
      ap (remove_first env n) (
        remove_callbacks-add_callbacks nodes c (cs ++ (n, c) ∷ []) d.1
          (All-Absent n c cs nodes d.0 a.1))
      ∙ remove_first-append n c cs a.0

  -- Distinct nodes without a callback are subscribed to, whatever their reading gives, and unsubscribed from: the
  -- callbacks are those of before.
  pub unsubscribe-subscribe :
      (nodes : List Io.NodeId) (c : env.Callback) (s : State env)
      → IsDistinct nodes
      → All (Absent s.callbacks) nodes
      → (unsubscribe env nodes (subscribe env nodes c s).0).callbacks ≡ s.callbacks
  unfolding unsubscribe subscribe read take_ids
  unsubscribe-subscribe nodes c s d a = remove_callbacks-add_callbacks nodes c s.callbacks d a
