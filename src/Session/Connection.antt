-- ===== src/Session/Connection.antt =====
-- src/binaryServer/HaSession.cpp: open, close, subscribe and unsubscribe, with what is left of the session and
-- of its subscription.
pub mod Timing
pub mod Losing
mod Tests
use opc_ua_server.Prelude.{
  ℕ, zero, suc, ◌+◌, ◌-◌, Bool, true, false, ◌||◌, Option, none, some, List, [], ◌∷◌, ◌++◌, Text,
  if◌then◌else◌, ltb, ◌==◌, map,
}
use opc_ua_server.Prelude.Result.{
  Error, Result, ok, throws, undefined, ◌>>=◌, closed_session, bad_node, bad_answer, cannot_add,
}
use opc_ua_server.Ua.Sdk.{UaNodeId}
use opc_ua_server.EventTypes.{assign}
use opc_ua_server.Subscription
use opc_ua_server.Subscription.Methods.{add, remove, remove_all}
use opc_ua_server.Session.{UaSession, NodeAttributes, object_type_class}
use opc_ua_server.Session.Reading.{read}
use opc_ua_server.Session.Fields.{EventField, get_event_fields}

-- The settings of the connection, in seconds, and the SDK's connect: for an attempt by its number and with a
-- limit of time, whether it succeeds and the seconds it takes.
pub record Configuration : Type 0 where
  pub connect_timeout : ℕ
  pub max_reconnect_delay : ℕ

abbrev pub Connect : Type 0
Connect = ℕ → ℕ → Bool × ℕ

-- How the loop of open ends, and at which time.
pub data Attempt : Type 0 where
  connected timed_out : ℕ → Attempt

unfoldable pub smaller : ℕ → ℕ → ℕ
smaller a b = if ltb b a then b else a

-- reconnectDelay.tv_sec++, up to the longest delay.
unfoldable pub longer : Configuration → ℕ → ℕ
longer conf delay = if ltb delay conf.max_reconnect_delay then suc delay else delay

-- The `while` loop, on fuel for its turns: the number of the attempt, the time, the delay and the rest of the
-- time. A rest below zero is zero here, and its negative delay does not sleep. nanosleep sleeps in full.
unfoldable pub try_connect : Configuration → Connect → ℕ → ℕ → ℕ → ℕ → ℕ → ℕ → Option Attempt
unfolding smaller longer
try_connect conf connect end zero i now delay remaining = none
try_connect conf connect end (suc n) i now delay remaining =
    let (good, t) = connect i remaining in
    let rest = end - (now + t) in
    let sleep = smaller (longer conf delay) rest in
    let later = try_connect conf connect end n (suc i) (now + t + sleep) sleep (rest - sleep) in
    if remaining == 0
    then some (timed_out now)
    else if good
    then some (connected (now + t))
    else later

-- From a time on.
unfoldable pub open_connection : Configuration → Connect → ℕ → ℕ → Option Attempt
unfolding try_connect
open_connection conf connect fuel now =
    try_connect conf connect (now + conf.connect_timeout) fuel 0 now 0 conf.connect_timeout

-- The pointer to the subscription, whose destructor may throw.
pub data Pointer : Type 0 where
  null dangling : Pointer
  live : Subscription.State → Pointer

-- Whether there is a session, and the subscription.
pub record State : Type 0 where
  pub is_open : Bool
  pub subscription : Pointer

-- A method returns or throws in a state, or its behaviour is undefined.
pub data Outcome (A : Type 0) : Type 0 where
  returned : A → State → Outcome A
  thrown : Error → State → Outcome A
  stuck : Outcome A

-- The constructor leaves both pointers null.
abbrev pub start : State
start = record { is_open = false; subscription = null }

-- A subscription is made before the session is connected, and stays if the connection is not opened.
unfoldable pub open_session : Option Attempt → State → Option (Outcome (Unit {0}))
open_session attempt s = if s.is_open then some (returned tt s) else elim attempt [
  | none ↦ none
  | some (connected t) ↦
      some (returned tt record { is_open = true; subscription = live Subscription.start })
  | some (timed_out t) ↦
      some
        (thrown closed_session record { is_open = false; subscription = live Subscription.start })
]

module _ (same : UaNodeId → UaNodeId → Bool) (srv : Subscription.Server) where
  -- `delete subscription`.
  unfoldable pub deleted : Subscription.Outcome → Outcome (Unit {0})
  deleted (Subscription.returned t) = returned tt record { is_open = true; subscription = null }
  deleted (Subscription.thrown t e) =
      thrown bad_answer record { is_open = true; subscription = dangling }
  deleted Subscription.stuck = stuck

  unfoldable pub delete_subscription : Pointer → Outcome (Unit {0})
  unfolding deleted remove_all
  delete_subscription null = returned tt record { is_open = true; subscription = null }
  delete_subscription dangling = stuck
  delete_subscription (live t) = deleted (remove_all same srv t)

  -- With the status of the disconnection.
  unfoldable pub disconnect : Bool → Outcome (Unit {0}) → Outcome (Unit {0})
  disconnect true (returned u s) = returned tt (record s { is_open = false })
  disconnect false (returned u s) = thrown bad_answer s
  disconnect good (thrown e s) = thrown e s
  disconnect good stuck = stuck

  unfoldable pub close : Bool → State → Outcome (Unit {0})
  unfolding disconnect delete_subscription
  close good s =
      if s.is_open then disconnect good (delete_subscription s.subscription) else returned tt s

  -- What a call of the subscription leaves.
  unfoldable pub kept : State → Subscription.Outcome → Outcome (Unit {0})
  kept s (Subscription.returned t) = returned tt (record s { subscription = live t })
  kept s (Subscription.thrown t e) = thrown cannot_add (record s { subscription = live t })
  kept s Subscription.stuck = stuck

  unfoldable pub unsubscribe : List UaNodeId → State → Outcome (Unit {0})
  unfolding kept remove
  unsubscribe ns s = elim s.subscription [
    | null ↦ returned tt s
    | dangling ↦ stuck
    | live t ↦ kept s (remove same srv ns t)
  ]

  unfoldable pub unsubscribe_all : State → Outcome (Unit {0})
  unfolding kept remove_all
  unsubscribe_all s = elim s.subscription [
    | null ↦ returned tt s
    | dangling ↦ stuck
    | live t ↦ kept s (remove_all same srv t)
  ]

unfoldable pub any_failed : List EventField → Bool
any_failed [] = false
any_failed (f ∷ fs) = f.has_exception || any_failed fs

unfoldable pub unless_failed : List EventField → Result (Option (List EventField))
unfolding any_failed
unless_failed fs = if any_failed fs then throws bad_node else ok (some fs)

unfoldable pub is_object_type : ℕ → Bool
is_object_type c = c == object_type_class

-- What the subscription uses of the fields and the attributes. The names are not null without an exception.
unfoldable pub subscription_fields : List EventField → List Subscription.EventField
subscription_fields [] = []
subscription_fields (f ∷ fs) =
    record {
      qualified_name = elim f.qualified_name [ none ↦ [] | some q ↦ q ];
      has_exception = f.has_exception;
    }
    ∷ subscription_fields fs

abbrev pub FieldMap : Type 0
FieldMap = List (UaNodeId × List EventField)

unfoldable pub subscription_map : FieldMap → List (UaNodeId × List Subscription.EventField)
unfolding subscription_fields
subscription_map [] = []
subscription_map ((n, fs) ∷ m) = (n, subscription_fields fs) ∷ subscription_map m

-- The nodes that can be added, the fields of the event types, and whether there is an exception.
pub record Gathered (Value : Type 0) : Type 0 where
  pub valid : List (NodeAttributes Value)
  pub event_fields : FieldMap
  pub has_exception : Bool

abbrev pub nothing : {Value : Type 0} → Gathered Value
nothing = record { valid = []; event_fields = []; has_exception = false }

module _ {Value : Type 0} where
  unfoldable pub subscription_attributes :
      List (NodeAttributes Value) → List Subscription.NodeAttributes
  unfolding is_object_type
  subscription_attributes [] = []
  subscription_attributes (a ∷ rest) =
      record {
        node_id = a.node_id;
        is_object_type = elim a.node_class [ none ↦ false | some c ↦ is_object_type c ];
      }
      ∷ subscription_attributes rest

  module _ (same : UaNodeId → UaNodeId → Bool) (s : UaSession Value) (depth : ℕ) where
    unfoldable pub node_fields : NodeAttributes Value → Result (Option (List EventField))
    unfolding get_event_fields unless_failed is_object_type
    node_fields a = if a.has_exception then throws bad_node else elim a.node_class [
      | none ↦ undefined
      | some c ↦
          if is_object_type c
          then get_event_fields same s depth a.node_id [] >>= unless_failed
          else ok none
    ]

    unfoldable pub gather_node :
        NodeAttributes Value
        → Result (Option (List EventField))
        → Gathered Value
        → Result (Gathered Value)
    unfolding assign
    gather_node a undefined g = undefined
    gather_node a (throws e) g = ok (record g { has_exception = true })
    gather_node a (ok none) g = ok (record g { valid = g.valid ++ a ∷ [] })
    gather_node a (ok (some fs)) g = ok (record g {
      valid = g.valid ++ a ∷ [];
      event_fields = assign same a.node_id fs g.event_fields;
    })

    unfoldable pub gather : List (NodeAttributes Value) → Gathered Value → Result (Gathered Value)
    unfolding node_fields gather_node
    gather [] g = ok g
    gather (a ∷ rest) g = gather_node a (node_fields a) g >>= gather rest

  -- The end of the method: an exception leaves what was added.
  unfoldable pub finish_subscribe :
      List (NodeAttributes Value)
      → Gathered Value
      → Outcome (Unit {0})
      → Outcome (List (NodeAttributes Value) × FieldMap)
  finish_subscribe attrs g stuck = stuck
  finish_subscribe attrs g (thrown e s) = thrown cannot_add s
  finish_subscribe attrs g (returned u s) =
      if g.has_exception then thrown cannot_add s else returned (attrs, g.event_fields) s

  module _ (same : UaNodeId → UaNodeId → Bool) (srv : Subscription.Server) where
    unfoldable pub add_valid : List (NodeAttributes Value) → FieldMap → State → Outcome (Unit {0})
    unfolding kept add subscription_attributes subscription_map
    add_valid [] m s = returned tt s
    add_valid (a ∷ valid) m s = elim s.subscription [
      | null ↦ stuck
      | dangling ↦ stuck
      | live t ↦
          kept same srv s
            (add same srv (subscription_attributes (a ∷ valid)) (subscription_map m) t)
    ]

    unfoldable pub subscribe_gathered :
        List (NodeAttributes Value)
        → State
        → Result (Gathered Value)
        → Outcome (List (NodeAttributes Value) × FieldMap)
    unfolding finish_subscribe add_valid
    subscribe_gathered attrs s undefined = stuck
    subscribe_gathered attrs s (throws e) = thrown e s
    subscribe_gathered attrs s (ok g) =
        finish_subscribe attrs g (add_valid g.valid g.event_fields s)

    unfoldable pub subscribe_read :
        UaSession Value
        → ℕ
        → State
        → Result (List (NodeAttributes Value))
        → Outcome (List (NodeAttributes Value) × FieldMap)
    unfolding gather subscribe_gathered
    subscribe_read u depth s undefined = stuck
    subscribe_read u depth s (throws e) = thrown e s
    subscribe_read u depth s (ok attrs) =
        subscribe_gathered attrs s (gather same u depth attrs nothing)

    unfoldable pub subscribe :
        UaSession Value
        → ℕ
        → List UaNodeId
        → State
        → Outcome (List (NodeAttributes Value) × FieldMap)
    unfolding subscribe_read read
    subscribe u depth ns s =
        if s.is_open
        then subscribe_read u depth s (read same (some u) ns)
        else thrown closed_session s
