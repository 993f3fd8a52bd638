-- ===== src/Common/LoggerFactory/Tests.antt =====
-- The registry after a concrete history.
use opc_ua_server.Prelude.{◌≡◌, refl, none, some, List, ◌∷◌, []}
use opc_ua_server.Common.LoggerFactory.{initial, run, Call, constructs, destructs}
use opc_ua_server.Common.LoggerFactory.Stack.{run-initial}

-- The second of three factories goes first, then the third.
abbrev history : List Call
history =
    constructs 1
    ∷ constructs 2
    ∷ constructs 3
    ∷ constructs 4
    ∷ destructs 2
    ∷ destructs 4
    ∷ destructs 3
    ∷ []

run-initial_example : run initial history ≡ some (record { active = some 1; previous = none })
run-initial_example = run-initial history (refl, (refl, (refl, (refl, (refl, (refl, (refl, tt)))))))
