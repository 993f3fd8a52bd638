-- ===== src/Session/Connection/Timing.antt =====
-- src/binaryServer/HaSession.cpp, the loop of open.
use opc_ua_server.Prelude.{
  ℕ, zero, suc, ◌+◌, ◌-◌, ◌≤◌, ◌<◌, ◌≡◌, refl, false, Option, some, ◌==◌, Bool-cases, inl, inr,
  arith,
}
use opc_ua_server.Session.Connection.{
  Configuration, Connect, Attempt, connected, timed_out, smaller, longer, try_connect,
  open_connection,
}

-- The time at which the loop ends.
abbrev pub time_of : Attempt → ℕ
time_of (connected t) = t
time_of (timed_out t) = t

-- connect returns within its limit of time.
abbrev pub KeepsLimit : Connect → Type 0
KeepsLimit connect = (i limit : ℕ) → (connect i limit).1 ≤ limit

-- It ends, no later than at a time.
abbrev pub EndsBy : ℕ → Option Attempt → Type 0
EndsBy end r = (a : Attempt) × (r ≡ some a) × (time_of a ≤ end)

module _ (conf : Configuration) (connect : Connect) where
  smaller-le : (a b : ℕ) → smaller a b ≤ b
  unfolding smaller
  smaller-le a b = ground arith

  -- The sleep is not empty while there is time left.
  sleep-pos :
      (delay rest : ℕ)
      → 0 < conf.max_reconnect_delay
      → 0 < rest
      → 0 < smaller (longer conf delay) rest
  unfolding smaller longer
  sleep-pos delay rest p r = ground arith

  rest_shrinks :
      (delay rest remaining n : ℕ)
      → 0 < conf.max_reconnect_delay
      → remaining < suc n
      → (remaining == 0) ≡ false
      → rest ≤ remaining
      → rest - smaller (longer conf delay) rest < n
  rest_shrinks delay zero remaining n p l z r = ground arith
  rest_shrinks delay (suc rest) remaining n p l z r =
      let s = sleep-pos delay (suc rest) p (omega arith) in omega arith

  try_connect-EndsBy :
      (end n i now delay remaining : ℕ)
      → 0 < conf.max_reconnect_delay
      → KeepsLimit connect
      → remaining < n
      → now + remaining ≡ end
      → EndsBy end (try_connect conf connect end n i now delay remaining)
  unfolding try_connect
  try_connect-EndsBy end zero i now delay remaining p k l e = absurd (omega arith)
  try_connect-EndsBy end (suc n) i now delay remaining p k l e =
      elim (Bool-cases (remaining == 0)) [
        | inl z ↦ rw (try_connect, z) (timed_out now, refl, omega arith)
        | inr z ↦
            let t = (connect i remaining).1 in
            let rest = end - (now + t) in
            let sleep = smaller (longer conf delay) rest in
            let within : t ≤ remaining = k i remaining in
            let most : sleep ≤ rest = smaller-le (longer conf delay) rest in
            let less : rest - sleep < n = rest_shrinks delay rest remaining n p l z (omega arith) in
            let (a, f, b) =
              try_connect-EndsBy end n (suc i) (now + t + sleep) sleep (rest - sleep) p k less
                (omega arith) in
            elim (Bool-cases (connect i remaining).0) [
              | inl g ↦ rw (try_connect, z, g) (connected (now + t), refl, omega arith)
              | inr g ↦ rw (try_connect, z, g) (a, f, b)
            ]
      ]

-- If there is a positive longest delay, connect keeps its limit and nanosleep sleeps in full, the loop of open
-- ends within one turn more than the seconds of the time-out, connected or timed out, and no later than the
-- time-out after its begin.
pub open_connection-EndsBy :
    (conf : Configuration) (connect : Connect) (now : ℕ)
    → 0 < conf.max_reconnect_delay
    → KeepsLimit connect
    → EndsBy
        (now + conf.connect_timeout)
        (open_connection conf connect (suc conf.connect_timeout) now)
unfolding open_connection
open_connection-EndsBy conf connect now p k =
    try_connect-EndsBy conf connect (now + conf.connect_timeout) (suc conf.connect_timeout) 0 now 0
      conf.connect_timeout p k (omega arith) refl
