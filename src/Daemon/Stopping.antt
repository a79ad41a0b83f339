-- ===== src/Daemon/Stopping.antt =====
-- stop.go and running.go: the request to stop a daemon, and the wait for its end.
use mnemonic.Prelude.{
  ℕ, zero, suc, ◌+◌, ◌*◌, ◌/◌, ◌≤◌, ◌<◌, String, Bool, true, false, ◌&&◌, ◌||◌, Option, none, some,
  ◌≡◌, ◌∙◌, ◌⊎◌, refl, ◌==◌, arith, ltb, nat_eq, Bool-cases, inl, inr, if◌then◌else◌,
}
use mnemonic.Store.Entry.{Result, ok, err, wrapped, external}

-- What the machine does during a call. `socket` and `tcp` tell whether the n-th look at a transport
-- connects, and `clock` is the time after it. A request is answered by a status code.
pub record StopEnv : Type 0 where
  pub server_addr : String
  pub timeout : ℕ
  pub socket_found : Bool
  pub tcp_found : Bool
  pub post_socket : Result ℕ
  pub post_tcp : Result ℕ
  pub start : ℕ
  pub socket : ℕ → Bool
  pub tcp : ℕ → Bool
  pub clock : ℕ → ℕ

unfoldable pub send_shutdown : Result ℕ → Result (Unit {0})
send_shutdown (err x) = err (wrapped "sending shutdown request" x)
send_shutdown (ok code) =
    if nat_eq code 202 then ok tt else err (external "unexpected status from daemon")

unfoldable pub is_tcp_running : StopEnv → Bool → Bool
is_tcp_running env connects = if env.server_addr == "" then false else connects

-- 100 milliseconds
abbrev pub pause : ℕ
pause = 100000000

-- The loop of `waitForStop` from its n-th round; `none` is a run that is out of fuel.
unfoldable pub wait_from : StopEnv → ℕ → ℕ → Option (Bool × Bool)
unfolding is_tcp_running
wait_from env zero n = none
wait_from env (suc fuel) n = elim (env.socket n || is_tcp_running env (env.tcp n)) [
  | false ↦ some (false, false)
  | true ↦ elim (ltb (env.start + env.timeout) (env.clock n)) [
    | true ↦ some (env.socket n, is_tcp_running env (env.tcp n))
    | false ↦ wait_from env fuel (suc n)
  ]
]

-- One round for each pause in the timeout, and two more.
unfoldable pub wait_for_stop : StopEnv → Option (Bool × Bool)
unfolding wait_from
wait_for_stop env = wait_from env (suc (suc (env.timeout / pause))) 0

unfoldable pub was_sent : Bool → Result ℕ → Bool
unfolding send_shutdown
was_sent found reply = found && elim (send_shutdown reply) [ ok _ ↦ true | err _ ↦ false ]

unfoldable pub request_stop : StopEnv → Option (Result (Unit {0}))
unfolding was_sent wait_for_stop is_tcp_running
request_stop env =
    if was_sent env.socket_found env.post_socket
      || was_sent (is_tcp_running env env.tcp_found) env.post_tcp
    then elim (wait_for_stop env) [ none ↦ none | some _ ↦ some (ok tt) ]
    else some (err (external "daemon does not appear to be running"))

-- How a wait ends in its k-th round: both transports are gone, or the time is over.
pub record Ends (env : StopEnv) (k : ℕ) (answer : Bool × Bool) : Type 0 where
  pub seen : answer ≡ (env.socket k, is_tcp_running env (env.tcp k))
  pub over : ((answer.0 || answer.1) ≡ false) ⊎ (env.start + env.timeout < env.clock k)

module _ (env : StopEnv) (sleeps : (n : ℕ) → env.clock n + pause ≤ env.clock (suc n)) where
  abbrev EndsWithin : ℕ → ℕ → ℕ → Type 0
  EndsWithin rounds fuel n =
      (k : ℕ) × (k ≤ rounds)
      × (answer : Bool × Bool) × (wait_from env fuel n ≡ some answer)
      × Ends env k answer

  -- One round ends the wait or leads to the next, before the time is over.
  round :
      (fuel n : ℕ)
      → EndsWithin n (suc fuel) n
        ⊎ ((env.clock n ≤ env.start + env.timeout)
            × (wait_from env (suc fuel) n ≡ wait_from env fuel (suc n)))
  unfolding wait_from
  round fuel n = elim (Bool-cases (env.socket n || is_tcp_running env (env.tcp n))) [
    | inr gone ↦ inl (
      n,
      ground arith,
      (false, false),
      rw (gone, wait_from) refl,
      record { seen = ground arith; over = inl refl },
    )
    | inl there ↦ elim (Bool-cases (ltb (env.start + env.timeout) (env.clock n))) [
      | inl late ↦ inl (
        n,
        ground arith,
        (env.socket n, is_tcp_running env (env.tcp n)),
        rw (there, wait_from, late) refl,
        record { seen = refl; over = inr (ground arith) },
      )
      | inr early ↦ inr (ground arith, rw (there, wait_from, early) refl)
    ]
  ]

  wait_from-Ends :
      (fuel n : ℕ)
      → env.start + env.timeout < env.clock n + pause * fuel
      → EndsWithin (n + fuel) (suc fuel) n
  wait_from-Ends zero n h = elim (round zero n) [
    | inl (k, b, answer, p, e) ↦ (k, ground arith, answer, p, e)
    | inr (early, next) ↦ absurd (ground arith)
  ]
  wait_from-Ends (suc f) n h = elim (round (suc f) n) [
    | inl (k, b, answer, p, e) ↦ (k, ground arith, answer, p, e)
    | inr (early, next) ↦
        let (k, b, answer, p, e) = wait_from-Ends f (suc n) (ground (arith, sleeps n)) in
        (k, ground arith, answer, next ∙ p, e)
  ]

  -- Where each round of the wait takes at least the 100 milliseconds of its pause and the clock
  -- does not run back, waiting for a daemon to stop ends after at most one round for each pause of
  -- the timeout and two more: it answers what its last round has seen, and then both transports are
  -- gone or the timeout is over.
  pub wait_for_stop-Ends :
      env.start ≤ env.clock 0
      → (k : ℕ) × (k ≤ suc (env.timeout / pause))
        × (answer : Bool × Bool) × (wait_for_stop env ≡ some answer)
        × Ends env k answer
  unfolding wait_for_stop
  wait_for_stop-Ends h =
      let (k, b, answer, p, e) = wait_from-Ends (suc (env.timeout / pause)) 0 (ground arith) in
      (k, ground arith, answer, p, e)

  -- A request to stop ends, and it is an error exactly when no transport has accepted it: what is
  -- still reachable after the wait is not.
  pub request_stop_lem :
      env.start ≤ env.clock 0
      → request_stop env
        ≡ some (
            if was_sent env.socket_found env.post_socket
              || was_sent (is_tcp_running env env.tcp_found) env.post_tcp
            then ok tt
            else err (external "daemon does not appear to be running"))
  unfolding request_stop
  request_stop_lem h = let (k, b, answer, p, e) = wait_for_stop-Ends h in ground (arith, p)
