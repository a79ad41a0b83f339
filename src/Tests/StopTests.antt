-- ===== src/Tests/StopTests.antt =====
-- Stopping and watching a daemon at concrete inputs.
use mnemonic.Prelude.{
  ℕ, suc, ◌+◌, ◌*◌, ◌/◌, ◌≤◌, Bool, true, false, ◌||◌, [], ◌∷◌, some, ◌≡◌, refl, any, arith, ltb,
}
use mnemonic.Store.Entry.{ok}
use mnemonic.Daemon.Stopping.{StopEnv, Ends, pause, wait_for_stop, wait_for_stop-Ends}
use mnemonic.Daemon.Watching.{
  unreachable, answered, watch_daemon, is_down, starts, differ, watch_daemon_lem,
}

-- A daemon whose socket is gone after three looks, while the timeout is a second.
abbrev env : StopEnv
env = record {
  server_addr = "";
  timeout = 1000000000;
  socket_found = true;
  tcp_found = false;
  post_socket = ok 202;
  post_tcp = ok 202;
  start = 5;
  socket = λ n. ltb n 3;
  tcp = λ n. true;
  clock = λ n. 5 + n * pause;
}

stopped : wait_for_stop env ≡ some (false, false)
unfolding wait_for_stop
stopped = refl

-- One that stays is still there when the time is over.
stays : wait_for_stop (record env { socket = λ n. true }) ≡ some (true, false)
unfolding wait_for_stop
stays = refl

wait_for_stop-Ends_example :
    (k : ℕ) × (k ≤ suc (1000000000 / pause))
    × (answer : Bool × Bool) × (wait_for_stop env ≡ some answer)
    × Ends env k answer
wait_for_stop-Ends_example = wait_for_stop-Ends env (λ n. ground arith) (ground arith)

watch_daemon_lem_example :
    let replies = answered 200 (some 7) ∷ answered 200 (some 8) ∷ unreachable ∷ [] in
    watch_daemon replies ≡ (any is_down replies || differ (starts replies))
watch_daemon_lem_example =
    watch_daemon_lem (answered 200 (some 7) ∷ answered 200 (some 8) ∷ unreachable ∷ [])
