-- ===== src/Containerd/Exits.antt =====
-- Which ends of a sandbox's process are reported to the control plane: process_monitor.go of
-- internal/worker_node/managers and WatchExitChannel of
-- internal/worker_node/sandbox/containerd/iface.go.
use dirigent.Prelude.{
  ℕ, ◌+◌, ◌%◌, ◌<◌, ◌≡◌, ◌≢◌, ◌↔◌, String, [], ◌∷◌, ◌++◌, none, some, arith, ℕ_discrete,
}
use dirigent.Prelude.Maps.{lookup}
use dirigent.Managers.{ProcessMonitor, exit, handle_events, extract_exit_code}
use dirigent.Containerd.{watch_exit_channel}

-- The end of a process with a channel is sent to it, and reported just if the process was not killed
-- by the signal 9, as sandboxes are by their deletion.
pub watch_exit_channel-handle_events :
    (pid code ch : ℕ) (service id : String) (pm : ProcessMonitor)
    → code < 4_294_967_296
    → lookup ℕ_discrete pid pm.notify_channels ≡ some ch
    → (sent : ℕ) × (((handle_events (exit pid code ∷ []) pm).sent ≡ pm.sent ++ (ch, sent) ∷ [])
        × ((watch_exit_channel sent service id ≡ none ↔ code ≡ 9)
            × (watch_exit_channel sent service id ≡ some (service, id) ↔ code ≢ 9)))
unfolding handle_events extract_exit_code watch_exit_channel
watch_exit_channel-handle_events pid code ch service id pm bound e = (
  (code + 128) % 4_294_967_296,
  (ground (arith, e), (ground (arith, bound), ground (arith, bound))),
)
