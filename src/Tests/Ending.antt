-- ===== src/Tests/Ending.antt =====
-- The end of the bridge's run and its timeouts (integration-bridge/cmd/integrationbridge), on small
-- inputs.
use fabric_hris.Prelude.{ℕ, ◌+◌, ◌^◌, ◌<◌, Text, text, ◌≡◌, ◌↔◌, false, some, List, [], ◌∷◌}
use fabric_hris.Errors.{external, ok, err}
use fabric_hris.Exec.{Exec}
use fabric_hris.Bridge.Process.Shutdown.{
  signalled, new_once_closer, shutdown_sequence, close_times, end_run, end_run-once,
}
use fabric_hris.Bridge.Process.Timeouts.{
  write_timeout_buffer, resolve_dispatch_timeout, server_write_timeout,
  server_write_timeout-exceeds_iff,
}

-- The calls that were made, the last one first; the server's shutdown runs out of time.
abbrev shutdown : Exec (List Text) (Unit {0})
shutdown calls = (err (external (text "deadline")), text "shutdown" ∷ calls)

abbrev close : Exec (List Text) (Unit {0})
close calls = (ok tt, text "close" ∷ calls)

end_run-once_example :
    (close_times
      (shutdown_sequence shutdown close)
      2
      (end_run shutdown close (λ e. false) signalled (new_once_closer, [])).1).1
    ≡ text "close" ∷ text "shutdown" ∷ []
end_run-once_example = end_run-once shutdown close (λ e. false) signalled [] 2 tt

-- BRIDGE_DISPATCH_TIMEOUT=5s
abbrev resolved : ℕ
resolved = resolve_dispatch_timeout (λ t. t) (λ t. some 5000000000) (λ t. text "5s")

server_write_timeout-exceeds_iff_example :
    (0 < resolved)
    × (resolved < 2 ^ 63)
    × (((resolved < server_write_timeout resolved) × (server_write_timeout resolved < 2 ^ 63))
        ↔ (resolved + write_timeout_buffer < 2 ^ 63))
server_write_timeout-exceeds_iff_example =
    server_write_timeout-exceeds_iff (λ t. t) (λ t. some 5000000000) (λ t. text "5s")
