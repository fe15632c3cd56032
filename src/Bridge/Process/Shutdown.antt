-- ===== src/Bridge/Process/Shutdown.antt =====
-- cmd/integrationbridge: shutdown.go, and closeBoth, shutdownSequence and the end of run of main.go.
-- `S` is the state of the HTTP server and of the gateway connection. What errors.Join makes of
-- errors is the list of those that are not nil; it is nil where there are none.
use fabric_hris.Prelude.{
  ℕ, zero, suc, ap, ◌≡◌, refl, Bool, true, false, Option, none, some, List, [], ◌∷◌, ◌++◌,
  if◌then◌else◌,
}
use fabric_hris.Errors.{GoError, Result, ok, err}
use fabric_hris.Exec.{Exec}

abbrev error_of : Result (Unit {0}) → List GoError
error_of (ok u) = []
error_of (err e) = e ∷ []

-- A Close, with what it returned.
abbrev pub Close : Type 0 → Type 0
Close S = S → List GoError × S

-- onceCloser: whether once has run, and the error that was kept.
pub record OnceCloser : Type 0 where
  pub ran : Bool
  pub kept : List GoError

abbrev pub new_once_closer : OnceCloser
new_once_closer = record { ran = false; kept = [] }

-- The case of select that run takes: the server's error came in, or the context is done.
pub data Event : Type 0 where
  served : Option GoError → Event
  signalled : Event

-- What run returns: nil, the joined errors of a shutdown, or the server's error joined with them.
pub data Ending : Type 0 where
  quiet : Ending
  shut_down : List GoError → Ending
  server_failed : GoError → List GoError → Ending

module _ {S : Type 0} where
  unfoldable pub close_both : Exec S (Unit {0}) → Exec S (Unit {0}) → Close S
  close_both a b s =
      let (first, s1) = a s in let (second, s2) = b s1 in (error_of first ++ error_of second, s2)

  abbrev pub kept_of : List GoError × S → List GoError × (OnceCloser × S)
  kept_of (errors, s) = (errors, (record { ran = true; kept = errors }, s))

  unfoldable pub once_close : Close S → Close (OnceCloser × S)
  once_close inner (o, s) = if o.ran then (o.kept, (o, s)) else kept_of (inner s)

  -- `n` calls of Close, one after another.
  unfoldable pub close_times : Close S → ℕ → OnceCloser × S → OnceCloser × S
  unfolding once_close
  close_times inner zero s = s
  close_times inner (suc n) s = close_times inner n (once_close inner s).1

  close_times-ran :
      (inner : Close S) (n : ℕ) (errors : List GoError) (s : S)
      → close_times inner n (record { ran = true; kept = errors }, s)
        ≡ (record { ran = true; kept = errors }, s)
  unfolding close_times
  close_times-ran inner zero errors s = refl
  close_times-ran inner (suc n) errors s = close_times-ran inner n errors s

-- The server's Shutdown, with its ten seconds, and the gateway's Close.
module _ {S : Type 0} (shutdown_server close_gateway : Exec S (Unit {0})) where
  -- shutdownSequence.Close
  abbrev pub shutdown_sequence : Close S
  shutdown_sequence = close_both shutdown_server close_gateway

  -- errors.Is(e, http.ErrServerClosed)
  module _ (server_closed : GoError → Bool) where
    -- The end of run.
    unfoldable pub end_run : Event → OnceCloser × S → Ending × (OnceCloser × S)
    unfolding close_both once_close
    end_run (served none) s = (quiet, s)
    end_run (served (some e)) s =
        if server_closed e
        then (quiet, s)
        else (let (errors, s') = once_close shutdown_sequence s in (server_failed e errors, s'))
    end_run signalled s =
        let (errors, s') = once_close shutdown_sequence s in (shut_down errors, s')

    -- The ends at which run closes: all but that of a server that ended by itself.
    abbrev pub Closes : Event → Type 0
    Closes (served none) = ⊥
    Closes (served (some e)) = server_closed e ≡ false
    Closes signalled = Unit {0}

    -- At a signal, or when the server fails, the server is shut down and then the gateway is closed,
    -- also where the shutdown failed; and however often Close is called after that, neither runs
    -- again.
    pub end_run-once :
        (event : Event) (s : S) (n : ℕ)
        → Closes event
        → (close_times shutdown_sequence n (end_run event (new_once_closer, s)).1).1
          ≡ (close_gateway (shutdown_server s).1).1
    unfolding end_run close_times
    end_run-once (served none) s n h = absurd h
    end_run-once signalled s n h =
        ap (λ x. x.1)
          (close_times-ran shutdown_sequence n (shutdown_sequence s).0 (shutdown_sequence s).1)
    end_run-once (served (some e)) s n h = rw (h) (
        ap (λ x. x.1)
          (close_times-ran shutdown_sequence n (shutdown_sequence s).0 (shutdown_sequence s).1))
