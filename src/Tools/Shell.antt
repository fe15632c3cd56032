-- ===== src/Tools/Shell.antt =====
-- What the tools of fabric-network run outside themselves: commands in the helper container.
use fabric_hris.Prelude.{Text, text, Bytes, List, [], ◌∷◌, ◌++◌}
use fabric_hris.Errors.{context, Result, ok, err}
use fabric_hris.Exec.{Exec, done, ◌>>=◌}

-- CombinedOutput: what a command printed, and whether it failed.
pub record Ran : Type 0 where
  pub output : Text
  pub outcome : Result (Unit {0})

-- docker exec fabric-tools-net, over the state `D` of the containers: a command with its arguments,
-- and the standard output of `cat` of a path.
pub record Docker (D : Type 0) : Type 0 where
  pub run : List Text → D → Ran × D
  pub cat : Text → Exec D Bytes

-- sh -c
abbrev pub shell : {D : Type 0} → Docker D → Text → D → Ran × D
shell docker command = docker.run (text "sh" ∷ text "-c" ∷ command ∷ [])

-- The texts with a space between them.
unfoldable pub spaced : List Text → Text
spaced [] = []
spaced (t ∷ []) = t
spaced (t ∷ (t' ∷ rest)) = t ++ (text " " ++ spaced (t' ∷ rest))

-- A step's name and its command.
abbrev pub Step : Type 0
Step = Text × Text

module _ {D : Type 0} (docker : Docker D) where
  -- must
  abbrev pub required : Text → Ran × D → Result Text × D
  required step (ran, d) = elim ran.outcome [
    | ok u ↦ (ok ran.output, d)
    | err e ↦ (err (context (text "FATAL at %s") (step ∷ []) e), d)
  ]

  unfoldable pub run_step : Step → Exec D Text
  run_step (step, command) d = required step (shell docker command d)

  -- A step whose output is not used.
  abbrev pub ran_step : Step → Exec D (Unit {0})
  ran_step s = do out ← run_step s; done tt
