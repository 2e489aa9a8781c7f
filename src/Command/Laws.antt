-- ===== src/Command/Laws.antt =====
-- The order of the commands, and what a failure leaves undone.
use edgi_os.Base.{Bytes, List, [], ◌∷◌, ◌++◌, ◌≡◌, arith, inl, inr}
use edgi_os.Os.World.{Error, ok, err, World, for_each, ◌>>=◌}
use edgi_os.Os.Faults.{Outcome-cases}
use edgi_os.Command.{run_shell, execute_command}

-- The first command that fails ends the list: its error is the result, the state is the one it
-- left, and no later command counts.
pub execute_command-stops :
    (before after : List Bytes) (cmd : Bytes) (w v u : World) (e : Error)
    → execute_command before w ≡ (ok tt, v)
    → run_shell cmd v ≡ (err e, u)
    → execute_command (before ++ cmd ∷ after) w ≡ (err e, u)
unfolding execute_command for_each ◌>>=◌
execute_command-stops [] after cmd w v u e h k = ground arith
execute_command-stops (c ∷ before) after cmd w v u e h k = elim (Outcome-cases (run_shell c w)) [
  | inl (_, x, ran_ok) ↦
      rw ran_ok (execute_command-stops before after cmd x v u e (rw ran_ok at h) k)
  | inr (f, x, failed) ↦ cc
]
