-- ===== src/Tests/Rootless.antt =====
-- A user without the rights of root, and interrupts around the command exec.
use buildg.Prelude.{◌≡◌, refl, ◌⊎◌, true, false, List, [], ◌∷◌, ◌++◌, none, some, arith}
use buildg.Text.{codes}
use buildg.Errors.{message, ok}
use buildg.Container.{watch, cancel_watch}
use buildg.Shell.Exec.{use_stdin, done_stdin, disable_signals, enable_signals, container, around}
use buildg.Shell.Interrupts.{
  Interrupts, Moment, step, caught, interrupt, terminate, moment, moments,
}
use buildg.Shell.Interrupts.Passed.{steps_of, exec-interrupts}
use buildg.Main.Rootless.{
  Process, Exec, replaced, exits, missing, found, before, prepare_rootless_child,
}
use buildg.Main.Rootless.Replaced.{RunsUnder, before-RunsUnder}

abbrev user : Process
user = record {
  euid = 1000;
  os_args = codes "buildg" ∷ codes "du" ∷ [];
  environ = codes "HOME=/home/u" ∷ [];
  getenv = λ n. [];
  in_user_ns = false;
  rootlesskit_args = [];
  look_path = λ n. ok (codes "/usr/bin/rootlesskit");
  unmarshal = λ t. ([], none);
  exec_failure = none;
  first_stat = missing;
  second_stat = missing;
  missing_error = message (codes "no such file");
  remove_failure = none;
}

before-RunsUnder_example :
    (before user ≡ exits) ⊎ ((x : Exec) × (before user ≡ replaced x) × RunsUnder user x)
before-RunsUnder_example = before-RunsUnder user (omega arith)

-- the child that rootlesskit has started, with a copy of /run/runc that cannot be removed
abbrev child : Process
child = record user {
  euid = 0;
  getenv = λ n. codes "1";
  in_user_ns = true;
  first_stat = found true;
  second_stat = found true;
  remove_failure = some (message (codes "permission denied"));
}

failed_child : before child ≡ exits
unfolding before prepare_rootless_child
failed_child = refl

abbrev quiet : Interrupts
quiet = record { enabled = true; canceled = false; watched = none; killed = false; passed = [] }

abbrev middle : List Moment
middle =
    step (container watch)
    ∷ caught terminate
    ∷ caught interrupt
    ∷ step (container cancel_watch)
    ∷ caught interrupt
    ∷ []

exec-interrupts_example :
    (let all =
        step use_stdin
        ∷ step disable_signals
        ∷ (middle ++ step enable_signals ∷ step done_stdin ∷ []) in
      let r = moments (some (ok (80, 24))) 7 all quiet in
      (steps_of all ≡ (around (none, watch ∷ cancel_watch ∷ [])).1)
      × (r.canceled ≡ false)
      × (r.killed ≡ false)
      × (r.killed ≡ false → (moment (some (ok (80, 24))) 7 (caught interrupt) r).canceled ≡ true))
exec-interrupts_example =
    exec-interrupts (some (ok (80, 24))) 7 (none, watch ∷ cancel_watch ∷ []) middle quiet refl refl
