-- ===== src/Tests/Testutil.antt =====
-- A shell of a test.
use buildg.Prelude.{◌≡◌, refl, true, false, [], ◌∷◌, none, some}
use buildg.Text.{Text, codes}
use buildg.Errors.{ok}
use buildg.Testutil.{Host, Started, with_options, with_env, apply_all, no_options, debug_shell_cmd}
use buildg.Testutil.Environ.{getenv_of, new_prompt}
use buildg.Testutil.Reading.{last_index, Tick, output, do_args}
use buildg.Testutil.Shells.{arguments, shell_prompt, debug_shell-answers}

abbrev host : Host
host = record {
  environ = codes "BUILDG_PS1=> " ∷ [];
  getenv = λ k. [];
  look_path = λ p. ok (codes "/bin/buildg");
  mkdir_temp = λ d p. ok (codes "/tmp/b");
}

abbrev started : Started
started = record {
  cmd = record {
    path = codes "/bin/buildg";
    args =
        codes "--root=/tmp/b"
        ∷ codes "--debug"
        ∷ codes "debug"
        ∷ codes "--image=a"
        ∷ codes "ctx"
        ∷ [];
    env = codes "BUILDG_PS1=> " ∷ codes "A=B" ∷ codes "BUILDG_PS1=id" ∷ [];
  };
  root_dir = codes "/tmp/b";
  is_temporary = true;
  prompt = codes "id";
}

abbrev part : Text → Tick
part t = record { got = t; read_error = none; wait_done = false }

debug_shell-answers_example :
    (started.cmd.args
      ≡ arguments
          (codes "ctx")
          (apply_all
            (with_options (codes "--image=a" ∷ []) ∷ with_env (codes "A=B" ∷ []) ∷ [])
            no_options)
          (codes "/tmp/b"))
    × (shell_prompt started ≡ codes "id")
    × (do_args
          (codes "id")
          (codes "list")
          none
          (part (codes "o") ∷ part (codes "ki") ∷ part (codes "d") ∷ [])
          []
        ≡ (some (output (codes "ok")), codes "list\n" ∷ []))
unfolding debug_shell_cmd with_options with_env new_prompt getenv_of last_index
debug_shell-answers_example =
    debug_shell-answers host (codes "id") (codes "ctx")
      (with_options (codes "--image=a" ∷ []) ∷ with_env (codes "A=B" ∷ []) ∷ []) started
      (codes "list") (codes "ok") (part (codes "o") ∷ part (codes "ki") ∷ []) (part (codes "d")) []
      [] refl refl (refl, refl, refl, (refl, refl, refl, tt)) refl refl
