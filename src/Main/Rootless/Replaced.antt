-- ===== src/Main/Rootless/Replaced.antt =====
-- A process without the rights of root.
use buildg.Prelude.{
  ◌≡◌, ◌≢◌, refl, ap, ◌⊎◌, inl, inr, Bool, true, false, not, List, [], ◌∷◌, ◌++◌, Option, none,
  some, In, In-append_right, ◌==◌, nat_eq, nat_beq_iff, Bool-cases, if◌then◌else◌,
}
use buildg.Text.{Text, codes}
use buildg.Errors.{Error, Result, ok, err}
use buildg.Main.Rootless.{
  Process, Exec, Beginning, replaced, exits, or_default, enabled_mark, given_args, exec_rootlesskit,
  reexec_rootless, exec_process, reexecuted, before,
}

-- what a program takes for its arguments: all but its own name
abbrev pub arguments : List Text → List Text
arguments [] = []
arguments (name ∷ args) = args

-- Rootlesskit runs this command line with the mark, and takes its options but the first, and then the command line of
-- this process.
abbrev pub RunsUnder : Process → Exec → Type 0
RunsUnder P e =
    In enabled_mark e.env
    × (name : Text) × (options : List Text) × (or_default (given_args P) ≡ name ∷ options)
    × (arguments e.argv ≡ options ++ P.os_args)

or_default-cases :
    (l : List Text) → (name : Text) × (options : List Text) × (or_default l ≡ name ∷ options)
or_default-cases [] = (_, _, refl)
or_default-cases (a ∷ rest) = (a, rest, refl)

module _ (P : Process) where
  reexecuted-RunsUnder :
      (path : Text) (f : Option Error)
      → let e : Exec = record {
        path = path;
        argv = or_default (given_args P) ++ P.os_args;
        env = P.environ ++ enabled_mark ∷ [];
      } in
        (exec_process P f e ≡ exits)
        ⊎ ((x : Exec) × (exec_process P f e ≡ replaced x) × RunsUnder P x)
  reexecuted-RunsUnder path (some f) = inl refl
  reexecuted-RunsUnder path none =
      let (name, options, q) = or_default-cases (given_args P) in
      inr (
        _,
        refl,
        (
          In-append_right enabled_mark P.environ (enabled_mark ∷ []) (inl refl),
          name,
          options,
          q,
          ap (λ l. arguments (l ++ P.os_args)) q,
        ),
      )

  found-RunsUnder :
      (r : Result Text)
      → (reexecuted P (exec_rootlesskit P r) ≡ exits)
        ⊎ ((x : Exec) × (reexecuted P (exec_rootlesskit P r) ≡ replaced x) × RunsUnder P x)
  found-RunsUnder (err e) = inl refl
  found-RunsUnder (ok path) = reexecuted-RunsUnder path P.exec_failure

  if-RunsUnder :
      (is_root : Bool) (x y : Beginning)
      → is_root ≡ false
      → ((x ≡ exits) ⊎ ((e : Exec) × (x ≡ replaced e) × RunsUnder P e))
      → ((if not is_root then x else y) ≡ exits)
        ⊎ ((e : Exec) × ((if not is_root then x else y) ≡ replaced e) × RunsUnder P e)
  if-RunsUnder true x y e h = absurd (cc e)
  if-RunsUnder false x y e h = h

  -- A process that is not root never runs a command: it exits, or it is replaced by rootlesskit, with the mark in its environment,
  -- that takes for its arguments all options but the first, those of --rootlesskit-args or else the default ones, and then the
  -- command line of this process.
  pub before-RunsUnder :
      P.euid ≢ 0 → (before P ≡ exits) ⊎ ((x : Exec) × (before P ≡ replaced x) × RunsUnder P x)
  unfolding before reexec_rootless
  before-RunsUnder n = elim (Bool-cases (P.euid == 0)) [
    | inl e ↦ absurd (n ((nat_beq_iff P.euid 0).0 e))
    | inr e ↦ if-RunsUnder (P.euid == 0) _ _ e (found-RunsUnder (P.look_path (codes "rootlesskit")))
  ]
