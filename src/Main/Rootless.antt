-- ===== src/Main/Rootless.antt =====
-- main.go: what is done before a command, when the user is not root or buildg runs under rootlesskit.
pub mod Replaced
use buildg.Prelude.{
  ℕ, zero, suc, Bool, true, false, not, ◌&&◌, List, [], ◌∷◌, ◌++◌, Option, none, some, ◌==◌, nat_eq,
  if◌then◌else◌,
}
use buildg.Text.{Text, codes, text_eq}
use buildg.Errors.{Error, described, unexpected_mode, Result, ok, err}

-- os.Lstat of a file: no such file, another error, or whether it is a symbolic link.
pub data Stat : Type 0 where
  missing : Stat
  stat_failed : Error → Stat
  found : Bool → Stat

-- The process, its environment, and what it asks; json.Unmarshal leaves what it has read and an error.
pub record Process : Type 0 where
  pub euid : ℕ
  pub os_args : List Text
  pub environ : List Text
  pub getenv : Text → Text
  pub in_user_ns : Bool
  pub rootlesskit_args : Text
  pub look_path : Text → Result Text
  pub unmarshal : Text → List Text × Option Error
  pub exec_failure : Option Error
  pub first_stat : Stat
  pub second_stat : Stat
  pub missing_error : Error
  pub remove_failure : Option Error

-- syscall.Exec of a path, with argv and the environment, unless it fails
pub record Exec : Type 0 where
  pub path : Text
  pub argv : List Text
  pub env : List Text

pub data Beginning : Type 0 where
  replaced : Exec → Beginning
  exits : Beginning
  runs : Beginning

abbrev pub default_args : List Text
default_args =
    codes "--net=slirp4netns"
    ∷ codes "--copy-up=/etc"
    ∷ codes "--copy-up=/run"
    ∷ codes "--disable-host-loopback"
    ∷ []

abbrev pub or_default : List Text → List Text
or_default [] = default_args
or_default (a ∷ rest) = a ∷ rest

abbrev pub enabled_mark : Text
enabled_mark = codes "_BUILDG_ROOTLESSKIT_ENABLED=1"

module _ (P : Process) where
  -- The error of json.Unmarshal is dropped.
  abbrev pub given_args : List Text
  given_args = if P.rootlesskit_args == [] then [] else (P.unmarshal P.rootlesskit_args).0

  abbrev pub exec_rootlesskit : Result Text → Result Exec
  exec_rootlesskit (err e) = err e
  exec_rootlesskit (ok arg0) = ok (record {
    path = arg0;
    argv = or_default given_args ++ P.os_args;
    env = P.environ ++ enabled_mark ∷ [];
  })

  unfoldable pub reexec_rootless : Result Exec
  reexec_rootless = exec_rootlesskit (P.look_path (codes "rootlesskit"))

  abbrev pub remove_runc : Option Error → Result (Unit {0})
  remove_runc none = ok tt
  remove_runc (some e) = err e

  abbrev pub second_look : Stat → Result (Unit {0})
  second_look missing = err (described (codes "failed to stat runc root") P.missing_error)
  second_look (stat_failed e) = err (described (codes "failed to stat runc root") e)
  second_look (found false) = err unexpected_mode
  second_look (found true) = remove_runc P.remove_failure

  abbrev pub first_look : Stat → Result (Unit {0})
  first_look missing = ok tt
  first_look (stat_failed e) = err e
  first_look (found is_link) = second_look P.second_stat

  -- the symbolic link /run/runc that rootlesskit has made is removed
  unfoldable pub prepare_rootless_child : Result (Unit {0})
  prepare_rootless_child = first_look P.first_stat

  abbrev pub exec_process : Option Error → Exec → Beginning
  exec_process none e = replaced e
  exec_process (some f) e = exits

  abbrev pub reexecuted : Result Exec → Beginning
  reexecuted (err e) = exits
  reexecuted (ok e) = exec_process P.exec_failure e

  abbrev pub prepared : Result (Unit {0}) → Beginning
  prepared (err e) = exits
  prepared (ok u) = runs

  abbrev pub is_child : Bool
  is_child =
      P.in_user_ns
      && (not (P.getenv (codes "ROOTLESSKIT_STATE_DIR") == [])
          && not (P.getenv (codes "_BUILDG_ROOTLESSKIT_ENABLED") == []))

  -- app.Before
  unfoldable pub before : Beginning
  unfolding reexec_rootless prepare_rootless_child
  before =
      if not (P.euid == 0)
      then reexecuted reexec_rootless
      else if is_child
      then prepared prepare_rootless_child
      else runs
