-- ===== src/Tests/Container.antt =====
-- pkg/buildkit/exec.go at a failed RUN instruction with one mount.
use buildg.Prelude.{ℕ, ◌≡◌, refl, true, false, List, [], ◌∷◌, none, some, arith}
use buildg.Text.{codes}
use buildg.Errors.{no_rootfs_mount, message, Result, err}
use buildg.Types.{exec_op}
use buildg.Container.{Gateway, ContainerConfig, Effect, exec_container, mounts_of}
use buildg.Container.Cleanups.{IsClean, exec_container-IsClean}
use buildg.Tests.Breakpoints.{status}
use buildg.Tests.Controller.{run}

-- containers are created, and nothing starts in them
abbrev pub idle : Gateway
idle = record {
  net_none = 2;
  sandbox = 0;
  bind = 0;
  unset = 0;
  new_container = λ r. none;
  start_process = λ r. err (message (codes "no process"));
  raw_failure = none;
}

abbrev pub config : ContainerConfig
config = record {
  info = record status {
    mount_ids = codes "m1" ∷ codes "m2" ∷ [];
    op = record { kind = exec_op run; platform = 0; constraints = 0 };
  };
  args = codes "sh" ∷ [];
  tty = true;
  stdio = 0;
  image = some 4;
  mountroot = codes "/debugroot";
  input_mount = false;
  env = [];
  cwd = [];
  watches = true;
  no_set_raw = false;
}

exec_container-IsClean_example :
    (o : Result (ℕ × List Effect) × List Effect) × (exec_container idle config ≡ some o) × IsClean o
exec_container-IsClean_example = exec_container-IsClean idle config (omega arith)

-- an operation with no results has no root to mount
no_root : exec_container idle (record config { info = status }) ≡ some (err no_rootfs_mount, [])
unfolding exec_container
no_root = refl

-- A RUN instruction with no ids, as after a failure that is no ExecError: the index panics.
no_ids :
    exec_container idle (record config {
      info = record status { op = record { kind = exec_op run; platform = 0; constraints = 0 } };
    })
    ≡ none
unfolding exec_container mounts_of
no_ids = refl
