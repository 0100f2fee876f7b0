-- ===== src/Main/Roots.antt =====
-- main.go: the root directory that each command works in.
pub mod Starts
pub mod Apart
use buildg.Prelude.{ℕ, zero, suc, ◌≡◌, Bool, true, false, not, List, [], ◌∷◌, if◌then◌else◌, ◌==◌}
use buildg.Text.{Text, codes, text_eq}
use buildg.Errors.{Error, no_home, locked_root, Result, ok, err}
use buildg.Container.Paths.{join}
use buildg.Main.Os.{Io, ◌>>=◌, give, stop_with, Flock, acquired, would_block, flock_failed, Os}

-- defaultServeRootDir
unfoldable pub default_serve_root_dir : Text → Text
default_serve_root_dir root_dir = join root_dir (codes "data")

-- defaultDAPRootDir
unfoldable pub default_dap_root_dir : Text → Text × Text
default_dap_root_dir root_dir =
    let dap_root_dir = join root_dir (codes "dap") in
    (dap_root_dir, join dap_root_dir (codes "buildg"))

-- `getenv` gives [] for a variable that is not set.
unfoldable pub root_data_dir : (Text → Text) → Bool → Result Text
root_data_dir getenv rootless =
    if not rootless
    then ok (codes "/var/lib/buildg")
    else if getenv (codes "XDG_DATA_HOME") == []
    then (if getenv (codes "HOME") == []
        then err no_home
        else ok (join (getenv (codes "HOME")) (codes ".local/share/buildg")))
    else ok (join (getenv (codes "XDG_DATA_HOME")) (codes "buildg"))

-- a directory that a lock keeps for the process, or one of its own
pub data Root : Type 0 where
  shared temporary : Text → Root

abbrev pub directory : Root → Text
directory (shared d) = d
directory (temporary d) = d

-- `cleanupAll`
abbrev pub cleanup_all : Root → Bool
cleanup_all (shared d) = false
cleanup_all (temporary d) = true

abbrev pub lock_file : Text → Text
lock_file dir = join dir (codes "lock")

pub data Command : Type 0 where
  debug : Bool → Command
  prune du dap_serve dap_prune dap_du : Command

-- the processes that have a root directory: one starts, or the one at a place of the list ends
pub data Event : Type 0 where
  starts : Command → Event
  ends : ℕ → Event

abbrev pub remove_at {ℓ} : {A : Type ℓ} → ℕ → List A → List A
remove_at i [] = []
remove_at zero (x ∷ xs) = xs
remove_at (suc i) (x ∷ xs) = x ∷ remove_at i xs

module _ (O : Os) where
  open O use {World, mkdir_all, create, flock, unlock, mkdir_temp, remove_all}

  abbrev pub made_dir : Result Text → Io World Text
  made_dir (err e) = stop_with e
  made_dir (ok dir) = do u ← mkdir_all dir; give dir

  -- the root directory that the user names, or that of the environment
  unfoldable pub parse_root : (Text → Text) → Bool → Text → Io World Text
  parse_root getenv rootless given =
      if given == [] then made_dir (root_data_dir getenv rootless) else give given

  abbrev pub locked : Flock × World → Result Bool × World
  locked (acquired, w) = (ok true, w)
  locked (would_block, w) = (ok false, w)
  locked (flock_failed e, w) = (err e, w)

  -- Closing a file that is not locked changes nothing here.
  unfoldable pub try_lock : Text → Io World Bool
  try_lock dir = do f ← create (lock_file dir); λ w. locked (flock (lock_file dir) w)

  abbrev pub temporary_root : Text → Io World Root
  temporary_root dir = do t ← mkdir_temp dir (codes "buildg"); give (temporary t)

  -- the directory under a lock, or what `other` gives
  abbrev pub lock_or : Text → Io World Root → Io World Root
  lock_or dir other = do
    u ← mkdir_all dir
    held ← try_lock dir
    if held then give (shared dir) else other

  unfoldable pub debug_root : Bool → Text → Io World Root
  unfolding try_lock
  debug_root cache_reuse root_dir =
      if cache_reuse
      then lock_or (default_serve_root_dir root_dir) (temporary_root root_dir)
      else temporary_root root_dir

  -- prune and du
  unfoldable pub exclusive_root : Text → Io World Root
  unfolding try_lock
  exclusive_root dir = lock_or dir (stop_with locked_root)

  abbrev pub prune_root : Text → Io World Root
  prune_root root_dir = exclusive_root (default_serve_root_dir root_dir)

  abbrev pub du_root : Text → Io World Root
  du_root root_dir = exclusive_root (default_serve_root_dir root_dir)

  abbrev pub dap_prune_root : Text → Io World Root
  dap_prune_root root_dir =
      let (dap_root_dir, serve_root) = default_dap_root_dir root_dir in exclusive_root serve_root

  abbrev pub dap_du_root : Text → Io World Root
  dap_du_root root_dir =
      let (dap_root_dir, serve_root) = default_dap_root_dir root_dir in exclusive_root serve_root

  unfoldable pub dap_serve_root : Text → Io World Root
  unfolding try_lock
  dap_serve_root root_dir =
      let (dap_root_dir, serve_root) = default_dap_root_dir root_dir in
      lock_or serve_root (temporary_root dap_root_dir)

  -- the deferred calls
  unfoldable pub release_root : Root → World → World
  release_root (shared d) w = unlock (lock_file d) w
  release_root (temporary d) w = remove_all d w

  unfoldable pub start : Command → Text → Io World Root
  unfolding debug_root exclusive_root dap_serve_root
  start (debug cache_reuse) root_dir = debug_root cache_reuse root_dir
  start prune root_dir = prune_root root_dir
  start du root_dir = du_root root_dir
  start dap_serve root_dir = dap_serve_root root_dir
  start dap_prune root_dir = dap_prune_root root_dir
  start dap_du root_dir = dap_du_root root_dir

  pub record System : Type 0 where
    pub world : World
    pub live : List Root

  -- A command that fails has released what it held.
  abbrev pub born : Result Root × World → List Root → System
  born (err e, w) live = record { world = w; live = live }
  born (ok r, w) live = record { world = w; live = r ∷ live }

  abbrev pub release_at : ℕ → List Root → World → World
  release_at i [] w = w
  release_at zero (r ∷ rs) w = release_root r w
  release_at (suc i) (r ∷ rs) w = release_at i rs w

  abbrev pub event : Text → Event → System → System
  event root_dir (starts c) s = born (start c root_dir s.world) s.live
  event root_dir (ends i) s = record {
    world = release_at i s.live s.world;
    live = remove_at i s.live;
  }

  unfoldable pub history : Text → List Event → System → System
  unfolding start release_root
  history root_dir [] s = s
  history root_dir (e ∷ es) s = history root_dir es (event root_dir e s)
