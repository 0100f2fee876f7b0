-- ===== src/Main/Os.antt =====
-- What main.go asks of the operating system, and the laws of locks and temporary directories.
use buildg.Prelude.{◌≡◌, ◌≢◌, List, ◌∷◌, In}
use buildg.Text.{Text}
use buildg.Errors.{Error, Result, ok, err}

-- Steps that may fail, on a state that they change.
abbrev pub Io : Type 0 → Type 0 → Type 0
Io W A = W → Result A × W

abbrev pub and_then : {W A B : Type 0} → Result A × W → (A → Io W B) → Result B × W
and_then (err e, w) k = (err e, w)
and_then (ok a, w) k = k a w

infixl 5 ◌>>=◌
abbrev pub ◌>>=◌ : {W A B : Type 0} → Io W A → (A → Io W B) → Io W B
◌>>=◌ m k w = and_then (m w) k

abbrev pub give : {W A : Type 0} → A → Io W A
give a w = (ok a, w)

abbrev pub stop_with : {W A : Type 0} → Error → Io W A
stop_with e w = (err e, w)

pub data Flock : Type 0 where
  acquired would_block : Flock
  flock_failed : Error → Flock

-- `held` lists the locked files, `temps` what `mkdir_temp` made and nothing has removed.
pub record Os : Type 1 where
  pub World : Type 0
  pub mkdir_all : Text → Io World Unit
  pub create : Text → Io World Unit
  pub flock : Text → World → Flock × World
  pub unlock : Text → World → World
  pub mkdir_temp : Text → Text → Io World Text
  pub remove_all : Text → World → World
  pub held : World → List Text
  pub temps : World → List Text

-- A lock has one holder, and a temporary directory is new.
pub record IsOs (O : Os) : Type 0 where
  pub mkdir_all_same :
      (p : Text) (w : O.World)
      → (O.held (O.mkdir_all p w).1 ≡ O.held w) × (O.temps (O.mkdir_all p w).1 ≡ O.temps w)
  pub create_same :
      (p : Text) (w : O.World)
      → (O.held (O.create p w).1 ≡ O.held w) × (O.temps (O.create p w).1 ≡ O.temps w)
  pub flock_acquired :
      (p : Text) (w : O.World)
      → (O.flock p w).0 ≡ acquired
      → (¬ In p (O.held w)) × (O.held (O.flock p w).1 ≡ p ∷ O.held w)
  pub flock_refused :
      (p : Text) (w : O.World) → (O.flock p w).0 ≢ acquired → O.held (O.flock p w).1 ≡ O.held w
  pub flock_temps : (p : Text) (w : O.World) → O.temps (O.flock p w).1 ≡ O.temps w
  pub unlock_held :
      (p q : Text) (w : O.World) → q ≢ p → In q (O.held w) → In q (O.held (O.unlock p w))
  pub unlock_temps : (p : Text) (w : O.World) → O.temps (O.unlock p w) ≡ O.temps w
  pub mkdir_temp_held : (d p : Text) (w : O.World) → O.held (O.mkdir_temp d p w).1 ≡ O.held w
  pub mkdir_temp_ok :
      (d p t : Text) (w : O.World)
      → (O.mkdir_temp d p w).0 ≡ ok t
      → (¬ In t (O.temps w)) × (O.temps (O.mkdir_temp d p w).1 ≡ t ∷ O.temps w)
  pub mkdir_temp_err :
      (d p : Text) (e : Error) (w : O.World)
      → (O.mkdir_temp d p w).0 ≡ err e
      → O.temps (O.mkdir_temp d p w).1 ≡ O.temps w
  pub remove_all_temps :
      (t q : Text) (w : O.World) → q ≢ t → In q (O.temps w) → In q (O.temps (O.remove_all t w))
  pub remove_all_held : (t : Text) (w : O.World) → O.held (O.remove_all t w) ≡ O.held w
