-- ===== src/Client/Pipe.antt =====
-- pkg/buildkit/client.go: pipeListener, by which the client reaches its server inside the process. A step is what a caller does at
-- once: the test of `closed`, or the choice of a select.
pub mod Joined
use buildg.Prelude.{ℕ, suc, ◌≡◌, Bool, true, false, List, [], ◌∷◌, ◌++◌}

-- Pipes are numbered as they are made. `dialling` are the pipes of calls of dial that wait to hand over their end,
-- `accepting` is the number of calls of Accept that wait for one. `dialled` and `accepted` are the pipes whose ends the calls
-- of dial and of Accept have returned, `refused` counts the calls that failed.
pub record PipeListener : Type 0 where
  pub next_pipe : ℕ
  pub closed : Bool
  pub dialling : List ℕ
  pub accepting : ℕ
  pub dialled : List ℕ
  pub accepted : List ℕ
  pub refused : ℕ

abbrev pub new_pipe_listener : PipeListener
new_pipe_listener = record {
  next_pipe = 0;
  closed = false;
  dialling = [];
  accepting = 0;
  dialled = [];
  accepted = [];
  refused = 0;
}

abbrev pub refuse : PipeListener → PipeListener
refuse l = record l { refused = suc l.refused }

-- dial up to its select
abbrev pub start_dial : Bool → PipeListener → PipeListener
start_dial true l = refuse l
start_dial false l = record l {
  next_pipe = suc l.next_pipe;
  dialling = l.dialling ++ l.next_pipe ∷ [];
}

-- Accept up to its select
abbrev pub start_accept : Bool → PipeListener → PipeListener
start_accept true l = refuse l
start_accept false l = record l { accepting = suc l.accepting }

-- The case of `ch` of both selects; it is ready also after the close.
abbrev pub hand_over : ℕ → List ℕ → ℕ → PipeListener → PipeListener
hand_over pipe dialling accepting l = record l {
  dialling = dialling;
  accepting = accepting;
  dialled = l.dialled ++ pipe ∷ [];
  accepted = l.accepted ++ pipe ∷ [];
}

-- the case of `done`
abbrev pub end_dial : List ℕ → PipeListener → PipeListener
end_dial dialling l = record l { dialling = dialling; refused = suc l.refused }

abbrev pub end_accept : ℕ → PipeListener → PipeListener
end_accept accepting l = record l { accepting = accepting; refused = suc l.refused }

abbrev pub close : PipeListener → PipeListener
close l = record l { closed = true }

pub data Step : PipeListener → PipeListener → Type 0 where
  dials : (l : PipeListener) → Step l (start_dial l.closed l)
  accepts : (l : PipeListener) → Step l (start_accept l.closed l)
  meets :
      (l : PipeListener) (before after : List ℕ) (pipe n : ℕ)
      → l.dialling ≡ before ++ pipe ∷ after
      → l.accepting ≡ suc n
      → Step l (hand_over pipe (before ++ after) n l)
  dial_ends :
      (l : PipeListener) (before after : List ℕ) (pipe : ℕ)
      → l.closed ≡ true
      → l.dialling ≡ before ++ pipe ∷ after
      → Step l (end_dial (before ++ after) l)
  accept_ends :
      (l : PipeListener) (n : ℕ) → l.closed ≡ true → l.accepting ≡ suc n → Step l (end_accept n l)
  closes : (l : PipeListener) → Step l (close l)

pub data Reaches : PipeListener → PipeListener → Type 0 where
  starts : (l : PipeListener) → Reaches l l
  goes : (k l l' : PipeListener) → Reaches k l → Step l l' → Reaches k l'
