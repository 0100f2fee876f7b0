-- ===== src/Tests/Controller.antt =====
-- pkg/buildkit/controller.go on a RUN instruction with two mounts.
use buildg.Prelude.{
  nat_eq, inl, ℕ, ◌+◌, ◌≡◌, refl, true, false, List, [], ◌∷◌, Option, none, some, arith,
  if◌then◌else◌, ◌==◌, ◌||◌,
}
use buildg.Int.{pos, negsuc}
use buildg.Text.{Text, codes, text_eq}
use buildg.Dict.{lookup, insert, delete}
use buildg.Errors.{Error, message, Result, ok}
use buildg.Types.{Mount, ExecOp, exec_op}
use buildg.Handler.{handle}
use buildg.Controller.Sources.{Source, counts, get_location, add_location_source}
use buildg.Controller.Active.{begin, finish, track, track-running}
use buildg.Controller.Solve.{Solver, request, frontend_solve, frontend_solve_lem}
use buildg.Controller.Pauses.{
  Pauses, no_pauses, wait, no_pauses-IsSound, wait-IsSound, continue_id, continue_id_lem, IsSound,
  is_closed,
}
use buildg.Controller.Results.{ResultType, get_result_mounts, register_result_ids}
use buildg.Controller.Registers.{AllResolve, Resolves, register_result_ids_lem}
use buildg.Controller.Worker.{Vertex, not_cancelled, exec}
use buildg.Controller.Reports.{report, exec_lem}
use buildg.Controller.Loop.{Event, State, round, loop, waiting}
use buildg.Controller.Resume.{Outcome, loop_lem}
use buildg.Tests.Breakpoints.{status, file}
use buildg.Tests.Handler.{fresh_handler, counting}

abbrev pub source : ℕ → Source
source s = record {
  locations = (codes "v1", record { source_index = pos 0; ranges = [] } ∷ []) ∷ [];
  infos = file ∷ [];
}

abbrev one_waits : Pauses
one_waits = (wait (codes "d1") no_pauses).1

abbrev pub event : Event
event = record { msg = status; sources = some ((7, pos 1) ∷ []) }

abbrev at_start : State ℕ
at_start = record { handler = fresh_handler; world = 0; pauses = one_waits }

loop_lem_example :
    Outcome counting source false
      (event ∷ [])
      at_start
      (loop counting source false (event ∷ []) at_start)
unfolding get_location lookup
loop_lem_example =
    loop_lem counting source false (event ∷ []) at_start
      (wait-IsSound no_pauses-IsSound (codes "d1"))
      ((ok (record { source = file; ranges = [] } ∷ []), refl), tt)

-- the event pauses once and is resumed
loop_of_one :
    let (e, s) = loop counting source false (event ∷ []) at_start in
    (e ≡ waiting) × (s.world ≡ 1) × (lookup (codes "d1") s.pauses.pause ≡ none)
unfolding loop round handle get_location lookup insert delete continue_id wait
loop_of_one = (refl, refl, refl)

continue_id_lem_example :
    (p' : Pauses) × (continue_id (codes "d1") one_waits ≡ some p')
    × IsSound p'
    × ((j : Text)
        → lookup j p'.pause ≡ (if codes "d1" == j then none else lookup j one_waits.pause))
    × ((c : ℕ) → is_closed c p' ≡ (is_closed c one_waits || c == 0))
unfolding lookup insert wait
continue_id_lem_example =
    continue_id_lem one_waits (wait-IsSound no_pauses-IsSound (codes "d1")) (codes "d1")

track-running_example :
    lookup 7 (counts (track (begin 7 ∷ begin 7 ∷ begin 8 ∷ finish 7 ∷ []) none)) ≡ some (pos 1)
track-running_example =
    track-running (begin 7 ∷ begin 7 ∷ begin 8 ∷ finish 7 ∷ []) (omega arith) (omega arith, tt) 7

-- a solve that fails at once
abbrev failing : Solver ℕ ℕ
failing req m w = (Result.err (message (codes "solve")), m, w + 1)

frontend_solve_lem_example :
    ((frontend_solve failing (request false 7 0) none 0).0
      ≡ (failing (request true 7 0) (add_location_source 7 none) 0).0)
    × (lookup 7 (counts (add_location_source 7 none)) ≡ some (pos 1))
    × ((j : ℕ)
        → lookup j (counts (frontend_solve failing (request false 7 0) none 0).1)
          ≡ lookup j (counts none))
frontend_solve_lem_example =
    frontend_solve_lem failing false 7 0 0 none 0 (omega arith) (unfold lookup in refl)
      (λ r m w j. refl)

-- results are numbers, each with itself as its reference
abbrev numbers : ResultType
numbers = record { Res = ℕ; Ref = ℕ; clone = λ r. r; sys = λ r. some r; id = λ r. r ∷ [] }

abbrev pub mount : Mount
mount = record {
  input = pos 0;
  output = pos 0;
  selector = [];
  dest = codes "/";
  readonly = 0;
  mount_type = 0;
  cache_opt = 0;
  secret_opt = 0;
  ssh_opt = 0;
}

abbrev cache : Mount
cache = record mount { input = negsuc 0; output = negsuc 0; dest = codes "/cache" }

abbrev pub run : ExecOp
run = record {
  mounts = mount ∷ cache ∷ [];
  meta = record { cwd = codes "/"; env = codes "A=b" ∷ []; user = [] };
  network = 0;
  security = 0;
}

slots_of_run :
    get_result_mounts numbers (exec_op run) (3 ∷ []) (5 ∷ [])
    ≡ (some 3 ∷ none ∷ [], some 5 ∷ none ∷ [])
unfolding get_result_mounts
slots_of_run = refl

register_result_ids_lem_example :
    ((register_result_ids numbers (some 3 ∷ none ∷ []) []).0 ≡ ok ((3 ∷ []) ∷ [] ∷ []))
    × ((i : Text)
        → Resolves numbers [] i
        → Resolves numbers (register_result_ids numbers (some 3 ∷ none ∷ []) []).1 i)
    × AllResolve numbers
        (register_result_ids numbers (some 3 ∷ none ∷ []) []).1
        (some 3 ∷ none ∷ [])
register_result_ids_lem_example =
    register_result_ids_lem numbers (some 3 ∷ none ∷ []) [] ((3, refl), tt)

abbrev vertex : Vertex
vertex = record {
  name = codes "RUN b";
  digest = codes "v1";
  op = record { kind = exec_op run; platform = 0; constraints = 0 };
}

abbrev results_in : Error → Option (List (Option ℕ) × List (Option ℕ))
results_in e = some (some 3 ∷ [], some 3 ∷ none ∷ [])

abbrev broken : Error
broken = message (codes "exit code 1")

exec_lem_example :
    let (r, n) =
      exec numbers results_in vertex not_cancelled
        (codes "d1")
        (3 ∷ [])
        ([], some broken)
        []
        no_pauses in
    (r ≡ ([], some broken))
    × (n.sent
        ≡ some (
            report numbers results_in vertex not_cancelled
              (codes "d1")
              (3 ∷ [])
              []
              (some broken)
              []
              no_pauses
              (some 3 ∷ [])
              (some 3 ∷ none ∷ [])))
    × (n.pauses ≡ (wait (codes "d1") no_pauses).1)
exec_lem_example =
    exec_lem numbers results_in vertex not_cancelled (codes "d1") (3 ∷ []) [] (some broken) []
      no_pauses (some 3 ∷ []) (some 3 ∷ none ∷ []) (inl refl) ((3, refl), tt) ((3, refl), tt)
