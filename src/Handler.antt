-- ===== src/Handler.antt =====
-- pkg/buildkit/handler.go: a Handler decides for each event of the build whether to pause.
pub mod Hits
pub mod Pauses
use buildg.Prelude.{
  ℕ, ◌≡◌, Bool, true, false, not, ◌&&◌, ◌||◌, List, [], ◌∷◌, ◌++◌, Option, none, some,
  if◌then◌else◌, is_nonempty,
}
use buildg.Text.{Text, text_eq}
use buildg.Dict.{Dict, insert}
use buildg.Errors.{Error}
use buildg.Types.{Location, RegisteredStatus}
use buildg.Breakpoints.{Breakpoint, Breakpoints, Description, Target, is_target, for_each}

pub record BreakpointInfo : Type 0 where
  pub description : Description
  pub hits : List Location

-- `Handler` is a pointer in the source: its state is passed beside this record.
pub record BreakContext : Type 0 where
  pub info : RegisteredStatus
  pub locs : List Location
  pub hits : Dict Text BreakpointInfo

-- `image` is the reference of the debugger image, once it is solved.
pub record Handler : Type 0 where
  pub breakpoints : Breakpoints
  pub break_each_vertex : Bool
  pub entried : Bool
  pub stop_on_entry : Bool
  pub disable_breakpoints : Bool
  pub image : Option ℕ

-- `h.BreakEachVertex(b)`
unfoldable pub set_break_each_vertex : Bool → Handler → Handler
set_break_each_vertex b h = record h { break_each_vertex = b }

-- A check that fails is logged and is no hit.
abbrev pub record_hit :
    Text → Target → Option Error → Dict Text BreakpointInfo → Dict Text BreakpointInfo
record_hit key t (some _) hit = hit
record_hit key t none hit =
    if t.yes
    then insert key (record { description = t.description; hits = t.hit_locations }) hit
    else hit

unfoldable pub get_hit_breakpoints :
    Breakpoints → RegisteredStatus → List Location → Dict Text BreakpointInfo
get_hit_breakpoints b info locs =
    for_each
      (λ key bp hit.
        (record_hit key (is_target bp info locs) (is_target bp info locs).err hit, true))
      b []

-- The loop that copies the hits, over `hits` and `isBreakpoint`.
unfoldable pub copy_hits :
    Dict Text BreakpointInfo → Dict Text BreakpointInfo × Bool → Dict Text BreakpointInfo × Bool
copy_hits [] st = st
copy_hits ((key, bp) ∷ es) (hits, is_breakpoint) = copy_hits es (insert key bp hits, true)

-- The breakpoint handler of the client of this package may change the handler and a state of its own.
abbrev pub BreakpointHandler : Type 0 → Type 0
BreakpointHandler W = BreakContext → Handler → W → Option Error × Handler × W

module _ {W : Type 0} (breakpoint_handler : BreakpointHandler W) where
  unfoldable pub handle :
      RegisteredStatus → List Location → Handler → W → Option Error × Handler × W
  handle info [] h w = (none, h, w)
  handle info (loc ∷ locs) h w =
      let (hits, is_breakpoint) =
        copy_hits (get_hit_breakpoints h.breakpoints info (loc ∷ locs)) ([], false) in
      if h.disable_breakpoints
        || (not h.stop_on_entry || h.entried) && not h.break_each_vertex && not is_breakpoint
      then (none, h, w)
      else breakpoint_handler (record { info = info; locs = loc ∷ locs; hits = hits })
          (if not h.entried then record h { entried = true } else h) w
