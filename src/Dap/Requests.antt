-- ===== src/Dap/Requests.antt =====
-- What the handlers of pkg/dap/dap.go compute from a request and the state of the debugger.
use buildg.Prelude.{
  Bool, true, false, List, [], ◌∷◌, ◌++◌, Option, none, some, if◌then◌else◌, ◌==◌, length, take,
  drop,
}
use buildg.Int.{ℤ, pos, ltb_ℤ, pos_part}
use buildg.Text.{Text, codes, text_eq}
use buildg.Dict.{Dict}
use buildg.Decimal.{parse_int}
use buildg.Errors.{Result, ok, err}
use buildg.Types.{Range, Location, OpKind, exec_op, other_op}
use buildg.Breakpoints.{Breakpoints, on_fail, line, add, clear_all}
use buildg.Handler.{Handler, BreakContext, BreakpointInfo}
use buildg.Dap.Messages.{
  Feature, configuration_done_request, DapBreakpoint, StackFrame, Variable, Unsupported,
  set_exception_breakpoints, restart, attach, terminate, set_function_breakpoints, step_in,
  step_out, step_back_request, reverse_continue, restart_frame_request, goto, pause,
  set_variable_request, set_expression_request, source, terminate_threads, step_in_targets,
  goto_targets, completions, exception_info, loaded_sources, data_breakpoint_info,
  set_data_breakpoints, read_memory, disassemble, cancel, breakpoint_locations, LaunchConfig,
}
use buildg.Dap.Strings.{base, split_equals}

-- the fields that onInitializeRequest sets
abbrev pub supports : Feature → Bool
supports configuration_done_request = true
supports _ = false

-- the message of the error response of each refused request
abbrev pub unsupported_text : Unsupported → Text
unsupported_text set_exception_breakpoints = codes "Request unsupported"
unsupported_text restart = codes "RestartRequest unsupported"
unsupported_text attach = codes "AttachRequest unsupported"
unsupported_text terminate = codes "TerminateRequest unsupported"
unsupported_text set_function_breakpoints = codes "FunctionBreakpointsRequest unsupported"
unsupported_text step_in = codes "StepInRequest unsupported"
unsupported_text step_out = codes "StepOutRequest unsupported"
unsupported_text step_back_request = codes "StepBackRequest unsupported"
unsupported_text reverse_continue = codes "ReverseContinueRequest unsupported"
unsupported_text restart_frame_request = codes "RestartFrameRequest unsupported"
unsupported_text goto = codes "GotoRequest unsupported"
unsupported_text pause = codes "PauseRequest unsupported"
unsupported_text set_variable_request = codes "SetVariablesRequest unsupported"
unsupported_text set_expression_request = codes "SetExpressionRequest unsupported"
unsupported_text source = codes "SourceRequest unsupported"
unsupported_text terminate_threads = codes "TerminateRequest unsupported"
unsupported_text step_in_targets = codes "StepInTargetsRequest unsupported"
unsupported_text goto_targets = codes "GotoTargetsRequest unsupported"
unsupported_text completions = codes "CompletionsRequest unsupported"
unsupported_text exception_info = codes "ExceptionInfoRequest unsupported"
unsupported_text loaded_sources = codes "LoadedSourcesRequest unsupported"
unsupported_text data_breakpoint_info = codes "DataBreakpointInfoRequest unsupported"
unsupported_text set_data_breakpoints = codes "SetDataBreakpointsRequest unsupported"
unsupported_text read_memory = codes "ReadMemoryRequest unsupported"
unsupported_text disassemble = codes "DisassembleRequest unsupported"
unsupported_text cancel = codes "CancelRequest unsupported"
unsupported_text breakpoint_locations = codes "BreakpointLocationsRequest unsupported"

-- The loop of onSetBreakpointsRequest: a breakpoint that is not added, or whose key is no number, is only logged.
abbrev pub append_breakpoint :
    Text → ℤ → Option ℤ → Breakpoints × List DapBreakpoint → Breakpoints × List DapBreakpoint
append_breakpoint src l none st = st
append_breakpoint src l (some id) (b, acc) =
    (b, acc ++ record { id = id; source = src; line = l; verified = true } ∷ [])

abbrev pub added :
    Text → ℤ → Result Text × Breakpoints → List DapBreakpoint → Breakpoints × List DapBreakpoint
added src l (err e, b) acc = (b, acc)
added src l (ok key, b) acc = append_breakpoint src l (parse_int key) (b, acc)

unfoldable pub add_lines :
    Text → List ℤ → Breakpoints × List DapBreakpoint → Breakpoints × List DapBreakpoint
add_lines src [] st = st
add_lines src (l ∷ ls) (b, acc) = add_lines src ls (added src l (add [] (line src l) b) acc)

unfoldable pub set_lines : Text → List ℤ → Breakpoints → Breakpoints × List DapBreakpoint
unfolding add_lines
set_lines src ls b = add_lines src ls ((add (codes "on-fail") on_fail (clear_all b)).1, [])

abbrev pub ranges_of : List Location → List Range
ranges_of [] = []
ranges_of (loc ∷ locs) = loc.ranges ++ ranges_of locs

abbrev pub hit_ranges : Dict Text BreakpointInfo → List Range
hit_ranges [] = []
hit_ranges ((key, info) ∷ hits) = ranges_of info.hits ++ hit_ranges hits

-- `lines`: those of the hits, or if there are none those of the step.
abbrev pub or_else : List Range → List Range → List Range
or_else [] rs = rs
or_else (l ∷ ls) rs = l ∷ ls

unfoldable pub lines_of : BreakContext → List Range
lines_of ctx = or_else (hit_ranges ctx.hits) (ranges_of ctx.locs)

abbrev pub frame_name : Text → Text
frame_name name = if name == [] then codes "instruction" else name

abbrev pub frames_at : Text → Text → List Range → List StackFrame
frames_at name f [] = []
frames_at name f (l ∷ ls) =
    record {
      id = pos 0;
      source_name = base f;
      source_path = f;
      line = l.start_line;
      end_line = l.end_line;
      name = frame_name name;
    }
    ∷ []

-- The stack frames, and their total.
unfoldable pub stack_frames :
    Option (BreakContext × Handler) → Option LaunchConfig → List StackFrame × ℤ
unfolding lines_of
stack_frames (some (ctx, h)) (some cfg) =
    let frames = frames_at ctx.info.name cfg.program (lines_of ctx) in (frames, pos (length frames))
stack_frames _ _ = ([], pos 0)

abbrev pub variable_of : Text × Option Text → Variable
variable_of (k, none) = record { name = k; value = [] }
variable_of (k, some v) = record { name = k; value = v }

unfoldable pub env_variables : List Text → List Variable
env_variables [] = []
env_variables (e ∷ es) = variable_of (split_equals e) ∷ env_variables es

abbrev pub op_variables : OpKind → List Variable
op_variables (exec_op e) = env_variables e.meta.env
op_variables other_op = []

-- A start or a count that is not positive is none.
abbrev pub from_start : ℤ → List Variable → List Variable
from_start start vars =
    if ltb_ℤ (pos 0) start
    then (if ltb_ℤ start (pos (length vars)) then drop (pos_part start) vars else [])
    else vars

abbrev pub up_to : ℤ → List Variable → List Variable
up_to count vars =
    if ltb_ℤ (pos 0) count
    then (if ltb_ℤ count (pos (length vars)) then take (pos_part count) vars else vars)
    else vars

unfoldable pub page : ℤ → ℤ → List Variable → List Variable
page start count vars = up_to count (from_start start vars)

unfoldable pub variables_at : Option (BreakContext × Handler) → ℤ → ℤ → List Variable
variables_at none start count = []
variables_at (some (ctx, h)) start count = page start count (op_variables ctx.info.op.kind)
