-- ===== src/Dap/Messages.antt =====
-- The messages of the Debug Adapter Protocol that pkg/dap/dap.go reads and writes.
use buildg.Prelude.{Bool, true, false, List, [], ◌∷◌, Option, none, some}
use buildg.Int.{ℤ, pos, int_eq}
use buildg.Dict.{Dict, lookup}
use buildg.Text.{Text, codes}

pub record Response : Type 0 where
  pub seq : ℤ
  pub message_type : Text
  pub command : Text
  pub request_seq : ℤ
  pub success : Bool

-- The optional behaviours of onInitializeRequest, each with its field of the response body.
pub data Feature : Type 0 where
  configuration_done_request function_breakpoints conditional_breakpoints : Feature
  hit_conditional_breakpoints evaluate_for_hovers step_back set_variable restart_frame : Feature
  goto_targets_request step_in_targets_request completions_request modules_request : Feature
  restart_request exception_options value_formatting_options exception_info_request : Feature
  terminate_debuggee suspend_debuggee delayed_stack_trace_loading loaded_sources_request : Feature
  log_points terminate_threads_request set_expression terminate_request data_breakpoints : Feature
  read_memory_request write_memory_request disassemble_request cancel_request : Feature
  breakpoint_locations_request clipboard_context stepping_granularity : Feature
  instruction_breakpoints exception_filter_options : Feature

pub record DapBreakpoint : Type 0 where
  pub id : ℤ
  pub source : Text
  pub line : ℤ
  pub verified : Bool

pub record StackFrame : Type 0 where
  pub id : ℤ
  pub source_name : Text
  pub source_path : Text
  pub line : ℤ
  pub end_line : ℤ
  pub name : Text

pub record Variable : Type 0 where
  pub name : Text
  pub value : Text

-- What the server writes. `acknowledged` is a response with no body; the events carry their names.
pub data Message : Type 0 where
  error_response : Response → Text → Text → ℤ → Bool → Message
  initialized_with : Response → (Feature → Bool) → Message
  acknowledged : Response → Message
  breakpoints_set : Response → List DapBreakpoint → Message
  stack_trace_of : Response → List StackFrame → ℤ → Message
  scopes_of : Response → List (Text × ℤ) → Message
  variables_of : Response → List Variable → Message
  threads_of : Response → List (ℤ × Text) → Message
  evaluated : Response → Text → Message
  initialized_event terminated_event exited_event : Message
  thread_event : Text → ℤ → Message
  stopped_event : Text → ℤ → Bool → List ℤ → Message
  run_in_terminal : List Text → Text → Message
  output_event : Text → Text → Message

-- The kinds of requests that are refused.
pub data Unsupported : Type 0 where
  set_exception_breakpoints restart attach terminate set_function_breakpoints : Unsupported
  step_in step_out step_back_request reverse_continue restart_frame_request goto pause : Unsupported
  set_variable_request set_expression_request source terminate_threads step_in_targets : Unsupported
  goto_targets completions exception_info loaded_sources data_breakpoint_info : Unsupported
  set_data_breakpoints read_memory disassemble cancel breakpoint_locations : Unsupported

pub record LaunchConfig : Type 0 where
  pub program : Text
  pub no_debug : Bool
  pub stop_on_entry : Bool
  pub target : Text
  pub build_args : List Text
  pub ssh : List Text
  pub secrets : List Text
  pub image : Text

-- The type of a request with the arguments that are read. `launch_request` carries the JSON of its arguments, `other` is any
-- other message.
pub data Arguments : Type 0 where
  initialize disconnect configuration_done continue next stack_trace scopes threads : Arguments
  launch_request : Text → Arguments
  set_breakpoints : Text → List ℤ → Arguments
  variables : ℤ → ℤ → Arguments
  evaluate : Text → Text → Arguments
  unsupported : Unsupported → Arguments
  other : Arguments

pub record Request : Type 0 where
  pub seq : ℤ
  pub command : Text
  pub arguments : Arguments

-- newResponse
unfoldable pub new_response : ℤ → Text → Response
new_response request_seq command = record {
  seq = pos 0;
  message_type = codes "response";
  command = command;
  request_seq = request_seq;
  success = true;
}

abbrev pub unsupported_error : ℤ
unsupported_error = pos 1000

abbrev pub failed_error : ℤ
failed_error = pos 1001

abbrev pub unknown_error : ℤ
unknown_error = pos 9999

-- the table `errorMessage`
abbrev pub error_message : Dict ℤ Text
error_message =
    (unsupported_error, codes "unsupported")
    ∷ (failed_error, codes "failed")
    ∷ (unknown_error, codes "unknown")
    ∷ []

abbrev pub summary_of : ℤ → Option Text → ℤ × Text
summary_of err_id (some m) = (err_id, m)
summary_of err_id none = (unknown_error, codes "unknown")

-- the message of sendErrorResponse
unfoldable pub error_response_of : ℤ → Text → ℤ → Text → Bool → Message
error_response_of request_seq command err_id message show_user =
    let (id, summary) = summary_of err_id (lookup err_id error_message) in
    error_response (record (new_response request_seq command) { success = false }) summary message
      id show_user

unfoldable pub unsupported_response : ℤ → Text → Text → Message
unsupported_response request_seq command message =
    error_response_of request_seq command unsupported_error message false
