-- ===== src/Dap/Features.antt =====
-- What the server announces, against what it does.
use buildg.Prelude.{◌≡◌, refl, Bool, true, false, [], ◌∷◌, ◌++◌, Option, none, some, inl, inr, ◌⊎◌}
use buildg.Dap.Messages.{
  Response, Feature, configuration_done_request, function_breakpoints, conditional_breakpoints,
  hit_conditional_breakpoints, evaluate_for_hovers, step_back, set_variable, restart_frame,
  goto_targets_request, step_in_targets_request, completions_request, modules_request,
  restart_request, exception_options, value_formatting_options, exception_info_request,
  terminate_debuggee, suspend_debuggee, delayed_stack_trace_loading, loaded_sources_request,
  log_points, terminate_threads_request, set_expression, terminate_request, data_breakpoints,
  read_memory_request, write_memory_request, disassemble_request, cancel_request,
  breakpoint_locations_request, clipboard_context, stepping_granularity, instruction_breakpoints,
  exception_filter_options, Unsupported, restart, terminate, set_function_breakpoints,
  step_back_request, restart_frame_request, set_variable_request, set_expression_request,
  terminate_threads, step_in_targets, goto_targets, completions, exception_info, loaded_sources,
  set_data_breakpoints, read_memory, disassemble, cancel, breakpoint_locations, Arguments,
  configuration_done, unsupported, Request, new_response, error_response_of, unsupported_response,
}
use buildg.Dap.Requests.{supports}
use buildg.Dap.Server.{Server, Outside, handle_arguments, handle}
use buildg.Dap.Answers.{responses, responses-snoc}

-- The request that belongs to an optional behaviour, if it has one of its own that the server knows.
unfoldable pub request_of : Feature → Option Arguments
request_of configuration_done_request = some configuration_done
request_of function_breakpoints = some (unsupported set_function_breakpoints)
request_of step_back = some (unsupported step_back_request)
request_of set_variable = some (unsupported set_variable_request)
request_of restart_frame = some (unsupported restart_frame_request)
request_of goto_targets_request = some (unsupported goto_targets)
request_of step_in_targets_request = some (unsupported step_in_targets)
request_of completions_request = some (unsupported completions)
request_of restart_request = some (unsupported restart)
request_of exception_info_request = some (unsupported exception_info)
request_of loaded_sources_request = some (unsupported loaded_sources)
request_of terminate_threads_request = some (unsupported terminate_threads)
request_of set_expression = some (unsupported set_expression_request)
request_of terminate_request = some (unsupported terminate)
request_of data_breakpoints = some (unsupported set_data_breakpoints)
request_of read_memory_request = some (unsupported read_memory)
request_of disassemble_request = some (unsupported disassemble)
request_of cancel_request = some (unsupported cancel)
request_of breakpoint_locations_request = some (unsupported breakpoint_locations)
request_of _ = none

abbrev Kind : Feature → Arguments → Type 0
Kind f a =
    ((a ≡ configuration_done) × (supports f ≡ true))
    ⊎ ((u : Unsupported) × (a ≡ unsupported u) × (supports f ≡ false))

request_of-Kind : (f : Feature) (a : Arguments) → request_of f ≡ some a → Kind f a
unfolding request_of
request_of-Kind configuration_done_request a e = inl (cc e, refl)
request_of-Kind function_breakpoints a e = inr (set_function_breakpoints, cc e, refl)
request_of-Kind conditional_breakpoints a e = cc e
request_of-Kind hit_conditional_breakpoints a e = cc e
request_of-Kind evaluate_for_hovers a e = cc e
request_of-Kind step_back a e = inr (step_back_request, cc e, refl)
request_of-Kind set_variable a e = inr (set_variable_request, cc e, refl)
request_of-Kind restart_frame a e = inr (restart_frame_request, cc e, refl)
request_of-Kind goto_targets_request a e = inr (goto_targets, cc e, refl)
request_of-Kind step_in_targets_request a e = inr (step_in_targets, cc e, refl)
request_of-Kind completions_request a e = inr (completions, cc e, refl)
request_of-Kind modules_request a e = cc e
request_of-Kind restart_request a e = inr (restart, cc e, refl)
request_of-Kind exception_options a e = cc e
request_of-Kind value_formatting_options a e = cc e
request_of-Kind exception_info_request a e = inr (exception_info, cc e, refl)
request_of-Kind terminate_debuggee a e = cc e
request_of-Kind suspend_debuggee a e = cc e
request_of-Kind delayed_stack_trace_loading a e = cc e
request_of-Kind loaded_sources_request a e = inr (loaded_sources, cc e, refl)
request_of-Kind log_points a e = cc e
request_of-Kind terminate_threads_request a e = inr (terminate_threads, cc e, refl)
request_of-Kind set_expression a e = inr (set_expression_request, cc e, refl)
request_of-Kind terminate_request a e = inr (terminate, cc e, refl)
request_of-Kind data_breakpoints a e = inr (set_data_breakpoints, cc e, refl)
request_of-Kind read_memory_request a e = inr (read_memory, cc e, refl)
request_of-Kind write_memory_request a e = cc e
request_of-Kind disassemble_request a e = inr (disassemble, cc e, refl)
request_of-Kind cancel_request a e = inr (cancel, cc e, refl)
request_of-Kind breakpoint_locations_request a e = inr (breakpoint_locations, cc e, refl)
request_of-Kind clipboard_context a e = cc e
request_of-Kind stepping_granularity a e = cc e
request_of-Kind instruction_breakpoints a e = cc e
request_of-Kind exception_filter_options a e = cc e

module _ (O : Outside) (r : Request) (s : Server) where
  Judged : Bool → Arguments → Type 0
  Judged b a =
      (s' : Server) × (handle_arguments O a r s ≡ some s')
      × (x : Response) × (responses s'.sent ≡ responses s.sent ++ x ∷ [])
      × (x.success ≡ b)

  Judged-Kind : (f : Feature) (a : Arguments) → Kind f a → Judged (supports f) a
  unfolding Judged handle_arguments unsupported_response error_response_of new_response
  Judged-Kind f a (inl (e, t)) = rw (e, t) (_, refl, _, responses-snoc s.sent _, refl)
  Judged-Kind f a (inr (u, e, t)) = rw (e, t) (_, refl, _, responses-snoc s.sent _, refl)

  -- A request that belongs to an optional behaviour is answered, and with success exactly when the response to
  -- the initialize request announces the behaviour.
  handle-supports :
      (f : Feature)
      → request_of f ≡ some r.arguments
      → (s' : Server) × (handle O r s ≡ some s')
        × (x : Response) × (responses s'.sent ≡ responses s.sent ++ x ∷ [])
        × (x.success ≡ supports f)
  unfolding handle Judged
  handle-supports f e = Judged-Kind f r.arguments (request_of-Kind f r.arguments e)
