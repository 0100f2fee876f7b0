-- ===== src/Dap/Steps.antt =====
-- What the next event of the build does after a step.
use buildg.Prelude.{◌≡◌, refl, true, false, List, [], ◌∷◌, ◌++◌, some, inl, inr}
use buildg.Text.{Text, text_eq}
use buildg.Dict.{lookup}
use buildg.Types.{Location, RegisteredStatus}
use buildg.Breakpoints.{get}
use buildg.Handler.{Handler, BreakContext, BreakpointHandler, set_break_each_vertex, handle}
use buildg.Handler.Hits.{hit_of}
use buildg.Handler.Pauses.{handle_breaks}
use buildg.Dap.Debugger.{Debugger, next_step, do_next}

module _ {W : Type 0} (cb : BreakpointHandler W) (info : RegisteredStatus) (loc : Location)
    (locs : List Location) (w : W) (ctx : BreakContext) (h : Handler) where
  -- At a break of a session whose breakpoints are enabled, `next` resumes the build, and the build then breaks at the
  -- next event that has a location, whatever breakpoints there are.
  do_next-handle :
      (d : Debugger)
      → d.b_ctx ≡ some (ctx, h)
      → h.disable_breakpoints ≡ false
      → (h' : Handler) × ((do_next d).b_ctx ≡ some (ctx, h'))
        × ((do_next d).resumptions ≡ d.resumptions ++ next_step ∷ [])
        × (ctx' : BreakContext) × (handle cb info (loc ∷ locs) h' w
            ≡ cb ctx' (record h' { entried = true }) w)
        × (ctx'.info ≡ info)
        × (ctx'.locs ≡ loc ∷ locs)
        × ((key : Text) → lookup key ctx'.hits ≡ hit_of info (loc ∷ locs) (get key h.breakpoints))
  unfolding do_next set_break_each_vertex
  do_next-handle d e off =
      let h' = record h { break_each_vertex = true } in
      let (ctx', called, i, l, hits) = handle_breaks cb info loc locs h' w (off, inr (inl refl)) in
      (h', rw e refl, rw e refl, ctx', called, i, l, hits)
