-- ===== src/Tests/Serve.antt =====
-- A session of an editor, and when its cleanup function is called.
use buildg.Prelude.{◌≡◌, refl, true, [], ◌∷◌, Option, none, some, length}
use buildg.Int.{pos}
use buildg.Text.{codes}
use buildg.Errors.{Result, ok, err}
use buildg.Dict.{lookup}
use buildg.Breakpoints.{add}
use buildg.Dap.Messages.{Request, launch_request, disconnect}
use buildg.Dap.Debugger.{launch, parse_solve_opt}
use buildg.Dap.Server.{Server, new_server, Outside, handle, finish}
use buildg.Dap.Serve.{Reaches, starts, goes, handles, finishes}
use buildg.Dap.Serve.Cleaned.{Reaches-Cleaned}
use buildg.Dap.Serve.Cleaned.Handlers.{Cleaned}
use buildg.Tests.Dap.{outside, server}
use buildg.Tests.Options.{tools}
use buildg.Tests.Dap.{config}

-- A build is launched, and ends.
abbrev given : Outside
given = record outside { tools = tools; unmarshal = λ t. ok config }

abbrev or_server : Option Server → Server
or_server none = server
or_server (some s) = s

abbrev made : Result Server → Server
made (err e) = server
made (ok s) = s

abbrev first_server : Server
unfolding new_server
first_server = made (new_server true)

abbrev launch_it : Request
launch_it = record { seq = pos 1; command = codes "launch"; arguments = launch_request [] }

abbrev running_server : Server
unfolding handle launch parse_solve_opt
running_server = or_server (handle given launch_it first_server)

abbrev ended_server : Server
unfolding finish
ended_server = or_server (finish given running_server)

ended_server-Reaches : Reaches given first_server ended_server
unfolding new_server handle launch parse_solve_opt finish add lookup
ended_server-Reaches =
    goes running_server ended_server
      (goes first_server running_server starts
        (handles first_server running_server launch_it refl refl))
      (finishes running_server ended_server refl refl)

Reaches-Cleaned_example : Cleaned ended_server.debugger ended_server.cleanups
unfolding new_server handle launch parse_solve_opt finish add lookup
Reaches-Cleaned_example = Reaches-Cleaned given first_server ended_server refl ended_server-Reaches

-- called once, after the two messages on the thread and before the two on the end
one_call : (ended_server.cleanups ≡ 3 ∷ []) × (length ended_server.sent ≡ 5)
unfolding new_server handle launch parse_solve_opt finish add lookup
one_call = (refl, refl)

-- A client that disconnects before it launches a build ends the process, and the cleanup function is not called.
disconnect_early :
    let s = or_server (handle given (record launch_it { arguments = disconnect }) first_server) in
    (s.exited ≡ true) × (s.cleanups ≡ [])
unfolding new_server handle add lookup
disconnect_early = (refl, refl)
