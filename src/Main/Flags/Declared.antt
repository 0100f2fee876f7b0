-- ===== src/Main/Flags/Declared.antt =====
-- The options are read as they are declared.
use buildg.Prelude.{◌≡◌, ap, List, All, arith}
use buildg.Text.{Text, codes}
use buildg.Main.Flags.{
  Kind, bool, bool_t, string_slice, string, int, duration, Flag, Context, first, global_flags,
  global_options, Action, debug, prune, du, dap_serve, dap_attach_container, dap_prune, dap_du,
  flags_of, of_du, read_options,
}

-- Both give the same for a name that is read as a flag of this type.
abbrev pub SameAt : Context → Context → Kind → Text → Type 0
SameAt c d bool name = c.get_bool name ≡ d.get_bool name
SameAt c d bool_t name = c.get_bool name ≡ d.get_bool name
SameAt c d string_slice name = c.get_string_slice name ≡ d.get_string_slice name
SameAt c d (string _) name = c.get_string name ≡ d.get_string name
SameAt c d (int _) name = c.get_int name ≡ d.get_int name
SameAt c d (duration _) name = c.get_duration name ≡ d.get_duration name

abbrev pub Same : Context → Context → List Flag → Type 0
Same c d flags = All (λ f. All (SameAt c d f.kind) f.names) flags

-- Global flags are read from every command.
abbrev pub SameGlobalAt : Context → Context → Kind → Text → Type 0
SameGlobalAt c d (string _) name = c.get_global_string name ≡ d.get_global_string name
SameGlobalAt c d _ name = Unit

abbrev pub SameGlobal : Context → Context → List Flag → Type 0
SameGlobal c d flags = All (λ f. All (SameGlobalAt c d f.kind) f.names) flags

global_options-same :
    (c d : Context)
    → SameGlobal c d global_flags
    → c.get_global_string (codes "root") ≡ d.get_global_string (codes "root")
    → global_options c ≡ global_options d
global_options-same c d s r = ground (arith, s, r)

-- What an action reads depends on its first argument, on the flags that its command declares, each read by the type with
-- which it is declared, on the global flags likewise, and on root, which is declared as a slice of strings and read as a
-- string.
pub read_options-declared :
    (a : Action) (c d : Context)
    → first c.args ≡ first d.args
    → Same c d (flags_of a)
    → SameGlobal c d global_flags
    → c.get_global_string (codes "root") ≡ d.get_global_string (codes "root")
    → read_options a c ≡ read_options a d
read_options-declared debug c d e s g r = ground (arith, e, s, global_options-same c d g r)
read_options-declared prune c d e s g r = ground (arith, s, global_options-same c d g r)
read_options-declared du c d e s g r = ap of_du (global_options-same c d g r)
read_options-declared dap_serve c d e s g r = ground (arith, s, global_options-same c d g r)
read_options-declared dap_attach_container c d e s g r = ground (arith, e, s)
read_options-declared dap_prune c d e s g r = ground (arith, s, global_options-same c d g r)
read_options-declared dap_du c d e s g r = ap of_du (global_options-same c d g r)
