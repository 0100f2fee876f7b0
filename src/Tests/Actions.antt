-- ===== src/Tests/Actions.antt =====
-- The actions of the commands on a small operating system.
use buildg.Prelude.{
  ◌≡◌, ◌≢◌, refl, ◌∙◌, inl, inr, true, false, List, [], ◌∷◌, Bool-cases, ◌||◌, Option, none, some,
  In, AreDistinct, arith, if◌then◌else◌, ◌==◌,
}
use buildg.Int.{pos}
use buildg.Text.{Text, codes, text_eq, text_beq_iff}
use buildg.Errors.{Error, message, ok}
use buildg.Client.Setup.{Config}
use buildg.Main.Roots.{Root, directory, lock_file, default_serve_root_dir}
use buildg.Main.Flags.{Context, prune, read_options, global_options}
use buildg.Main.Flags.Declared.{read_options-declared}
use buildg.Main.Actions.{Written, exclusive_action}
use buildg.Main.Actions.Exclusive.{HoldsNoMore, exclusive_action-locked}
use buildg.Main.Actions.Debug.{Logs, debug_action, dap_serve_action}
use buildg.Main.Actions.Debug.Given.{Setup, actions-given}
use buildg.Shell.Table.{list_fn, declared, read_command}
use buildg.Shell.Table.Words.{flag_names, read_command-declared}
use buildg.Tests.Main.{mem, without, SmallWorld, small_os, small_os-IsOs}
use buildg.Tests.Options.{tools, parse_cache}

abbrev context : Context
context = record {
  args = codes "/src" ∷ [];
  get_bool = λ n. n == codes "all";
  get_string = λ n. [];
  get_string_slice = λ n. [];
  get_int = λ n. pos 0;
  get_duration = λ n. pos 0;
  get_global_string = λ n. if n == codes "root" then codes "/r" else codes "auto";
}

-- A flag that no command declares is given another value.
abbrev context' : Context
context' = record context {
  get_string = λ n. if n == codes "platform" then codes "arm64" else [];
  get_bool = λ n. n == codes "all" || n == codes "quiet";
}

read_options-declared_example : read_options prune context ≡ read_options prune context'
read_options-declared_example =
    read_options-declared prune context context' refl ((refl, tt), tt)
      (
        (tt, tt),
        ((tt, tt), ((refl, tt), ((refl, tt), ((refl, tt), ((refl, tt), ((refl, tt), tt)))))),
      )
      refl

read_command-declared_example :
    (list_fn ≡ list_fn)
    × AreDistinct (flag_names (declared list_fn).flags)
    × (read_command list_fn context ≡ read_command list_fn context')
read_command-declared_example =
    read_command-declared list_fn list_fn (codes "ls") context context' (inr (inl refl))
      (inr (inl refl)) refl ((refl, tt), ((refl, tt), ((refl, tt), ((refl, tt), tt))))

In-mem : (p : Text) (qs : List Text) → In p qs → mem p qs ≡ true
In-mem p [] i = absurd i
In-mem p (q ∷ qs) (inl e) = ground (arith, text_beq_iff q p, e)
In-mem p (q ∷ qs) (inr i) = ground (arith, In-mem p qs i)

kept-only :
    (p q y : Text) (qs ws : List Text)
    → (y == p) ≡ false
    → (In q ws → (q ≢ p) × In q qs)
    → In q (y ∷ ws)
    → (q ≢ p) × In q (y ∷ qs)
kept-only p q y qs ws e rest (inl c) = (λ h. ground (arith, (text_beq_iff y p).1 (c ∙ h), e), inl c)
kept-only p q y qs ws e rest (inr j) = let (n, k) = rest j in (n, inr k)

without-only : (p q : Text) (qs : List Text) → In q (without p qs) → (q ≢ p) × In q qs
without-only p q [] i = absurd i
without-only p q (x ∷ qs) i = elim (Bool-cases (x == p)) [
  | inl e ↦ let (n, j) = without-only p q qs (rw e at i) in (n, inr j)
  | inr e ↦ kept-only p q x qs (without p qs) e (without-only p q qs) (rw e at i)
]

-- Prune that fails without its lock.
abbrev strict : Config → SmallWorld → Written × SmallWorld
strict cfg w =
    if mem (lock_file cfg.root) w.0
    then ((none, []), w)
    else ((some (message (codes "no lock")), []), w)

abbrev lax : Config → SmallWorld → Written × SmallWorld
lax cfg w = ((none, []), w)

strict_same :
    (cfg : Config) (w : SmallWorld) → In (lock_file cfg.root) w.0 → lax cfg w ≡ strict cfg w
strict_same cfg w i = rw (In-mem (lock_file cfg.root) w.0 i) refl

exclusive_action-locked_example :
    (exclusive_action small_os
        (λ n. [])
        false
        lax
        default_serve_root_dir
        (global_options context)
        (codes "x" ∷ [], [])
      ≡ exclusive_action small_os
          (λ n. [])
          false
          strict
          default_serve_root_dir
          (global_options context)
          (codes "x" ∷ [], []))
    × HoldsNoMore small_os small_os-IsOs
        (codes "x" ∷ [], [])
        (exclusive_action small_os
          (λ n. [])
          false
          lax
          default_serve_root_dir
          (global_options context)
          (codes "x" ∷ [], [])).1
exclusive_action-locked_example =
    exclusive_action-locked small_os small_os-IsOs (λ n. []) false default_serve_root_dir
      (global_options context) (codes "x" ∷ [], []) lax strict (λ p q w. without-only p q w.0)
      strict_same (λ cfg w q i. i)

abbrev logs : Logs SmallWorld
logs = record {
  create_temp = λ d n w. (ok (codes "/r/data/buildg-log1"), w);
  create = λ n w. w;
  remove = λ n w. w;
}

abbrev debug_lax :
    Setup small_os small_os-IsOs (λ n. []) false logs tools Text parse_cache
    → SmallWorld
    → Option Error × SmallWorld
debug_lax s w = (none, w)

-- Debug that fails without a stop on entry, and a server that fails out of its directory.
abbrev debug_strict :
    Setup small_os small_os-IsOs (λ n. []) false logs tools Text parse_cache
    → SmallWorld
    → Option Error × SmallWorld
debug_strict s w = if s.stop_on_entry then (none, w) else (some (message (codes "running")), w)

abbrev serve_lax : Config → Root → SmallWorld → Option Error × SmallWorld
serve_lax cfg r w = (none, w)

abbrev serve_strict : Config → Root → SmallWorld → Option Error × SmallWorld
serve_strict cfg r w =
    if cfg.root == directory r then (none, w) else (some (message (codes "elsewhere")), w)

actions-given_example :
    (debug_action small_os (λ n. []) false logs tools Text parse_cache debug_lax context ([], [])
      ≡ debug_action small_os
          (λ n. [])
          false
          logs
          tools
          Text
          parse_cache
          debug_strict
          context
          ([], []))
    × (dap_serve_action small_os
          (λ n. [])
          false
          logs
          tools
          Text
          parse_cache
          serve_lax
          context
          ([], [])
        ≡ dap_serve_action small_os
            (λ n. [])
            false
            logs
            tools
            Text
            parse_cache
            serve_strict
            context
            ([], []))
actions-given_example =
    actions-given small_os small_os-IsOs (λ n. []) false logs tools Text parse_cache debug_lax
      debug_strict serve_lax serve_strict (λ s w g. rw g.stops refl)
      (λ cfg r w g. rw ((text_beq_iff cfg.root (directory r)).1 g.0) refl) (λ d n w. (refl, refl))
      context ([], [])
