-- ===== src/Shell/Breaks/Targets.antt =====
-- Breaks that are no target are passed.
use buildg.Prelude.{◌≡◌, refl, ap, ◌∙◌, true, false, List, [], ◌∷◌, ◌++◌, none, some, ◌==◌, arith}
use buildg.Text.{Text, text_eq}
use buildg.Dict.{Dict, lookup, keys}
use buildg.Handler.{Handler, BreakContext, BreakpointInfo, set_break_each_vertex}
use buildg.Breakpoints.{Breakpoint, get}
use buildg.Shell.{continue_command}
use buildg.Shell.Commands.{continue_key, runs, Progress, Console, action}
use buildg.Shell.Breaks.{
  Input, line, CommandHandler, write_shown, lines_at, dispatch, prompted, read_loop, hit_lines,
  is_among, break_handler,
}

module _ (K : Console) (progress : Progress) where
  -- At each of these breaks in turn, the shell lets the build go on and leaves the handler as it is.
  abbrev pub Passes : List (BreakContext × Handler) → CommandHandler → CommandHandler → Type 0
  Passes [] ch ch' = ch' ≡ ch
  Passes ((ctx, h) ∷ bs) ch ch' =
      (mid : CommandHandler) × (break_handler K ctx progress h ch ≡ some (none, h, mid))
      × Passes bs mid ch'

  abbrev pub Misses : Text → List (BreakContext × Handler) → Type 0
  Misses key [] = Unit
  Misses key ((ctx, h) ∷ bs) = (lookup key ctx.hits ≡ none) × Misses key bs

  is_among-none :
      (key : Text) (hits : Dict Text BreakpointInfo)
      → lookup key hits ≡ none
      → is_among key (keys hits) ≡ false
  unfolding is_among lookup
  is_among-none key [] h = refl
  is_among-none key ((k, b) ∷ hits) h = ground (arith, is_among-none key hits)

  is_among-some :
      (key : Text) (b : BreakpointInfo) (hits : Dict Text BreakpointInfo)
      → lookup key hits ≡ some b
      → is_among key (keys hits) ≡ true
  unfolding is_among lookup
  is_among-some key b [] h = ground arith
  is_among-some key b ((k, c) ∷ hits) h = ground (arith, is_among-some key b hits)

  break_handler-passes :
      (key : Text) (ctx : BreakContext) (h : Handler) (ch : CommandHandler)
      → (key == []) ≡ false
      → ch.target_breakpoint ≡ key
      → lookup key ctx.hits ≡ none
      → break_handler K ctx progress h ch ≡ some (none, h, write_shown (hit_lines ctx.hits) ch)
  unfolding break_handler
  break_handler-passes key ctx h ch n e m = rw (e, n, is_among-none key ctx.hits m) refl

  Passes-all :
      (key : Text) (bs : List (BreakContext × Handler)) (ch : CommandHandler)
      → (key == []) ≡ false
      → ch.target_breakpoint ≡ key
      → Misses key bs
      → (ch' : CommandHandler) × Passes bs ch ch'
        × (ch'.inputs ≡ ch.inputs)
        × (ch'.target_breakpoint ≡ key)
  Passes-all key [] ch n e m = (ch, refl, refl, e)
  Passes-all key ((ctx, h) ∷ bs) ch n e (m, ms) =
      let mid = write_shown (hit_lines ctx.hits) ch in
      let (ch', p, i, t) = Passes-all key bs mid n e ms in
      (ch', (mid, break_handler-passes key ctx h ch n e m, p), i, t)

  break_handler-stops :
      (key : Text) (ctx : BreakContext) (h : Handler) (ch : CommandHandler) (b : BreakpointInfo)
      → (key == []) ≡ false
      → ch.target_breakpoint ≡ key
      → lookup key ctx.hits ≡ some b
      → break_handler K ctx progress h ch
        ≡ break_handler K ctx progress h (record ch { target_breakpoint = [] })
  unfolding break_handler
  break_handler-stops key ctx h ch b n e m = rw (e, n, is_among-some key b ctx.hits m) refl

  -- The line continues to this key.
  abbrev pub IsContinue : Text → Text → Type 0
  IsContinue key t =
      (w : Text) × (ws : List Text) × ((w == []) ≡ false)
      × (K.split t ≡ some (w ∷ ws))
      × (K.parse (w ∷ ws) ≡ runs (continue_key key))

  read_loop-continue :
      (key : Text) (bp : Breakpoint) (t : Text) (is : List Input) (ctx : BreakContext) (h : Handler)
      (ch : CommandHandler)
      → (key == []) ≡ false
      → IsContinue key t
      → get key h.breakpoints ≡ some bp
      → (ch' : CommandHandler) × (read_loop K ctx progress (line t ∷ is) h ch
          ≡ some (none, set_break_each_vertex false h, ch'))
        × (ch'.inputs ≡ is)
        × (ch'.target_breakpoint ≡ key)
  unfolding read_loop dispatch action continue_command
  read_loop-continue key bp t is ctx h ch n (w, ws, v, s, p) g =
      let first : CommandHandler = prompted K ctx progress is ch in
      (
        record first {
          shown = first.shown ++ ([] ++ []);
          steps = first.steps ++ [];
          target_breakpoint = key;
        },
        rw (s, v, p, n, g, n) refl,
        refl,
        refl,
      )

  -- At a break with no target, a line that continues to a key whose breakpoint is set lets the build go on. At all
  -- later breaks that do not hit the key, the shell lets it go on too, reads nothing and leaves the handler as it
  -- is. At the next break that hits the key, it stops as if there had been no target.
  pub break_handler-target :
      (key : Text) (bp : Breakpoint) (t : Text) (is : List Input) (ctx : BreakContext) (h : Handler)
      (ch : CommandHandler)
      → (key == []) ≡ false
      → ch.target_breakpoint ≡ []
      → ch.inputs ≡ line t ∷ is
      → IsContinue key t
      → get key h.breakpoints ≡ some bp
      → (bs : List (BreakContext × Handler)) → Misses key bs
      → (last : BreakContext) (h' : Handler) (b : BreakpointInfo) → lookup key last.hits ≡ some b
      → (ch1 : CommandHandler) × (ch2 : CommandHandler) × (break_handler K ctx progress h ch
          ≡ some (none, set_break_each_vertex false h, ch1))
        × Passes bs ch1 ch2
        × (ch2.inputs ≡ is)
        × (break_handler K last progress h' ch2
            ≡ break_handler K last progress h' (record ch2 { target_breakpoint = [] }))
  unfolding break_handler
  break_handler-target key bp t is ctx h ch n o i c g bs m last h' b l =
      let seen : CommandHandler =
        record (write_shown (lines_at K ctx progress h ∷ [])
          (write_shown (hit_lines ctx.hits) ch)) { target_breakpoint = [] } in
      let reads : break_handler K ctx progress h ch ≡ read_loop K ctx progress ch.inputs h seen =
        rw o refl in
      let (ch1, e, at, target) = read_loop-continue key bp t is ctx h seen n c g in
      let (ch2, p, at2, target2) = Passes-all key bs ch1 n target m in
      (
        ch1,
        ch2,
        reads ∙ ap (λ xs. read_loop K ctx progress xs h seen) i ∙ e,
        p,
        at2 ∙ at,
        break_handler-stops key last h' ch2 b n target2 l,
      )
