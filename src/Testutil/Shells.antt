-- ===== src/Testutil/Shells.antt =====
-- The shell that a test starts and the answers that it reads from it.
use buildg.Prelude.{
  ℕ, ◌<◌, ◌≤◌, ◌≡◌, refl, sym, ap, ◌∙◌, subst, Bool, true, false, List, [], ◌∷◌, ◌++◌, none, some,
  arith, ◌==◌, length, append-nil, Bool-cases, inl, inr, drop-append, take-append, append_assoc,
}
use buildg.Text.{Text, codes, text_eq, text_beq_iff}
use buildg.Errors.{Result, ok, err, ◌>>=◌}
use buildg.Main.Options.{has_prefix}
use buildg.Testutil.{
  Options, apply_all, no_options, Host, Started, get_buildg_binary, command, root_of, prompt_entry,
  with_prompt, debug_shell_cmd,
}
use buildg.Testutil.Environ.{value_of, find_env, getenv_of, new_prompt}
use buildg.Testutil.Reading.{last_index, Tick, read_until_prompt, output, do_args, shown_of}

has_prefix-append : (p s : Text) → has_prefix p (p ++ s) ≡ true
unfolding has_prefix
has_prefix-append [] s = refl
has_prefix-append (c ∷ p) s = rw ((text_beq_iff (c ∷ []) (c ∷ [])).1 refl) (has_prefix-append p s)

prefix_tail : (c d : ℕ) (p s : Text) → has_prefix (c ∷ p) (d ∷ s) ≡ true → has_prefix p s ≡ true
unfolding has_prefix
prefix_tail c d p s h = ground arith

has_prefix-length : (p s : Text) → has_prefix p s ≡ true → length p ≤ length s
unfolding has_prefix
has_prefix-length [] s h = omega arith
has_prefix-length (c ∷ p) [] h = absurd (cc h)
has_prefix-length (c ∷ p) (d ∷ s) h = omega (arith, has_prefix-length p s (prefix_tail c d p s h))

has_prefix-short : (p s : Text) → length s < length p → has_prefix p s ≡ false
has_prefix-short p s h = elim (Bool-cases (has_prefix p s)) [
  | inl y ↦ (let long = has_prefix-length p s y in absurd (omega arith))
  | inr n ↦ n
]

last_index-short : (s p : Text) → length s < length p → last_index s p ≡ none
unfolding last_index
last_index-short [] p h = rw (has_prefix-short p [] h) refl
last_index-short (c ∷ s) p h =
    rw (last_index-short s p (omega arith), has_prefix-short p (c ∷ s) h) refl

last_index-here :
    (c : ℕ) (s p : Text)
    → last_index s p ≡ none
    → has_prefix p (c ∷ s) ≡ true
    → last_index (c ∷ s) p ≡ some 0
unfolding last_index
last_index-here c s p n h = rw (n, h) refl

has_prefix_self : (p : Text) → has_prefix p p ≡ true
has_prefix_self p = ap (has_prefix p) (sym (append-nil p)) ∙ has_prefix-append p []

-- A text at the end of another is found there.
last_index-append : (s p : Text) → last_index (s ++ p) p ≡ some (length s)
unfolding last_index
last_index-append [] [] = unfold has_prefix in refl
last_index-append [] (c ∷ p) =
    last_index-here c p (c ∷ p) (last_index-short p (c ∷ p) (omega arith)) (has_prefix_self (c ∷ p))
last_index-append (c ∷ s) p = rw (last_index-append s p) refl

-- what the loop has read after some turns
abbrev pub gathered : List Tick → Text → Text
gathered [] out = out
gathered (t ∷ ts) out = gathered ts (out ++ t.got)

-- The prompt has not come, and the command goes on.
abbrev pub IsQuiet : Text → List Tick → Text → Type 0
IsQuiet prompt [] out = Unit
IsQuiet prompt (t ∷ ts) out =
    (t.read_error ≡ none)
    × (last_index (out ++ t.got) prompt ≡ none)
    × (t.wait_done ≡ false)
    × IsQuiet prompt ts (out ++ t.got)

read_until_prompt-answer :
    (prompt answer : Text) (ts : List Tick) (t : Tick) (rest : List Tick) (out : Text)
    → IsQuiet prompt ts out
    → t.read_error ≡ none
    → gathered ts out ++ t.got ≡ answer ++ prompt
    → read_until_prompt prompt (ts ++ t ∷ rest) out ≡ some (answer, none)
unfolding read_until_prompt
read_until_prompt-answer prompt answer [] t rest out q e g =
    rw (e, g, last_index-append answer prompt)
      (ap (λ x. some (x, none)) (take-append answer prompt))
read_until_prompt-answer prompt answer (u ∷ ts) t rest out (r, n, d, q) e g =
    rw (r, n, d) (read_until_prompt-answer prompt answer ts t rest (out ++ u.got) q e g)

value_of-entry : (k v : Text) → value_of (k ++ codes "=") (k ++ (codes "=" ++ v)) ≡ some v
value_of-entry k v =
    ap (value_of (k ++ codes "=")) (sym (append_assoc k (codes "=") v))
    ∙ rw (has_prefix-append (k ++ codes "=") v) (ap some (drop-append (k ++ codes "=") v))

find_env-last :
    (env : List Text) (k v : Text) → find_env (env ++ (k ++ (codes "=" ++ v)) ∷ []) k ≡ some v
unfolding find_env
find_env-last [] k v = value_of-entry k v
find_env-last (e ∷ env) k v = rw (find_env-last env k v) refl

abbrev pub arguments : Text → Options → Text → List Text
arguments build_ctx o dir =
    (codes "--root=" ++ dir) ∷ codes "--debug" ∷ (codes "debug" ∷ o.opts) ++ build_ctx ∷ []

-- the prompt of the shell that the command starts
abbrev pub shell_prompt : Started → Text
shell_prompt st = new_prompt (getenv_of st.cmd.env)

module _ (H : Host) (prompt build_ctx : Text) where
  -- the command is that of the debugger, and the last entry of its environment is the prompt
  abbrev IsDebug : Options → Started → Type 0
  IsDebug o st =
      (st.prompt ≡ prompt)
      × (st.cmd.args ≡ arguments build_ctx o st.root_dir)
      × ((env : List Text) × (st.cmd.env ≡ env ++ prompt_entry prompt ∷ []))

  with_path :
      (o : Options) (root : Result (Text × Bool)) (path : Result Text) (st : Started)
      → (root >>= λ r.
          command H
            ((codes "debug" ∷ o.opts) ++ build_ctx ∷ [])
            (record { env = o.env; global_opts = (codes "--root=" ++ r.0) ∷ [] })
            path
          >>= λ cmd. ok (with_prompt H prompt r cmd))
        ≡ ok st
      → IsDebug o st
  with_path o (err e) path st q = absurd (cc q)
  with_path o (ok r) (err e) st q = absurd (cc q)
  with_path o (ok (dir, t)) (ok path) st q =
      let started =
        with_prompt H prompt (dir, t)
          (record { path = path; args = arguments build_ctx o dir; env = H.environ ++ o.env }) in
      let e : started ≡ st = cc q in subst (IsDebug o) e (refl, refl, (H.environ ++ o.env, refl))

  debug_shell_cmd-IsDebug :
      (opts : List (Options → Options)) (st : Started)
      → debug_shell_cmd H prompt build_ctx opts ≡ ok st
      → IsDebug (apply_all opts no_options) st
  unfolding debug_shell_cmd
  debug_shell_cmd-IsDebug opts st q =
      with_path (apply_all opts no_options) (root_of H (apply_all opts no_options))
        (get_buildg_binary H) st q

  shell_prompt-is :
      (env : List Text)
      → (prompt == []) ≡ false
      → new_prompt (getenv_of (env ++ prompt_entry prompt ∷ [])) ≡ prompt
  unfolding new_prompt getenv_of
  shell_prompt-is env n = rw (find_env-last env (codes "BUILDG_PS1") prompt) (rw n refl)

  -- When NewDebugShell gets its command, with whatever options and environment, the command runs the debugger with these
  -- options on the context, and its shell shows the prompt that the helper waits for, if that is not empty. And when a
  -- shell shows an answer and then its prompt, in whatever parts the helper reads them, as long as no earlier
  -- part completes a prompt, fails, or comes when the command has ended, Do sends the line and returns exactly the
  -- answer.
  pub debug_shell-answers :
      (opts : List (Options → Options)) (st : Started) (args answer : Text) (ts : List Tick)
      (t : Tick) (rest : List Tick) (written : List Text)
      → (prompt == []) ≡ false
      → debug_shell_cmd H prompt build_ctx opts ≡ ok st
      → IsQuiet (shell_prompt st) ts []
      → t.read_error ≡ none
      → gathered ts [] ++ t.got ≡ answer ++ shell_prompt st
      → (st.cmd.args ≡ arguments build_ctx (apply_all opts no_options) st.root_dir)
        × (shell_prompt st ≡ st.prompt)
        × (do_args st.prompt args none (ts ++ t ∷ rest) written
            ≡ (some (output answer), written ++ (args ++ codes "\n") ∷ []))
  unfolding do_args
  debug_shell-answers opts st args answer ts t rest written n q quiet e g =
      let (p, a, (env, i)) = debug_shell_cmd-IsDebug opts st q in
      let same : shell_prompt st ≡ st.prompt =
        ap (λ es. new_prompt (getenv_of es)) i ∙ shell_prompt-is env n ∙ sym p in
      let read = read_until_prompt-answer (shell_prompt st) answer ts t rest [] quiet e g in
      (
        a,
        same,
        ap (λ r. (shown_of r, written ++ (args ++ codes "\n") ∷ []))
            (ap (λ x. read_until_prompt x (ts ++ t ∷ rest) []) (sym same) ∙ read),
      )
