-- ===== src/Shell/Table/Words.antt =====
-- Which command a word names, and which flags it reads.
use buildg.Prelude.{
  ◌≡◌, refl, subst, not, ◌&&◌, ap, ◌∙◌, inl, inr, Bool, true, false, ◌||◌, List, [], ◌∷◌, ◌++◌,
  Option, none, some, arith, if◌then◌else◌, ◌==◌, All, In, AreDistinct,
}
use buildg.Text.{Text, text_eq, text_beq_iff}
use buildg.Main.Flags.{Flag, Context}
use buildg.Main.Flags.Declared.{Same}
use buildg.Shell.Table.{
  HandlerCommand, break_fn, breakpoints_fn, clear_fn, clear_all_fn, next_fn, continue_fn, exec_fn,
  list_fn, log_fn, reload_fn, exit_fn, handler_commands, words, declared, read_command,
}

has_word : Text → List Text → Bool
has_word w [] = false
has_word w (x ∷ xs) = x == w || has_word w xs

-- the first command with this word
first_with : Text → List HandlerCommand → Option HandlerCommand
unfolding has_word
first_with w [] = none
first_with w (f ∷ fs) = if has_word w (words (declared f)) then some f else first_with w fs

abbrev owner : Text → Option HandlerCommand
owner w = first_with w handler_commands

All_at {ℓ} : {A : Type 0} (P : A → Type ℓ) (xs : List A) (x : A) → All P xs → In x xs → P x
All_at P [] x h m = absurd m
All_at P (y ∷ ys) x h (inl e) = subst P e h.0
All_at P (y ∷ ys) x h (inr m) = All_at P ys x h.1 m

owned : (f : HandlerCommand) → All (λ w. owner w ≡ some f) (words (declared f))
unfolding first_with
owned break_fn = (refl, (refl, tt))
owned breakpoints_fn = (refl, (refl, tt))
owned clear_fn = (refl, tt)
owned clear_all_fn = (refl, tt)
owned next_fn = (refl, (refl, tt))
owned continue_fn = (refl, (refl, tt))
owned exec_fn = (refl, (refl, tt))
owned list_fn = (refl, (refl, (refl, tt)))
owned log_fn = (refl, tt)
owned reload_fn = (refl, tt)
owned exit_fn = (refl, (refl, (refl, tt)))

one_owner :
    (f g : HandlerCommand) (w : Text)
    → In w (words (declared f))
    → In w (words (declared g))
    → f ≡ g
one_owner f g w i j =
    let e = All_at (λ w. owner w ≡ some f) (words (declared f)) w (owned f) i in
    let q = All_at (λ w. owner w ≡ some g) (words (declared g)) w (owned g) j in cc (e, q)

read_command-Same :
    (f : HandlerCommand) (c d : Context)
    → c.args ≡ d.args
    → Same c d (declared f).flags
    → read_command f c ≡ read_command f d
read_command-Same break_fn c d e s = ground (arith, e)
read_command-Same breakpoints_fn c d e s = refl
read_command-Same clear_fn c d e s = ground (arith, e)
read_command-Same clear_all_fn c d e s = refl
read_command-Same next_fn c d e s = refl
read_command-Same continue_fn c d e s = ground (arith, e)
read_command-Same exec_fn c d e s = ground (arith, e, s)
read_command-Same list_fn c d e s = ground (arith, s)
read_command-Same log_fn c d e s = ground (arith, s)
read_command-Same reload_fn c d e s = refl
read_command-Same exit_fn c d e s = refl

no_word : (w : Text) (xs : List Text) → has_word w xs ≡ false → ¬ In w xs
unfolding has_word
no_word w [] e m = m
no_word w (x ∷ xs) e (inl same) = absurd (ground (arith, (text_beq_iff x w).1 same))
no_word w (x ∷ xs) e (inr m) = no_word w xs (ground arith) m

are_distinct : List Text → Bool
are_distinct [] = true
are_distinct (x ∷ xs) = not (has_word x xs) && are_distinct xs

AreDistinct_of_test : (xs : List Text) → are_distinct xs ≡ true → AreDistinct xs
unfolding are_distinct
AreDistinct_of_test [] e = tt
AreDistinct_of_test (x ∷ xs) e =
    (no_word x xs (ground arith), AreDistinct_of_test xs (ground arith))

abbrev pub flag_names : List Flag → List Text
flag_names [] = []
flag_names (f ∷ fs) = f.names ++ flag_names fs

distinct_flags : (f : HandlerCommand) → are_distinct (flag_names (declared f).flags) ≡ true
unfolding are_distinct has_word
distinct_flags exec_fn = refl
distinct_flags list_fn = refl
distinct_flags log_fn = refl
distinct_flags break_fn = refl
distinct_flags breakpoints_fn = refl
distinct_flags clear_fn = refl
distinct_flags clear_all_fn = refl
distinct_flags next_fn = refl
distinct_flags continue_fn = refl
distinct_flags reload_fn = refl
distinct_flags exit_fn = refl

-- A word, a name or an alias, is that of one command of the shell only. No flag of a command has the name of another of
-- its flags. And what the action of a command reads depends on the arguments and on the flags that it declares, each
-- read by the type with which it is declared.
pub read_command-declared :
    (f g : HandlerCommand) (w : Text) (c d : Context)
    → In w (words (declared f))
    → In w (words (declared g))
    → c.args ≡ d.args
    → Same c d (declared f).flags
    → (f ≡ g) × AreDistinct (flag_names (declared f).flags) × (read_command f c ≡ read_command g d)
read_command-declared f g w c d i j e s =
    let same = one_owner f g w i j in
    (
      same,
      AreDistinct_of_test (flag_names (declared f).flags) (distinct_flags f),
      read_command-Same f c d e s ∙ ap (λ k. read_command k d) same,
    )
