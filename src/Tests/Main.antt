-- ===== src/Tests/Main.antt =====
-- main.go on an operating system with a list of locks and of temporary directories.
use buildg.Prelude.{
  AreDistinct, ℕ, suc, ◌+◌, ◌≤◌, ◌≡◌, ◌≢◌, refl, sym, ap, ◌∙◌, subst, inl, inr, Bool, true, false,
  List, [], ◌∷◌, ◌++◌, map, some, arith, length, take, drop, replicate, length-append,
  length-replicate, if◌then◌else◌, ◌==◌, In,
}
use buildg.Text.{Text, codes, text_eq, text_beq, text_beq_iff}
use buildg.Errors.{Result, ok, err}
use buildg.Container.Paths.{join, clean, segments, simplify, unite}
use buildg.Main.Os.{Flock, acquired, would_block, Os, IsOs}
use buildg.Main.Roots.{
  default_serve_root_dir, default_dap_root_dir, directory, try_lock, debug_root, dap_serve_root,
  release_root, start, Event, starts, ends, debug, dap_serve, history,
}
use buildg.Main.Roots.Starts.{HasApartRoots}
use buildg.Main.Roots.Apart.{history-AreDistinct}
use buildg.Main.Progress.{
  File, TakesAll, ProgressWriter, new_progress_writer, buffered, Call, writes, enables, disables,
  call, write, enable, disable, run, show_all, blank,
}
use buildg.Main.Progress.Shown.{run-show_all}

abbrev pub mem : Text → List Text → Bool
mem p [] = false
mem p (q ∷ qs) = if q == p then true else mem p qs

mem-In : (p : Text) (qs : List Text) → mem p qs ≡ false → ¬ In p qs
mem-In p [] h i = i
mem-In p (q ∷ qs) h i = ground (arith, text_beq_iff q p, mem-In p qs)

abbrev pub without : Text → List Text → List Text
without p [] = []
without p (q ∷ qs) = if q == p then without p qs else q ∷ without p qs

In-kept :
    (b : Bool) (q x : Text) (qs ws : List Text)
    → (b ≡ true → x ≢ q)
    → (In q qs → In q ws)
    → In q (x ∷ qs)
    → In q (if b then ws else x ∷ ws)
In-kept true q x qs ws h k (inl e) = absurd (h refl e)
In-kept true q x qs ws h k (inr i) = k i
In-kept false q x qs ws h k (inl e) = inl e
In-kept false q x qs ws h k (inr i) = inr (k i)

without-In : (p q : Text) (qs : List Text) → q ≢ p → In q qs → In q (without p qs)
without-In p q [] n i = i
without-In p q (x ∷ qs) n i =
    In-kept (x == p) q x qs (without p qs) (λ e c. n (sym c ∙ (text_beq_iff x p).0 e))
      (without-In p q qs n) i

abbrev pub total : List Text → ℕ
total [] = 0
total (t ∷ ts) = length t + total ts

total-In : (t : Text) (ts : List Text) → In t ts → length t ≤ total ts
total-In t [] i = absurd i
total-In t (x ∷ ts) (inl e) = ground (arith, ap length e)
total-In t (x ∷ ts) (inr i) = ground (arith, total-In t ts i)

abbrev pub temp_name : Text → List Text → Text
temp_name d ts = d ++ (codes "/buildg" ++ replicate (suc (total ts)) 48)

temp_name-new : (d : Text) (ts : List Text) → ¬ In (temp_name d ts) ts
temp_name-new d ts i =
    let zeros : Text = replicate (suc (total ts)) 48 in
    let a : length (temp_name d ts) ≤ total ts = total-In (temp_name d ts) ts i in
    let b : length (temp_name d ts) ≡ length d + length (codes "/buildg" ++ zeros) =
      length-append d (codes "/buildg" ++ zeros) in
    let e : length (codes "/buildg" ++ zeros) ≡ 7 + length zeros =
      length-append (codes "/buildg") zeros in
    let c : length zeros ≡ suc (total ts) = length-replicate {A = ℕ} (suc (total ts)) 48 in
    omega (arith, a, b, c, e)

abbrev pub SmallWorld : Type 0
SmallWorld = List Text × List Text

abbrev pub flock_in : Text → SmallWorld → Bool → Flock × SmallWorld
flock_in p w true = (would_block, w)
flock_in p (h, ts) false = (acquired, (p ∷ h, ts))

abbrev pub small_os : Os
small_os = record {
  World = List Text × List Text;
  mkdir_all = λ p w. (ok tt, w);
  create = λ p w. (ok tt, w);
  flock = λ p w. flock_in p w (mem p w.0);
  unlock = λ p w. (without p w.0, w.1);
  mkdir_temp = λ d p w. (ok (temp_name d w.1), (w.0, temp_name d w.1 ∷ w.1));
  remove_all = λ t w. (w.0, without t w.1);
  held = λ w. w.0;
  temps = λ w. w.1;
}

flock_in-acquired :
    (p : Text) (w : SmallWorld) (b : Bool)
    → (b ≡ false → ¬ In p w.0)
    → (flock_in p w b).0 ≡ acquired
    → (¬ In p w.0) × ((flock_in p w b).1.0 ≡ p ∷ w.0)
flock_in-acquired p w true n e = absurd (ground arith)
flock_in-acquired p w false n e = (n refl, refl)

flock_in-refused :
    (p : Text) (w : SmallWorld) (b : Bool)
    → (flock_in p w b).0 ≢ acquired
    → (flock_in p w b).1.0 ≡ w.0
flock_in-refused p w true n = refl
flock_in-refused p w false n = absurd (n refl)

flock_in_temps : (p : Text) (w : SmallWorld) (b : Bool) → (flock_in p w b).1.1 ≡ w.1
flock_in_temps p w true = refl
flock_in_temps p w false = refl

abbrev value_of : Result Text → Text
value_of (ok t) = t
value_of (err e) = []

different : (s t : Text) → text_beq s t ≡ false → s ≢ t
different s t h e = ground (arith, text_beq_iff s t)

pub small_os-IsOs : IsOs small_os
small_os-IsOs = record {
  mkdir_all_same = λ p w. (refl, refl);
  create_same = λ p w. (refl, refl);
  flock_acquired = λ p w. flock_in-acquired p w (mem p w.0) (mem-In p w.0);
  flock_refused = λ p w. flock_in-refused p w (mem p w.0);
  flock_temps = λ p w. flock_in_temps p w (mem p w.0);
  unlock_held = λ p q w n i. without-In p q w.0 n i;
  unlock_temps = λ p w. refl;
  mkdir_temp_held = λ d p w. refl;
  mkdir_temp_ok = λ d p t w e.
      let f : temp_name d w.1 ≡ t = ap value_of e in
      (subst (λ x. ¬ In x w.1) f (temp_name-new d w.1), ap (λ x. x ∷ w.1) f);
  mkdir_temp_err = λ d p e w h. ground arith;
  remove_all_temps = λ t q w n i. without-In t q w.1 n i;
  remove_all_held = λ t w. refl;
}

abbrev root_dir : Text
root_dir = codes "/r"

names_apart :
    (dir t : Text) (ts : List Text)
    → In dir (root_dir ∷ (default_dap_root_dir root_dir).0 ∷ [])
    → temp_name dir ts ≡ t
    → (t ≢ default_serve_root_dir root_dir) × (t ≢ (default_dap_root_dir root_dir).1)
unfolding default_serve_root_dir default_dap_root_dir join clean segments simplify unite
names_apart dir t ts (inl c) e =
    subst (λ x. (x ≢ codes "/r/data") × (x ≢ codes "/r/dap/buildg"))
      (ap (λ d. temp_name d ts) c ∙ e) (different _ _ refl, different _ _ refl)
names_apart dir t ts (inr (inl c)) e =
    subst (λ x. (x ≢ codes "/r/data") × (x ≢ codes "/r/dap/buildg"))
      (ap (λ d. temp_name d ts) c ∙ e) (different _ _ refl, different _ _ refl)
names_apart dir t ts (inr (inr i)) e = absurd i

small_os-HasApartRoots : HasApartRoots small_os root_dir
unfolding default_serve_root_dir default_dap_root_dir join clean segments simplify unite
small_os-HasApartRoots = record {
  roots = λ e. different _ _ refl e;
  locks = λ e. different _ _ refl e;
  names = λ dir t w i e. names_apart dir t w.1 i (ap value_of e);
}

-- two debug sessions, of which the second finds the lock taken, a DAP session, and the end of the first
abbrev events : List Event
events =
    starts (debug true) ∷ starts (debug true) ∷ starts dap_serve ∷ ends 2 ∷ starts (debug true) ∷ []

three_roots :
    map directory (history small_os root_dir events (record { world = ([], []); live = [] })).live
    ≡ codes "/r/data" ∷ codes "/r/dap/buildg" ∷ codes "/r/buildg0" ∷ []
unfolding history start debug_root dap_serve_root try_lock release_root default_serve_root_dir
    default_dap_root_dir join clean segments simplify unite
three_roots = refl

history-AreDistinct_example :
    AreDistinct (
      map directory
        (history small_os root_dir events (record { world = ([], []); live = [] })).live)
history-AreDistinct_example =
    history-AreDistinct small_os small_os-IsOs root_dir small_os-HasApartRoots ([], []) events

abbrev pub text_file : File
text_file = record { Disk = Text; write_bytes = λ p d. (ok (length p), d ++ p); bytes = λ d. d }

abbrev text_file-TakesAll : TakesAll text_file
text_file-TakesAll p d = (refl, refl)

abbrev progress : List Call
progress =
    writes (codes "one")
    ∷ disables
    ∷ writes (codes "two")
    ∷ enables
    ∷ disables
    ∷ writes (codes "three")
    ∷ []

progress_shown :
    let w : ProgressWriter text_file text_file = run progress (new_progress_writer [] []) in
    (w.terminal ≡ codes "onetwo")
    × (buffered w ≡ codes "three")
    × (w.log_file ≡ some (codes "onetwothree"))
unfolding run call write enable disable buffered
progress_shown = (refl, refl, refl)

run-show_all_example :
    let w = run progress (new_progress_writer {T = text_file} {L = text_file} [] []) in
    let v = show_all progress blank in
    (w.terminal ≡ take v.cursor v.all)
    × (buffered w ≡ drop v.cursor v.all)
    × ((d : Text) × (w.log_file ≡ some d) × (d ≡ v.all))
run-show_all_example =
    run-show_all text_file text_file text_file-TakesAll text_file-TakesAll progress [] []
