-- ===== src/Main/Actions/Exclusive.antt =====
-- Prune and du work under the lock of their directory, and give it back.
use buildg.Prelude.{
  ◌≡◌, ◌≢◌, refl, sym, ap, ◌∙◌, subst, ◌⊎◌, inl, inr, Bool, true, false, List, [], ◌∷◌, In, ◌==◌,
  if◌then◌else◌,
}
use buildg.Text.{Text, text_eq}
use buildg.Errors.{Result, ok, err}
use buildg.Client.Setup.{Config}
use buildg.Main.Os.{Io, and_then, give, Flock, acquired, would_block, flock_failed, Os, IsOs}
use buildg.Main.Roots.{
  Root, shared, temporary, lock_file, locked, try_lock, exclusive_root, release_root, parse_root,
  root_data_dir, made_dir,
}
use buildg.Main.Flags.{GlobalOptions}
use buildg.Main.Actions.{
  Written, config_of, parse_global_worker_config, run_in, run_configured, exclusive_action,
}

-- An unlock ends the lock of its file and of no other.
abbrev pub Unlocks : Os → Type 0
Unlocks O = (p q : Text) (w : O.World) → In q (O.held (O.unlock p w)) → (q ≢ p) × In q (O.held w)

module _ (O : Os) (is_os : IsOs O) where
  open O use {World, mkdir_all, create, flock, unlock, held}

  -- All that is held now was held in `w`.
  abbrev pub HoldsNoMore : World → World → Type 0
  HoldsNoMore w w' = (q : Text) → In q (held w') → In q (held w)

  -- a lock on `dir` and no other, or nothing new
  abbrev Locks : Text → World → Result Root × World → Type 0
  Locks dir w (err e, w') = HoldsNoMore w w'
  Locks dir w (ok (temporary t), w') = ⊥
  Locks dir w (ok (shared d), w') =
      (d ≡ dir)
      × In (lock_file dir) (held w')
      × ((q : Text) → In q (held w') → (q ≡ lock_file dir) ⊎ In q (held w))

  same-HoldsNoMore : (w w' : World) → held w' ≡ held w → HoldsNoMore w w'
  same-HoldsNoMore w w' e q i = subst (λ l. In q l) e i

  Locks-after :
      (dir : Text) (w w' : World) (x : Result Root × World)
      → HoldsNoMore w w'
      → Locks dir w' x
      → Locks dir w x
  Locks-after dir w w' (err e, v) s l = λ q i. s q (l q i)
  Locks-after dir w w' (ok (shared d), v) s (e, h, n) =
      (e, h, λ q i. elim (n q i) [ inl c ↦ inl c | inr j ↦ inr (s q j) ])
  Locks-after dir w w' (ok (temporary t), v) s l = absurd l

  In-head : (q p : Text) (l : List Text) → In q (p ∷ l) → (q ≡ p) ⊎ In q l
  In-head q p l (inl e) = inl (sym e)
  In-head q p l (inr i) = inr i

  module _ (dir : Text) (stop : Io World Root) (stops : (w : World) → Locks dir w (stop w)) where
    flock-Locks :
        (w : World) (f : Flock × World)
        → f ≡ flock (lock_file dir) w
        → Locks dir w (and_then (locked O f) (λ ok. if ok then give (shared dir) else stop))
    flock-Locks w (acquired, w') e =
        let won = is_os.flock_acquired (lock_file dir) w (sym (ap (λ m. m.0) e)) in
        let new_held : held w' ≡ lock_file dir ∷ held w = ap (λ m. held m.1) e ∙ won.1 in
        (
          refl,
          subst (λ l. In (lock_file dir) l) (sym new_held) (inl refl),
          λ q i. In-head q (lock_file dir) (held w) (subst (λ l. In q l) new_held i),
        )
    flock-Locks w (would_block, w') e =
        Locks-after dir w w' (stop w')
          (same-HoldsNoMore w w' (
            ap (λ m. held m.1) e
            ∙ is_os.flock_refused (lock_file dir) w (λ z. absurd (cc (ap (λ m. m.0) e, z)))))
          (stops w')
    flock-Locks w (flock_failed x, w') e = same-HoldsNoMore w w' (
        ap (λ m. held m.1) e
        ∙ is_os.flock_refused (lock_file dir) w (λ z. absurd (cc (ap (λ m. m.0) e, z))))

    create-Locks :
        (w : World) (m : Result Unit × World)
        → held m.1 ≡ held w
        → Locks dir w (
            and_then
              (and_then m (λ u v. locked O (flock (lock_file dir) v)))
              (λ ok. if ok then give (shared dir) else stop))
    create-Locks w (err e, w') s = same-HoldsNoMore w w' s
    create-Locks w (ok u, w') s =
        Locks-after dir w w' _ (same-HoldsNoMore w w' s)
          (flock-Locks w' (flock (lock_file dir) w') refl)

    mkdir-Locks :
        (w : World) (m : Result Unit × World)
        → held m.1 ≡ held w
        → Locks dir w (
            and_then m
              (λ u v. and_then (try_lock O dir v) (λ ok. if ok then give (shared dir) else stop)))
    unfolding try_lock
    mkdir-Locks w (err e, w') s = same-HoldsNoMore w w' s
    mkdir-Locks w (ok u, w') s =
        Locks-after dir w w' _ (same-HoldsNoMore w w' s)
          (create-Locks w' (create (lock_file dir) w') (is_os.create_same (lock_file dir) w').0)

  exclusive_root-Locks : (dir : Text) (w : World) → Locks dir w (exclusive_root O dir w)
  unfolding exclusive_root try_lock
  exclusive_root-Locks dir w =
      mkdir-Locks dir _ (λ v q i. i) w (mkdir_all dir w) (is_os.mkdir_all_same dir w).0

  made-HoldsNoMore :
      (w : World) (m : Result Unit × World) (dir : Text)
      → held m.1 ≡ held w
      → HoldsNoMore w (and_then m (λ u. give dir)).1
  made-HoldsNoMore w (err e, w') dir s = same-HoldsNoMore w w' s
  made-HoldsNoMore w (ok u, w') dir s = same-HoldsNoMore w w' s

  root_dir-HoldsNoMore :
      (w : World) (named : Bool) (given : Text) (r : Result Text)
      → HoldsNoMore w ((if named then made_dir O r else give given) w).1
  root_dir-HoldsNoMore w false given r = λ q i. i
  root_dir-HoldsNoMore w true given (err e) = λ q i. i
  root_dir-HoldsNoMore w true given (ok dir) =
      made-HoldsNoMore w (mkdir_all dir w) dir (is_os.mkdir_all_same dir w).0

  and_then-HoldsNoMore :
      {A B : Type 0} (w : World) (m : Result A × World) (b : A → B)
      → HoldsNoMore w m.1
      → HoldsNoMore w (and_then m (λ a. give (b a))).1
  and_then-HoldsNoMore w (err e, w') b h = h
  and_then-HoldsNoMore w (ok a, w') b h = h

  parse-HoldsNoMore :
      (getenv : Text → Text) (rootless : Bool) (g : GlobalOptions) (w : World)
      → HoldsNoMore w (parse_global_worker_config O getenv rootless g w).1
  unfolding parse_global_worker_config parse_root
  parse-HoldsNoMore getenv rootless g w =
      and_then-HoldsNoMore w _ (λ dir. (config_of O getenv rootless g, dir))
        (root_dir-HoldsNoMore w (g.root == []) g.root (root_data_dir getenv rootless))

  abbrev Run : Type 0
  Run = Config → World → Written × World

  module _ (getenv : Text → Text) (rootless : Bool) (run : Run) where
    module _ (run' : Run)
        (agrees : (cfg : Config) (w : World)
          → In (lock_file cfg.root) (held w)
          → run cfg w ≡ run' cfg w) where
      run_in-agrees :
          (dir : Text) (cfg : Config) (w : World) (x : Result Root × World)
          → Locks dir w x
          → run_in O getenv rootless run cfg x ≡ run_in O getenv rootless run' cfg x
      run_in-agrees dir cfg w (err e, w') l = refl
      run_in-agrees dir cfg w (ok (temporary t), w') l = absurd l
      run_in-agrees dir cfg w (ok (shared d), w') (e, h, n) =
          ap (λ out. (out.0, release_root O (shared d) out.1))
            (agrees (record cfg { root = d }) w'
              (subst (λ l. In (lock_file l) (held w')) (sym e) h))

      run_configured-agrees :
          (dir_of : Text → Text) (x : Result (Config × Text) × World)
          → run_configured O getenv rootless run dir_of x
            ≡ run_configured O getenv rootless run' dir_of x
      run_configured-agrees dir_of (err e, w) = refl
      run_configured-agrees dir_of (ok (cfg, root_dir), w) =
          run_in-agrees (dir_of root_dir) cfg w _ (exclusive_root-Locks (dir_of root_dir) w)

    module _ (unlocks : Unlocks O)
        (keeps : (cfg : Config) (w : World) → HoldsNoMore w (run cfg w).1) where
      run_in-HoldsNoMore :
          (dir : Text) (cfg : Config) (w : World) (x : Result Root × World)
          → Locks dir w x
          → HoldsNoMore w (run_in O getenv rootless run cfg x).1
      unfolding release_root
      run_in-HoldsNoMore dir cfg w (err e, w') l = l
      run_in-HoldsNoMore dir cfg w (ok (temporary t), w') l = absurd l
      run_in-HoldsNoMore dir cfg w (ok (shared d), w') (e, h, n) = λ q i.
          let (other, j) = unlocks (lock_file d) q _ i in
          elim (n q (keeps (record cfg { root = d }) w' q j)) [
            | inl c ↦ absurd (other (c ∙ ap lock_file (sym e)))
            | inr k ↦ k
          ]

      run_configured-HoldsNoMore :
          (dir_of : Text → Text) (w : World) (x : Result (Config × Text) × World)
          → HoldsNoMore w x.1
          → HoldsNoMore w (run_configured O getenv rootless run dir_of x).1
      run_configured-HoldsNoMore dir_of w (err e, w') s = s
      run_configured-HoldsNoMore dir_of w (ok (cfg, root_dir), w') s = λ q i. s q (
          run_in-HoldsNoMore (dir_of root_dir) cfg w' _ (exclusive_root-Locks (dir_of root_dir) w')
            q i)

  -- prune, du and the same of dap call BuildKit only while they hold the lock of the directory that they give to it: how it
  -- behaves at any other time changes nothing. If an unlock ends just the lock of its file, and BuildKit leaves no lock of
  -- its own, they hold no lock afterwards that was not held before, whether they fail or not.
  pub exclusive_action-locked :
      (getenv : Text → Text) (rootless : Bool) (dir_of : Text → Text) (g : GlobalOptions)
      (w : World) (run run' : Config → World → Written × World)
      → Unlocks O
      → ((cfg : Config) (v : World) → In (lock_file cfg.root) (held v) → run cfg v ≡ run' cfg v)
      → ((cfg : Config) (v : World) → HoldsNoMore v (run cfg v).1)
      → (exclusive_action O getenv rootless run dir_of g w
          ≡ exclusive_action O getenv rootless run' dir_of g w)
        × HoldsNoMore w (exclusive_action O getenv rootless run dir_of g w).1
  unfolding exclusive_action
  exclusive_action-locked getenv rootless dir_of g w run run' unlocks agrees keeps = (
    run_configured-agrees getenv rootless run run' agrees dir_of _,
    run_configured-HoldsNoMore getenv rootless run unlocks keeps dir_of w _
        (parse-HoldsNoMore getenv rootless g w),
  )
