-- ===== src/Main/Roots/Starts.antt =====
-- What a command that starts has changed: the locks and the temporary directories.
use buildg.Prelude.{
  ◌≡◌, ◌≢◌, refl, sym, ap, ◌∙◌, arith, subst, ◌⊎◌, inl, inr, true, false, [], ◌∷◌, if◌then◌else◌,
  In,
}
use buildg.Text.{Text, codes}
use buildg.Errors.{locked_root, Result, ok, err}
use buildg.Main.Os.{Io, and_then, give, Flock, acquired, would_block, flock_failed, Os, IsOs}
use buildg.Main.Roots.{
  default_serve_root_dir, default_dap_root_dir, Root, shared, temporary, lock_file, Command, debug,
  prune, du, dap_serve, dap_prune, dap_du, locked, try_lock, temporary_root, lock_or, debug_root,
  exclusive_root, dap_serve_root, start,
}

-- The two directories that are kept, and their locks, differ, and no temporary directory is named like them.
pub record HasApartRoots (O : Os) (root_dir : Text) : Type 0 where
  pub roots : default_serve_root_dir root_dir ≢ (default_dap_root_dir root_dir).1
  pub locks :
      lock_file (default_serve_root_dir root_dir) ≢ lock_file (default_dap_root_dir root_dir).1
  pub names :
      (dir t : Text) (w : O.World)
      → In dir (root_dir ∷ (default_dap_root_dir root_dir).0 ∷ [])
      → (O.mkdir_temp dir (codes "buildg") w).0 ≡ ok t
      → (t ≢ default_serve_root_dir root_dir) × (t ≢ (default_dap_root_dir root_dir).1)

module _ (O : Os) (is_os : IsOs O) (root_dir : Text) (apart : HasApartRoots O root_dir) where
  open O use {World, mkdir_all, create, flock, unlock, mkdir_temp, remove_all, held, temps}

  abbrev pub serve_root : Text
  serve_root = default_serve_root_dir root_dir

  abbrev pub dap_root : Text
  dap_root = (default_dap_root_dir root_dir).1

  abbrev pub IsKept : Text → Type 0
  IsKept d = (d ≡ serve_root) ⊎ (d ≡ dap_root)

  abbrev pub IsHeldBy : World → Root → Type 0
  IsHeldBy w (shared d) = IsKept d × In (lock_file d) (held w)
  IsHeldBy w (temporary t) = (¬ IsKept t) × In t (temps w)

  abbrev pub IsNew : World → Root → Type 0
  IsNew w (shared d) = ¬ In (lock_file d) (held w)
  IsNew w (temporary t) = ¬ In t (temps w)

  abbrev pub Grows : World → World → Type 0
  Grows w w' =
      ((q : Text) → In q (held w) → In q (held w'))
      × ((q : Text) → In q (temps w) → In q (temps w'))

  abbrev pub IsSame : World → World → Type 0
  IsSame w w' = (held w' ≡ held w) × (temps w' ≡ temps w)

  abbrev pub Started : World → Result Root × World → Type 0
  Started w (err e, w') = Grows w w'
  Started w (ok r, w') = Grows w w' × IsHeldBy w' r × IsNew w r

  IsSame-Grows : (w w' : World) → IsSame w w' → Grows w w'
  IsSame-Grows w w' (h, t) =
      (λ q i. subst (λ l. In q l) (sym h) i, λ q i. subst (λ l. In q l) (sym t) i)

  Started-after :
      (w w' : World) (x : Result Root × World) → IsSame w w' → Started w' x → Started w x
  Started-after w w' (err e, v) s g =
      let before = IsSame-Grows w w' s in (λ q i. g.0 q (before.0 q i), λ q i. g.1 q (before.1 q i))
  Started-after w w' (ok (shared d), v) s (g, h, n) =
      let before = IsSame-Grows w w' s in
      (
        (λ q i. g.0 q (before.0 q i), λ q i. g.1 q (before.1 q i)),
        h,
        λ i. n (before.0 (lock_file d) i),
      )
  Started-after w w' (ok (temporary t), v) s (g, h, n) =
      let before = IsSame-Grows w w' s in
      ((λ q i. g.0 q (before.0 q i), λ q i. g.1 q (before.1 q i)), h, λ i. n (before.1 t i))

  and_then-Started :
      {A : Type 0} (w : World) (m : Result A × World) (k : A → Io World Root)
      → IsSame w m.1
      → ((a : A) (w' : World) → Started w' (k a w'))
      → Started w (and_then m k)
  and_then-Started w (err e, w') k s h = IsSame-Grows w w' s
  and_then-Started w (ok a, w') k s h = Started-after w w' (k a w') s (h a w')

  not-IsKept : {t : Text} → (t ≢ serve_root) × (t ≢ dap_root) → ¬ IsKept t
  not-IsKept (a, b) (inl e) = a e
  not-IsKept (a, b) (inr e) = b e

  temporary-Started :
      (dir : Text) (w : World) (m : Result Text × World)
      → In dir (root_dir ∷ (default_dap_root_dir root_dir).0 ∷ [])
      → m ≡ mkdir_temp dir (codes "buildg") w
      → Started w (and_then m (λ t. give (temporary t)))
  temporary-Started dir w (err e, w') i h = IsSame-Grows w w' (
    ap (λ m. held m.1) h ∙ is_os.mkdir_temp_held dir (codes "buildg") w,
    ap (λ m. temps m.1) h ∙ is_os.mkdir_temp_err dir (codes "buildg") e w (sym (ap (λ m. m.0) h)),
  )
  temporary-Started dir w (ok t, w') i h =
      let e = sym (ap (λ m. m.0) h) in
      let made = is_os.mkdir_temp_ok dir (codes "buildg") t w e in
      let same_held = ap (λ m. held m.1) h ∙ is_os.mkdir_temp_held dir (codes "buildg") w in
      let new_temps : temps w' ≡ t ∷ temps w = ap (λ m. temps m.1) h ∙ made.1 in
      (
        (
          λ q j. subst (λ l. In q l) (sym same_held) j,
          λ q j. subst (λ l. In q l) (sym new_temps) (inr j),
        ),
        (not-IsKept (apart.names dir t w i e), subst (λ l. In t l) (sym new_temps) (inl refl)),
        made.0,
      )

  module _ (dir : Text) (other : Io World Root) where
    refused-IsSame :
        (w : World) (f : Flock × World)
        → f.0 ≢ acquired
        → f ≡ flock (lock_file dir) w
        → IsSame w f.1
    refused-IsSame w f n e = (
      ap (λ m. held m.1) e ∙ is_os.flock_refused (lock_file dir) w (λ z. n (ap (λ m. m.0) e ∙ z)),
      ap (λ m. temps m.1) e ∙ is_os.flock_temps (lock_file dir) w,
    )

    flock-Started :
        (w : World) (f : Flock × World)
        → IsKept dir
        → f ≡ flock (lock_file dir) w
        → ((w' : World) → Started w' (other w'))
        → Started w (and_then (locked O f) (λ ok. if ok then give (shared dir) else other))
    flock-Started w (acquired, w') k e h =
        let won = is_os.flock_acquired (lock_file dir) w (sym (ap (λ m. m.0) e)) in
        let new_held : held w' ≡ lock_file dir ∷ held w = ap (λ m. held m.1) e ∙ won.1 in
        let same_temps = ap (λ m. temps m.1) e ∙ is_os.flock_temps (lock_file dir) w in
        (
          (
            λ q j. subst (λ l. In q l) (sym new_held) (inr j),
            λ q j. subst (λ l. In q l) (sym same_temps) j,
          ),
          (k, subst (λ l. In (lock_file dir) l) (sym new_held) (inl refl)),
          won.0,
        )
    flock-Started w (would_block, w') k e h =
        Started-after w w' (other w') (refused-IsSame w (would_block, w') (λ c. ground arith) e)
          (h w')
    flock-Started w (flock_failed x, w') k e h =
        IsSame-Grows w w' (refused-IsSame w (flock_failed x, w') (λ c. ground arith) e)

    create-Started :
        (w : World) (m : Result Unit × World)
        → IsKept dir
        → IsSame w m.1
        → ((w' : World) → Started w' (other w'))
        → Started w (
            and_then
              (and_then m (λ u v. locked O (flock (lock_file dir) v)))
              (λ ok. if ok then give (shared dir) else other))
    create-Started w (err e, w') k s h = IsSame-Grows w w' s
    create-Started w (ok u, w') k s h =
        Started-after w w' _ s (flock-Started w' (flock (lock_file dir) w') k refl h)

    lock_or-Started :
        (w : World)
        → IsKept dir
        → ((w' : World) → Started w' (other w'))
        → Started w (lock_or O dir other w)
    unfolding try_lock
    lock_or-Started w k h =
        and_then-Started w (mkdir_all dir w) _ (is_os.mkdir_all_same dir w) (λ u w'.
          create-Started w' (create (lock_file dir) w') k (is_os.create_same (lock_file dir) w') h)

  stop-Started : (w : World) → Started w (err locked_root, w)
  stop-Started w = IsSame-Grows w w (refl, refl)

  pub start-Started : (c : Command) (w : World) → Started w (start O c root_dir w)
  unfolding start debug_root exclusive_root dap_serve_root
  start-Started (debug true) w =
      lock_or-Started serve_root (temporary_root O root_dir) w (inl refl)
        (λ w'. temporary-Started root_dir w' _ (inl refl) refl)
  start-Started (debug false) w = temporary-Started root_dir w _ (inl refl) refl
  start-Started prune w = lock_or-Started serve_root _ w (inl refl) stop-Started
  start-Started du w = lock_or-Started serve_root _ w (inl refl) stop-Started
  start-Started dap_serve w =
      lock_or-Started dap_root (temporary_root O (default_dap_root_dir root_dir).0) w (inr refl)
        (λ w'. temporary-Started (default_dap_root_dir root_dir).0 w' _ (inr (inl refl)) refl)
  start-Started dap_prune w = lock_or-Started dap_root _ w (inr refl) stop-Started
  start-Started dap_du w = lock_or-Started dap_root _ w (inr refl) stop-Started
