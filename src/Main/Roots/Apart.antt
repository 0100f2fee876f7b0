-- ===== src/Main/Roots/Apart.antt =====
-- Processes that run at the same time work in different directories.
use buildg.Prelude.{
  AreDistinct, ℕ, zero, suc, ◌≢◌, sym, ap, ◌∙◌, subst, inl, inr, List, [], ◌∷◌, map, All, In,
}
use buildg.Text.{Text}
use buildg.Errors.{Result, ok, err}
use buildg.Main.Os.{Os, IsOs}
use buildg.Main.Roots.{
  Root, shared, temporary, directory, lock_file, Event, starts, ends, remove_at, release_root,
  start, System, born, release_at, event, history,
}
use buildg.Main.Roots.Starts as Starts
use buildg.Main.Roots.Starts.{HasApartRoots}

module _ (O : Os) (is_os : IsOs O) (root_dir : Text) (apart : HasApartRoots O root_dir) where
  open O use {World, held, temps}

  abbrev IsHeldBy : World → Root → Type 0
  IsHeldBy = Starts.IsHeldBy O is_os root_dir apart

  abbrev IsNew : World → Root → Type 0
  IsNew = Starts.IsNew O is_os root_dir apart

  abbrev Started : World → Result Root × World → Type 0
  Started = Starts.Started O is_os root_dir apart

  abbrev Grows : World → World → Type 0
  Grows = Starts.Grows O is_os root_dir apart

  abbrev AllHeld : World → List Root → Type 0
  AllHeld w rs = All (IsHeldBy w) rs

  IsHeldBy-grow : (w w' : World) (r : Root) → Grows w w' → IsHeldBy w r → IsHeldBy w' r
  IsHeldBy-grow w w' (shared d) g (k, i) = (k, g.0 (lock_file d) i)
  IsHeldBy-grow w w' (temporary t) g (n, i) = (n, g.1 t i)

  AllHeld-grow : (w w' : World) (rs : List Root) → Grows w w' → AllHeld w rs → AllHeld w' rs
  AllHeld-grow w w' [] g h = tt
  AllHeld-grow w w' (r ∷ rs) g (h, hs) = (IsHeldBy-grow w w' r g h, AllHeld-grow w w' rs g hs)

  -- A new root is no root of a running process.
  IsNew-apart :
      (w w' : World) (r x : Root)
      → IsNew w r
      → IsHeldBy w' r
      → IsHeldBy w x
      → directory x ≢ directory r
  IsNew-apart w w' (shared d) (shared c) n h (k, i) e =
      n (subst (λ a. In (lock_file a) (held w)) e i)
  IsNew-apart w w' (shared d) (temporary t) n (k, j) (f, i) e =
      f (subst (Starts.IsKept O is_os root_dir apart) (sym e) k)
  IsNew-apart w w' (temporary t) (shared d) n (f, j) (k, i) e =
      f (subst (Starts.IsKept O is_os root_dir apart) e k)
  IsNew-apart w w' (temporary t) (temporary u) n h (f, i) e = n (subst (λ a. In a (temps w)) e i)

  IsNew-fresh :
      (w w' : World) (r : Root) (rs : List Root)
      → IsNew w r
      → IsHeldBy w' r
      → AllHeld w rs
      → ¬ In (directory r) (map directory rs)
  IsNew-fresh w w' r [] n h hs i = i
  IsNew-fresh w w' r (x ∷ rs) n h (k, ks) (inl e) = IsNew-apart w w' r x n h k e
  IsNew-fresh w w' r (x ∷ rs) n h (k, ks) (inr i) = IsNew-fresh w w' r rs n h ks i

  lock_file-apart :
      (d c : Text)
      → Starts.IsKept O is_os root_dir apart d
      → Starts.IsKept O is_os root_dir apart c
      → c ≢ d
      → lock_file c ≢ lock_file d
  lock_file-apart d c (inl e) (inl f) n x = n (f ∙ sym e)
  lock_file-apart d c (inl e) (inr f) n x =
      apart.locks (sym (ap lock_file e) ∙ sym x ∙ ap lock_file f)
  lock_file-apart d c (inr e) (inl f) n x = apart.locks (sym (ap lock_file f) ∙ x ∙ ap lock_file e)
  lock_file-apart d c (inr e) (inr f) n x = n (f ∙ sym e)

  release_root-other :
      (w : World) (r x : Root)
      → IsHeldBy w r
      → IsHeldBy w x
      → directory x ≢ directory r
      → IsHeldBy (release_root O r w) x
  unfolding release_root
  release_root-other w (shared d) (shared c) (k, j) (l, i) n =
      (l, is_os.unlock_held (lock_file d) (lock_file c) w (lock_file-apart d c k l n) i)
  release_root-other w (shared d) (temporary t) (k, j) (f, i) n =
      (f, subst (λ l. In t l) (sym (is_os.unlock_temps (lock_file d) w)) i)
  release_root-other w (temporary t) (shared c) h (l, i) n =
      (l, subst (λ a. In (lock_file c) a) (sym (is_os.remove_all_held t w)) i)
  release_root-other w (temporary t) (temporary u) h (f, i) n =
      (f, is_os.remove_all_temps t u w n i)

  release_at-other :
      (i : ℕ) (w : World) (x : Root) (rs : List Root)
      → IsHeldBy w x
      → AllHeld w rs
      → (¬ In (directory x) (map directory rs))
      → IsHeldBy (release_at O i rs w) x
  release_at-other i w x [] h hs n = h
  release_at-other zero w x (r ∷ rs) h (k, ks) n =
      release_root-other w r x k h (λ e. n (inl (sym e)))
  release_at-other (suc i) w x (r ∷ rs) h (k, ks) n =
      release_at-other i w x rs h ks (λ j. n (inr j))

  AllHeld-release :
      (w : World) (r : Root) (rs : List Root)
      → IsHeldBy w r
      → AllHeld w rs
      → (¬ In (directory r) (map directory rs))
      → AllHeld (release_root O r w) rs
  AllHeld-release w r [] h hs n = tt
  AllHeld-release w r (x ∷ rs) h (k, ks) n =
      (release_root-other w r x h k (λ e. n (inl e)), AllHeld-release w r rs h ks (λ j. n (inr j)))

  release_at-AllHeld :
      (i : ℕ) (w : World) (rs : List Root)
      → AllHeld w rs
      → AreDistinct (map directory rs)
      → AllHeld (release_at O i rs w) (remove_at i rs)
  release_at-AllHeld i w [] hs d = tt
  release_at-AllHeld zero w (r ∷ rs) (h, hs) (n, d) = AllHeld-release w r rs h hs n
  release_at-AllHeld (suc i) w (r ∷ rs) (h, hs) (n, d) =
      (release_at-other i w r rs h hs n, release_at-AllHeld i w rs hs d)

  In-remove_at :
      (a : Text) (i : ℕ) (rs : List Root)
      → In a (map directory (remove_at i rs))
      → In a (map directory rs)
  In-remove_at a i [] j = j
  In-remove_at a zero (r ∷ rs) j = inr j
  In-remove_at a (suc i) (r ∷ rs) (inl e) = inl e
  In-remove_at a (suc i) (r ∷ rs) (inr j) = inr (In-remove_at a i rs j)

  remove_at-AreDistinct :
      (i : ℕ) (rs : List Root)
      → AreDistinct (map directory rs)
      → AreDistinct (map directory (remove_at i rs))
  remove_at-AreDistinct i [] d = tt
  remove_at-AreDistinct zero (r ∷ rs) (n, d) = d
  remove_at-AreDistinct (suc i) (r ∷ rs) (n, d) =
      (λ j. n (In-remove_at (directory r) i rs j), remove_at-AreDistinct i rs d)

  abbrev IsApart : System O → Type 0
  IsApart s = AllHeld s.world s.live × AreDistinct (map directory s.live)

  born-IsApart :
      (w : World) (x : Result Root × World) (rs : List Root)
      → Started w x
      → AllHeld w rs
      → AreDistinct (map directory rs)
      → IsApart (born O x rs)
  born-IsApart w (err e, w') rs g hs d = (AllHeld-grow w w' rs g hs, d)
  born-IsApart w (ok r, w') rs (g, h, n) hs d =
      ((h, AllHeld-grow w w' rs g hs), (IsNew-fresh w w' r rs n h hs, d))

  event-IsApart : (e : Event) (s : System O) → IsApart s → IsApart (event O root_dir e s)
  event-IsApart (starts c) s (hs, d) =
      born-IsApart s.world (start O c root_dir s.world) s.live
        (Starts.start-Started O is_os root_dir apart c s.world) hs d
  event-IsApart (ends i) s (hs, d) =
      (release_at-AllHeld i s.world s.live hs d, remove_at-AreDistinct i s.live d)

  history-IsApart : (es : List Event) (s : System O) → IsApart s → IsApart (history O root_dir es s)
  unfolding history
  history-IsApart [] s h = h
  history-IsApart (e ∷ es) s h = history-IsApart es (event O root_dir e s) (event-IsApart e s h)

-- Where locks have one holder, temporary directories are new and none is named like the two directories that are
-- kept, and these and their locks differ: whatever commands start and end, in any order, from no running
-- process, those that run work in different directories.
pub history-AreDistinct :
    (O : Os)
    → IsOs O
    → (root_dir : Text) → HasApartRoots O root_dir
    → (w : O.World) (es : List Event)
    → AreDistinct (map directory (history O root_dir es (record { world = w; live = [] })).live)
history-AreDistinct O is_os root_dir apart w es =
    (history-IsApart O is_os root_dir apart es (record { world = w; live = [] }) (tt, tt)).1
