-- ===== src/Shell/Stdin/Users.antt =====
-- The standard input has one user at a time.
use buildg.Prelude.{
  ℕ, suc, ◌≡◌, refl, Bool, ap, ◌⊎◌, inl, inr, true, false, List, [], ◌∷◌, ◌++◌, Option, none, some,
  Bool-cases, nat_eq, nat_beq_iff, arith,
}
use buildg.Text.{Text}
use buildg.Controller.Pauses.{is_member}
use buildg.Shell.Stdin.{
  SharedReader, install, close_writer, deliver, give_up, Step, locks, uses, reads, writes, ends,
  finishes, Reaches, starts, goes,
}

-- The writer is that of the user, a chunk is on its way to the user or to a closed pipe, and nothing panicked.
record IsOwned (s : SharedReader) : Type 0 where
  held : (n : ℕ) → s.current_w ≡ some n → (s.user ≡ some n) × (s.installed ≡ true)
  ended :
      (n : ℕ)
      → s.user ≡ some n
      → s.installed ≡ true
      → s.current_w ≡ none
      → is_member n s.closed ≡ true
  aimed :
      (n : ℕ) (t : Text)
      → s.loaded ≡ some (some n, t)
      → (is_member n s.closed ≡ true) ⊎ (s.user ≡ some n)
  fine : s.panicked ≡ false
  idle : s.user ≡ none → s.installed ≡ false

locks-IsOwned :
    (s : SharedReader)
    → s.user ≡ none
    → IsOwned s
    → IsOwned (record s { user = some s.next_pipe; next_pipe = suc s.next_pipe })
locks-IsOwned s e o = record {
  held = λ n h. ground (arith, o.held n h, e);
  ended = λ n u i c. ground (arith, o.idle e, i);
  aimed = λ n t l. ground (arith, o.aimed n t l, e);
  fine = o.fine;
  idle = λ u. ground arith;
}

uses-IsOwned :
    (s : SharedReader) (n : ℕ) (w : Option ℕ)
    → s.current_w ≡ w
    → s.user ≡ some n
    → s.installed ≡ false
    → IsOwned s
    → IsOwned (install n w s)
uses-IsOwned s n (some w) c e i o = absurd (ground (arith, o.held w c, i))
uses-IsOwned s n none c e i o = record {
  held = λ m h. ground (arith, e, h);
  ended = λ m u j q. ground arith;
  aimed = o.aimed;
  fine = o.fine;
  idle = λ u. ground (arith, e, u);
}

abbrev loaded_writer : Option (Option ℕ × Text) → Option ℕ
loaded_writer none = none
loaded_writer (some (w, t)) = w

reads-IsOwned :
    (s : SharedReader) (t : Text)
    → IsOwned s
    → IsOwned (record s { loaded = some (s.current_w, t) })
reads-IsOwned s t o = record {
  held = o.held;
  ended = o.ended;
  aimed = λ n u l. inr (o.held n (ap loaded_writer l)).0;
  fine = o.fine;
  idle = o.idle;
}

writes-IsOwned : (s : SharedReader) (w : Option ℕ) (t : Text) → IsOwned s → IsOwned (deliver w t s)
writes-IsOwned s none t o = record {
  held = o.held;
  ended = o.ended;
  aimed = λ n u l. ground arith;
  fine = o.fine;
  idle = o.idle;
}
writes-IsOwned s (some k) t o = elim (Bool-cases (is_member k s.closed)) [
  | inl e ↦ rw e (unloaded s.delivered)
  | inr e ↦ rw e (unloaded (s.delivered ++ (k, t) ∷ []))
]
  where
    unloaded : (d : List (ℕ × Text)) → IsOwned (record s { loaded = none; delivered = d })
    unloaded d = record {
      held = o.held;
      ended = o.ended;
      aimed = λ n u l. ground arith;
      fine = o.fine;
      idle = o.idle;
    }

is_member-cons : (c w : ℕ) (ws : List ℕ) → is_member c ws ≡ true → is_member c (w ∷ ws) ≡ true
is_member-cons c w ws h = ground (arith, h)

is_member-head : (c : ℕ) (ws : List ℕ) → is_member c (c ∷ ws) ≡ true
is_member-head c ws = ground (arith, nat_beq_iff c c)

ends-IsOwned :
    (s : SharedReader) (w : Option ℕ)
    → s.current_w ≡ w
    → s.loaded ≡ none
    → IsOwned s
    → IsOwned (close_writer w s)
ends-IsOwned s none c l o = o
ends-IsOwned s (some w) c l o = record {
  held = λ n h. ground arith;
  ended = λ n u i q. ground (arith, o.held w c, u);
  aimed = λ n t m. ground (arith, l, m);
  fine = o.fine;
  idle = o.idle;
}

finishes-IsOwned :
    (s : SharedReader) (n : ℕ) (w : Option ℕ)
    → s.current_w ≡ w
    → s.user ≡ some n
    → s.installed ≡ true
    → IsOwned s
    → IsOwned (give_up (close_writer w s))
finishes-IsOwned s n none c e i o = record {
  held = λ m h. ground (arith, c, h);
  ended = λ m u j q. ground arith;
  aimed = λ m t l. elim (o.aimed m t l) [ inl k ↦ inl k | inr u ↦ inl (o.ended m u i c) ];
  fine = o.fine;
  idle = λ u. refl;
}
finishes-IsOwned s n (some w) c e i o = record {
  held = λ m h. ground arith;
  ended = λ m u j q. ground arith;
  aimed = λ m t l. elim (o.aimed m t l) [
    | inl k ↦ inl (is_member-cons m w s.closed k)
    | inr u ↦ inl (ground (arith, o.held w c, u))
  ];
  fine = o.fine;
  idle = λ u. refl;
}

Step-IsOwned : (s s' : SharedReader) → Step s s' → IsOwned s → IsOwned s'
Step-IsOwned _ _ (locks s e) o = locks-IsOwned s e o
Step-IsOwned _ _ (uses s n e i) o = uses-IsOwned s n s.current_w refl e i o
Step-IsOwned _ _ (reads s t l) o = reads-IsOwned s t o
Step-IsOwned _ _ (writes s w t l) o = writes-IsOwned s w t o
Step-IsOwned _ _ (ends s l) o = ends-IsOwned s s.current_w refl l o
Step-IsOwned _ _ (finishes s n e i) o = finishes-IsOwned s n s.current_w refl e i o

Reaches-IsOwned : (s : SharedReader) → Reaches s → IsOwned s
Reaches-IsOwned _ starts = record {
  held = λ n h. ground arith;
  ended = λ n u i c. ground arith;
  aimed = λ n t l. ground arith;
  fine = refl;
  idle = λ u. refl;
}
Reaches-IsOwned _ (goes s s' r st) = Step-IsOwned s s' st (Reaches-IsOwned s r)

-- Whom the write of a chunk reaches: nobody, when it was read while there was no writer or when its pipe is closed, and
-- else the user, who gets it after what was delivered before.
abbrev pub IsWritten : SharedReader → Option ℕ → Text → Type 0
IsWritten s w t =
    ((w ≡ none) × ((deliver w t s).delivered ≡ s.delivered))
    ⊎ ((n : ℕ) × (w ≡ some n)
        × (((is_member n s.closed ≡ true) × ((deliver w t s).delivered ≡ s.delivered))
            ⊎ ((s.user ≡ some n) × ((deliver w t s).delivered ≡ s.delivered ++ (n, t) ∷ []))))

aimed_written :
    (s : SharedReader) (n : ℕ) (t : Text)
    → (is_member n s.closed ≡ true) ⊎ (s.user ≡ some n)
    → (b : Bool) → is_member n s.closed ≡ b
    → IsWritten s (some n) t
aimed_written s n t h true q = inr (n, refl, inl (q, rw q refl))
aimed_written s n t (inl k) false q = absurd (cc (k, q))
aimed_written s n t (inr u) false q = inr (n, refl, inr (u, rw q refl))

written :
    (s : SharedReader) (w : Option ℕ) (t : Text)
    → IsOwned s
    → s.loaded ≡ some (w, t)
    → IsWritten s w t
written s none t o l = inl (refl, refl)
written s (some n) t o l = aimed_written s n t (o.aimed n t l) (is_member n s.closed) refl

-- In every state that any steps reach, use has not panicked, and a writer is that of the user who holds the lock. The write
-- of a chunk that was read while there was a writer delivers it to that pipe, and then its user still holds the lock, or
-- fails since the pipe is closed. A chunk that was read while there was none is discarded, also when a user has come since.
pub Reaches-one_user :
    (s : SharedReader)
    → Reaches s
    → (s.panicked ≡ false)
      × ((n : ℕ) → s.current_w ≡ some n → s.user ≡ some n)
      × ((w : Option ℕ) (t : Text) → s.loaded ≡ some (w, t) → IsWritten s w t)
Reaches-one_user s r =
    let o = Reaches-IsOwned s r in (o.fine, λ n h. (o.held n h).0, λ w t l. written s w t o l)
