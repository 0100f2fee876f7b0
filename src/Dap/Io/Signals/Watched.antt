-- ===== src/Dap/Io/Signals/Watched.antt =====
-- Which process gets a signal.
use buildg.Prelude.{
  ℕ, ◌+◌, ◌≤◌, ◌≡◌, refl, ap, ◌⊎◌, inl, inr, List, [], ◌∷◌, ◌++◌, Option, none, some, arith, In,
  In-append_left, In-append_right, In-append-cases, length, length-append,
}
use buildg.Text.{Text, text_eq}
use buildg.Dict.{lookup}
use buildg.Dap.Io.Signals.{
  SignalMap, Watch, not_started, watching, ended, SignalForwarder, known_signal, serve_http,
  start_watch, end_watch, send_signal, watches, unwatches, serves, sends, Reaches, starts, goes,
}

-- the process of the goroutine of watchSignal
abbrev pub Watches : Watch → ℕ → Type 0
Watches not_started p = ⊥
Watches (watching q) p = q ≡ p
Watches (ended q) p = q ≡ p

-- A signal for a process is for the one that is or was watched, and it is the number of a name that a request had.
abbrev pub IsAsked : SignalMap → SignalForwarder → ℕ × ℕ → Type 0
IsAsked m s (p, sig) =
    Watches s.watch p × ((name : Text) × In name s.requests × (lookup name m ≡ some sig))

record IsSafe (m : SignalMap) (s : SignalForwarder) : Type 0 where
  idle : s.watch ≡ not_started → s.proc ≡ none
  held : (p : ℕ) → s.proc ≡ some p → s.watch ≡ watching p
  called : (c : ℕ × ℕ) → In c s.calls → IsAsked m s c
  sent : (c : ℕ × ℕ) → In c s.signalled → IsAsked m s c
  once : length s.calls + length s.signalled ≤ length s.requests

Watches-not : (w : Watch) (p : ℕ) {A : Type 0} → w ≡ not_started → Watches w p → A
Watches-not not_started p e h = absurd h
Watches-not (watching q) p e h = absurd (cc e)
Watches-not (ended q) p e h = absurd (cc e)

watching-Watches : (w : Watch) (q p : ℕ) → w ≡ watching q → Watches w p → q ≡ p
watching-Watches not_started q p e h = absurd h
watching-Watches (watching r) q p e h = ground (arith, e, h)
watching-Watches (ended r) q p e h = absurd (cc e)

watches-IsSafe :
    (m : SignalMap) (s : SignalForwarder) (p : ℕ)
    → s.watch ≡ not_started
    → IsSafe m s
    → IsSafe m (start_watch p s)
watches-IsSafe m s p e o = record {
  idle = λ h. absurd (cc h);
  held = λ q h. ground (arith, h);
  called = λ c i. Watches-not s.watch c.0 e (o.called c i).0;
  sent = λ c i. Watches-not s.watch c.0 e (o.sent c i).0;
  once = o.once;
}

unwatches-IsSafe :
    (m : SignalMap) (s : SignalForwarder) (p : ℕ)
    → s.watch ≡ watching p
    → IsSafe m s
    → IsSafe m (end_watch p s)
unwatches-IsSafe m s p e o = record {
  idle = λ h. refl;
  held = λ q h. absurd (cc h);
  called = λ c i. let a = o.called c i in (watching-Watches s.watch p c.0 e a.0, a.1);
  sent = λ c i. let a = o.sent c i in (watching-Watches s.watch p c.0 e a.0, a.1);
  once = o.once;
}

In-known_signal :
    (found proc : Option ℕ) (calls : List (ℕ × ℕ)) (c : ℕ × ℕ)
    → In c (known_signal found proc calls)
    → In c calls ⊎ ((found ≡ some c.1) × (proc ≡ some c.0))
In-known_signal none proc calls c i = inl i
In-known_signal (some sig) none calls c i = inl i
In-known_signal (some sig) (some p) calls c i = elim (In-append-cases c calls ((p, sig) ∷ []) i) [
  | inl old ↦ inl old
  | inr (inl e) ↦ inr (ap (λ d. some d.1) e, ap (λ d. some d.0) e)
  | inr (inr x) ↦ absurd x
]

length-known_signal :
    (found proc : Option ℕ) (calls : List (ℕ × ℕ))
    → length (known_signal found proc calls) ≤ length calls + 1
length-known_signal none proc calls = omega arith
length-known_signal (some sig) none calls = omega arith
length-known_signal (some sig) (some p) calls = omega (arith, length-append calls ((p, sig) ∷ []))

IsAsked-more :
    (m : SignalMap) (s : SignalForwarder) (name : Text) (c : ℕ × ℕ)
    → IsAsked m s c
    → IsAsked m (record s { requests = name ∷ s.requests }) c
IsAsked-more m s name (p, sig) (w, (n, i, l)) = (w, (n, inr i, l))

Watches-watching : (w : Watch) (p : ℕ) → w ≡ watching p → Watches w p
Watches-watching not_started p e = absurd (cc e)
Watches-watching (watching q) p e = ground (arith, e)
Watches-watching (ended q) p e = absurd (cc e)

serves-IsSafe :
    (m : SignalMap) (s : SignalForwarder) (name : Text)
    → IsSafe m s
    → IsSafe m (serve_http m name s)
unfolding serve_http
serves-IsSafe m s name o = record {
  idle = o.idle;
  held = o.held;
  called = λ c i. elim (In-known_signal (lookup name m) s.proc s.calls c i) [
    | inl old ↦ IsAsked-more m s name c (o.called c old)
    | inr (l, e) ↦ (Watches-watching s.watch c.0 (o.held c.0 e), (name, inl refl, l))
  ];
  sent = λ c i. IsAsked-more m s name c (o.sent c i);
  once = omega (arith, o.once, length-known_signal (lookup name m) s.proc s.calls);
}

In-without :
    (before after : List (ℕ × ℕ)) (c d : ℕ × ℕ)
    → In d (before ++ after)
    → In d (before ++ c ∷ after)
In-without before after c d i = elim (In-append-cases d before after i) [
  | inl b ↦ In-append_left d before (c ∷ after) b
  | inr a ↦ In-append_right d before (c ∷ after) (inr a)
]

sends-IsSafe :
    (m : SignalMap) (s : SignalForwarder) (before after : List (ℕ × ℕ)) (c : ℕ × ℕ)
    → s.calls ≡ before ++ c ∷ after
    → IsSafe m s
    → IsSafe m (send_signal (before ++ after) c s)
sends-IsSafe m s before after c e o = record {
  idle = o.idle;
  held = o.held;
  called = λ d i. o.called d (rw e (In-without before after c d i));
  sent = λ d i. elim (In-append-cases d s.signalled (c ∷ []) i) [
    | inl old ↦ o.sent d old
    | inr (inl q) ↦ o.called d (rw e (In-append_right d before (c ∷ after) (inl q)))
    | inr (inr x) ↦ absurd x
  ];
  once = omega (
    arith,
    o.once,
    ap length e,
    length-append before after,
    length-append before (c ∷ after),
    length-append s.signalled (c ∷ []),
  );
}

Reaches-IsSafe : (m : SignalMap) (s : SignalForwarder) → Reaches m s → IsSafe m s
Reaches-IsSafe m _ starts = record {
  idle = λ h. refl;
  held = λ p h. absurd (cc h);
  called = λ c i. absurd i;
  sent = λ c i. absurd i;
  once = omega arith;
}
Reaches-IsSafe m _ (goes s s' r (watches _ p e)) = watches-IsSafe m s p e (Reaches-IsSafe m s r)
Reaches-IsSafe m _ (goes s s' r (unwatches _ p e)) = unwatches-IsSafe m s p e (Reaches-IsSafe m s r)
Reaches-IsSafe m _ (goes s s' r (serves _ name)) = serves-IsSafe m s name (Reaches-IsSafe m s r)
Reaches-IsSafe m _ (goes s s' r (sends _ before after c e)) =
    sends-IsSafe m s before after c e (Reaches-IsSafe m s r)

-- In every state that any steps reach: a process that has been signalled is the one that is or was watched, and it got the
-- number of a name that some request had; there are at most as many signals as requests; and without a watch, before it
-- starts and after it ends, no process is held, so that a request finds none.
pub Reaches-signalled :
    (m : SignalMap) (s : SignalForwarder)
    → Reaches m s
    → ((c : ℕ × ℕ) → In c s.signalled → IsAsked m s c)
      × (length s.signalled ≤ length s.requests)
      × ((p : ℕ) → s.proc ≡ some p → s.watch ≡ watching p)
Reaches-signalled m s r = let o = Reaches-IsSafe m s r in (o.sent, omega (arith, o.once), o.held)
