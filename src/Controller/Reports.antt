-- ===== src/Controller/Reports.antt =====
-- What an executed operation reports.
use buildg.Prelude.{
  subst, sym, ◌⊎◌, Bool, true, false, ◌==◌, ◌↔◌, Bool-cases, inl, inr, ℕ, ◌∷◌, [], if◌then◌else◌,
  ◌≡◌, refl, ap, ◌∙◌, List, Option, none, some,
}
use buildg.Text.{Text, codes, text_eq, text_beq_iff}
use buildg.Dict.{Dict, lookup, HasUniqueKeys}
use buildg.Errors.{Error, canceled, Result, ok}
use buildg.Types.{RegisteredStatus}
use buildg.Controller.Pauses.{Pauses, wait}
use buildg.Controller.Results.{ResultType, get_result_mounts, register_result_ids}
use buildg.Controller.Registers.{AllKnown, ids_of, register_result_ids_lem}
use buildg.Controller.Worker.{
  Notified, Vertex, Cancel, before_send, while_waiting, not_cancelled, Status, notify_and_wait,
  status_of, message_of, results_of, exec, is_debug_disabled, resolve_op, plain, wrapped,
  with_mounts, with_inputs, send, first_error,
}

-- the results are registered under the ids of their references
module _ (T : ResultType) (c : Cancel) (id : Text) (s : Status T) (refs : Dict Text T.Ref)
    (p : Pauses) (k : AllKnown T s.inputs) (l : AllKnown T s.mounts) where
  with_inputs-ok :
      (x : Result (List Text) × Dict Text T.Ref) (ids : List Text)
      → x.0 ≡ ok ids
      → with_inputs T c id s p x ≡ with_mounts T c id s p ids (register_result_ids T s.mounts x.1)
  with_inputs-ok (r, refs') ids e = rw e refl

  with_mounts-ok :
      (x : Result (List Text) × Dict Text T.Ref) (ids ids' : List Text)
      → x.0 ≡ ok ids'
      → with_mounts T c id s p ids x ≡ send T c (message_of T id ids ids' s) x.1 (wait id p).1
  with_mounts-ok (r, refs') ids ids' e = rw e refl

  notify_and_wait-send :
      (refs' : Dict Text T.Ref) × (notify_and_wait T c id s refs p
        ≡ send T c (message_of T id (ids_of T s.inputs) (ids_of T s.mounts) s) refs' (wait id p).1)
  unfolding notify_and_wait
  notify_and_wait-send =
      let first = register_result_ids T s.inputs refs in
      let second = register_result_ids T s.mounts first.1 in
      (
        second.1,
        with_inputs-ok first (ids_of T s.inputs) (register_result_ids_lem T s.inputs refs k).0
            ∙ with_mounts-ok second (ids_of T s.inputs) (ids_of T s.mounts)
                (register_result_ids_lem T s.mounts first.1 l).0,
      )

abbrev pub error_of : Cancel → Option Error
error_of not_cancelled = none
error_of _ = some canceled

abbrev pub sent_of : Cancel → RegisteredStatus → Option RegisteredStatus
sent_of before_send msg = none
sent_of _ msg = some msg

-- the first of two errors
abbrev pub earlier : Option Error → Option Error → Option Error
earlier none later = later
earlier (some e) later = some e

first_error-earlier :
    (T : ResultType) (exec_error : Error → Option (List (Option T.Res) × List (Option T.Res)))
    (e f : Option Error)
    → first_error T exec_error e f ≡ earlier e f
first_error-earlier T exec_error none f = refl
first_error-earlier T exec_error (some e) f = refl

send_parts :
    (T : ResultType) (c : Cancel) (msg : RegisteredStatus) (refs : Dict Text T.Ref) (q : Pauses)
    (n : Notified T)
    → n ≡ send T c msg refs q
    → (n.failure ≡ error_of c) × (n.sent ≡ sent_of c msg) × (n.pauses ≡ q)
send_parts T before_send msg refs q n h =
    (ap (λ x. x.failure) h, ap (λ x. x.sent) h, ap (λ x. x.pauses) h)
send_parts T while_waiting msg refs q n h =
    (ap (λ x. x.failure) h, ap (λ x. x.sent) h, ap (λ x. x.pauses) h)
send_parts T not_cancelled msg refs q n h =
    (ap (λ x. x.failure) h, ap (λ x. x.sent) h, ap (λ x. x.pauses) h)

module _ (T : ResultType) (exec_error : Error → Option (List (Option T.Res) × List (Option T.Res)))
    (v : Vertex) (c : Cancel) (id : Text) (inputs outputs : List T.Res) (e : Option Error)
    (refs : Dict Text T.Ref) (p : Pauses) where
  -- The results that are to be reported: of an operation that failed, those of its ExecError, if it is one, and else those that
  -- a container can mount.
  abbrev pub IsReported : Option Error → List (Option T.Res) × List (Option T.Res) → Type 0
  IsReported none (ins, mounts) = (ins, mounts) ≡ get_result_mounts T v.op.kind inputs outputs
  IsReported (some x) (ins, mounts) =
      (exec_error x ≡ some (ins, mounts)) ⊎ ((exec_error x ≡ none) × (ins ≡ []) × (mounts ≡ []))

  abbrev pub report : List (Option T.Res) → List (Option T.Res) → RegisteredStatus
  report ins mounts = record {
    name = v.name;
    debug_id = id;
    input_ids = ids_of T ins;
    mount_ids = ids_of T mounts;
    vertex = v.digest;
    op = v.op;
    err = e;
  }

  results_of-reported :
      (x : Option Error) (ins mounts : List (Option T.Res))
      → IsReported x (ins, mounts)
      → results_of T exec_error v inputs (outputs, x) ≡ (ins, mounts)
  results_of-reported none ins mounts h = sym h
  results_of-reported (some x) ins mounts (inl q) = rw q refl
  results_of-reported (some x) ins mounts (inr (q, a, b)) = rw (q, a, b) refl

  -- An executed operation whose results to report all are nil or hold a reference of a worker. These are the inputs and mounts
  -- of its ExecError, when it failed with one, none when it failed with another error, and else those that a container can
  -- mount. Exec sends, unless the context is cancelled before, a message with the new id, the vertex's name, digest and
  -- operation, the operation's error, the ids of the inputs and those of the mounts; it waits under the new id; and it
  -- returns the operation's results, with the operation's error or else that of a cancelled context.
  pub exec_lem :
      (ins mounts : List (Option T.Res))
      → IsReported e (ins, mounts)
      → AllKnown T ins
      → AllKnown T mounts
      → let (r, n) = exec T exec_error v c id inputs (outputs, e) refs p in
        (r ≡ (outputs, earlier e (error_of c)))
        × (n.sent ≡ sent_of c (report ins mounts))
        × (n.pauses ≡ (wait id p).1)
  unfolding exec
  exec_lem ins mounts h k l =
      let s : Status T = status_of T v e (ins, mounts) in
      let n = notify_and_wait T c id s refs p in
      let (refs', q) = notify_and_wait-send T c id s refs p k l in
      let (f, g, w) = send_parts T c (report ins mounts) refs' (wait id p).1 n q in
      rw (results_of-reported e ins mounts h) (
        ap (λ (x : Option Error). (outputs, x))
            (first_error-earlier T exec_error e n.failure
              ∙ ap (λ (x : Option Error). earlier e x) f),
        g,
        w,
      )

abbrev is_no : Option Text → Bool
is_no none = false
is_no (some v) = v == codes "no"

is_debug_disabled-lookup :
    (description : Dict Text Text)
    → HasUniqueKeys description
    → is_debug_disabled description ≡ is_no (lookup (codes "debug") description)
unfolding is_debug_disabled lookup
is_debug_disabled-lookup [] u = refl
is_debug_disabled-lookup ((k, v) ∷ rest) (fresh, u) =
    let ih = is_debug_disabled-lookup rest u in
    elim (Bool-cases (k == codes "debug")) [
      | inl same ↦
          (let none_left : lookup (codes "debug") rest ≡ none =
              subst (λ x. lookup x rest ≡ none) ((text_beq_iff k (codes "debug")).0 same) fresh in
            rw (same, ih, none_left)
              (elim (Bool-cases (v == codes "no")) [
                | inl said ↦ rw said refl
                | inr other ↦ rw other refl
              ]))
      | inr other ↦ rw other ih
    ]

is_no-some_iff : (o : Option Text) → (is_no o ≡ true) ↔ (o ≡ some (codes "no"))
is_no-some_iff none = (λ e. cc e, λ e. cc e)
is_no-some_iff (some v) =
    (λ e. ap some ((text_beq_iff v (codes "no")).0 e), λ e. (text_beq_iff v (codes "no")).1 (cc e))

is_plain_if :
    (op : ℕ) (b : Bool) → Result.ok (if b then plain op else wrapped op) ≡ ok (plain op) → b ≡ true
is_plain_if op true e = refl
is_plain_if op false e = cc e

-- The worker wraps each operation that it resolves, unless the vertex has the description "debug": "no".
pub resolve_op-plain_iff :
    (description : Dict Text Text) (op : ℕ)
    → HasUniqueKeys description
    → (resolve_op description (ok op) ≡ ok (plain op))
      ↔ (lookup (codes "debug") description ≡ some (codes "no"))
unfolding resolve_op
resolve_op-plain_iff description op u =
    let (to, from) = is_no-some_iff (lookup (codes "debug") description) in
    rw (is_debug_disabled-lookup description u)
      (λ e. to (is_plain_if op _ e), λ e. rw (from e) refl)
