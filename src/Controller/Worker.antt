-- ===== src/Controller/Worker.antt =====
-- The worker's wrapper of an operation: it reports each executed or cached operation to the controller
-- and waits until it may go on.
use buildg.Prelude.{
  Bool, true, false, ℕ, ◌∷◌, if◌then◌else◌, ◌==◌, ◌&&◌, List, [], Option, none, some,
}
use buildg.Text.{Text, codes, text_eq}
use buildg.Dict.{Dict, lookup}
use buildg.Errors.{Error, canceled, Result, ok, err}
use buildg.Types.{Op, RegisteredStatus}
use buildg.Controller.Pauses.{Pauses, wait}
use buildg.Controller.Results.{ResultType, get_result_mounts, register_result_ids}

-- the fields that are read of solver.Vertex
pub record Vertex : Type 0 where
  pub name : Text
  pub digest : Text
  pub op : Op

-- When the context is cancelled: before the message is taken, while the operation waits, or not.
pub data Cancel : Type 0 where
  before_send while_waiting not_cancelled : Cancel

-- the loop of ResolveOp over the descriptions of a vertex
unfoldable pub is_debug_disabled : Dict Text Text → Bool
is_debug_disabled [] = false
is_debug_disabled ((k, v) ∷ rest) =
    if k == codes "debug" && v == codes "no" then true else is_debug_disabled rest

-- The operation that the inner worker resolved, as it is or wrapped by debugOpWrapper.
pub data ResolvedOp : Type 0 where
  plain wrapped : ℕ → ResolvedOp

unfoldable pub resolve_op : Dict Text Text → Result ℕ → Result ResolvedOp
unfolding is_debug_disabled
resolve_op description (err e) = err e
resolve_op description (ok op) = ok (if is_debug_disabled description then plain op else wrapped op)

module _ (T : ResultType) where
  open T use {Res, Ref}

  -- `err` of an operation that was loaded from the cache is nil, `none`.
  pub record Status : Type 0 where
    pub name : Text
    pub inputs : List (Option Res)
    pub mounts : List (Option Res)
    pub vertex : Text
    pub op : Op
    pub err : Option Error

  -- What a notification leaves behind: the returned error, the message that was sent, if any, and the state.
  pub record Notified : Type 0 where
    pub failure : Option Error
    pub sent : Option RegisteredStatus
    pub refs : Dict Text Ref
    pub pauses : Pauses

  -- `none` is an id that is not known.
  unfoldable pub worker_ref_by_id : Text → Dict Text Ref → Option Ref
  worker_ref_by_id i refs = lookup i refs

  abbrev pub message_of : Text → List Text → List Text → Status → RegisteredStatus
  message_of id input_ids mount_ids s = record {
    name = s.name;
    debug_id = id;
    input_ids = input_ids;
    mount_ids = mount_ids;
    vertex = s.vertex;
    op = s.op;
    err = s.err;
  }

  -- the two selects
  abbrev pub send : Cancel → RegisteredStatus → Dict Text Ref → Pauses → Notified
  send before_send msg refs p = record {
    failure = some canceled;
    sent = none;
    refs = refs;
    pauses = p;
  }
  send while_waiting msg refs p = record {
    failure = some canceled;
    sent = some msg;
    refs = refs;
    pauses = p;
  }
  send not_cancelled msg refs p = record {
    failure = none;
    sent = some msg;
    refs = refs;
    pauses = p;
  }

  abbrev pub unsent : Error → Dict Text Ref → Pauses → Notified
  unsent e refs p = record { failure = some e; sent = none; refs = refs; pauses = p }

  abbrev pub with_mounts :
      Cancel → Text → Status → Pauses → List Text → Result (List Text) × Dict Text Ref → Notified
  with_mounts c id s p input_ids (err e, refs) = unsent e refs p
  with_mounts c id s p input_ids (ok mount_ids, refs) =
      send c (message_of id input_ids mount_ids s) refs (wait id p).1

  abbrev pub with_inputs :
      Cancel → Text → Status → Pauses → Result (List Text) × Dict Text Ref → Notified
  with_inputs c id s p (err e, refs) = unsent e refs p
  with_inputs c id s p (ok input_ids, refs) =
      with_mounts c id s p input_ids (register_result_ids T s.mounts refs)

  -- `id` is the new identity.
  unfoldable pub notify_and_wait : Cancel → Text → Status → Dict Text Ref → Pauses → Notified
  notify_and_wait c id s refs p = with_inputs c id s p (register_result_ids T s.inputs refs)

  abbrev pub status_of : Vertex → Option Error → List (Option Res) × List (Option Res) → Status
  status_of v e (inputs, mounts) = record {
    name = v.name;
    inputs = inputs;
    mounts = mounts;
    vertex = v.digest;
    op = v.op;
    err = e;
  }

  -- A failed notification of a cached operation is only logged.
  unfoldable pub load_cache_hook :
      Vertex → Cancel → Text → List Res → List Res → Dict Text Ref → Pauses → Notified
  load_cache_hook v c id inputs outputs refs p =
      notify_and_wait c id (status_of v none (get_result_mounts T v.op.kind inputs outputs)) refs p

  abbrev pub or_nothing :
      Option (List (Option Res) × List (Option Res)) → List (Option Res) × List (Option Res)
  or_nothing none = ([], [])
  or_nothing (some r) = r

  -- `exec_error` is errors.As to an ExecError, whose results it gives; `run` is what the operation returned.
  module _ (exec_error : Error → Option (List (Option Res) × List (Option Res))) where
    abbrev pub results_of :
        Vertex → List Res → List Res × Option Error → List (Option Res) × List (Option Res)
    results_of v inputs (outputs, some e) = or_nothing (exec_error e)
    results_of v inputs (outputs, none) = get_result_mounts T v.op.kind inputs outputs

    abbrev pub first_error : Option Error → Option Error → Option Error
    first_error none e = e
    first_error (some e) _ = some e

    unfoldable pub exec :
        Vertex
        → Cancel
        → Text
        → List Res
        → List Res × Option Error
        → Dict Text Ref
        → Pauses
        → (List Res × Option Error) × Notified
    exec v c id inputs (outputs, e) refs p =
        let n = notify_and_wait c id (status_of v e (results_of v inputs (outputs, e))) refs p in
        ((outputs, first_error e n.failure), n)
