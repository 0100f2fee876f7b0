-- ===== src/Types.antt =====
-- The data that the components exchange: source locations (pkg/buildkit/location.go), the fields that
-- the program reads of BuildKit's pb messages, and the status of an operation
-- (pkg/buildkit/controller.go).
use buildg.Prelude.{ℕ, List, Option}
use buildg.Int.{ℤ}
use buildg.Text.{Text}
use buildg.Errors.{Error}

-- pb.Range: the lines of its Start and End.
pub record Range : Type 0 where
  pub start_line : ℤ
  pub end_line : ℤ

-- pb.SourceInfo; the program compares these by address.
pub record SourceInfo : Type 0 where
  pub address : ℕ
  pub filename : Text
  pub bytes : Text

pub record Location : Type 0 where
  pub source : SourceInfo
  pub ranges : List Range

-- pb.Mount, with the fields that are handed on to a container unread
pub record Mount : Type 0 where
  pub input : ℤ
  pub output : ℤ
  pub selector : Text
  pub dest : Text
  pub readonly : ℕ
  pub mount_type : ℕ
  pub cache_opt : ℕ
  pub secret_opt : ℕ
  pub ssh_opt : ℕ

pub record Meta : Type 0 where
  pub cwd : Text
  pub env : List Text
  pub user : Text

pub record ExecOp : Type 0 where
  pub mounts : List Mount
  pub meta : Meta
  pub network : ℕ
  pub security : ℕ

-- What `GetOp()` returns: a RUN instruction or another operation.
pub data OpKind : Type 0 where
  exec_op : ExecOp → OpKind
  other_op : OpKind

pub record Op : Type 0 where
  pub kind : OpKind
  pub platform : ℕ
  pub constraints : ℕ

pub record RegisteredStatus : Type 0 where
  pub name : Text
  pub debug_id : Text
  pub input_ids : List Text
  pub mount_ids : List Text
  pub vertex : Text
  pub op : Op
  pub err : Option Error
