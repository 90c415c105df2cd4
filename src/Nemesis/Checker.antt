-- ===== src/Nemesis/Checker.antt =====
-- internal/nemesis/history.go and checker.go: recorded operations, the model of one register for
-- each key, and the history that is given to the linearizability checker. Porcupine, which searches
-- for an order, is the parameter of the check.
use raft_kv.Common.{
  ℕ, ◌-◌, ◌^◌, Bool, true, false, not, ◌&&◌, ◌||◌, Option, none, some, List, [], ◌∷◌, if◌then◌else◌,
}
use raft_kv.Common.Bytes.{Bytes, bytes_eq}

pub data Kind : Type 0 where
  put get delete other : Kind

pub record Op : Type 0 where
  pub client : ℕ
  pub kind : Kind
  pub key : Bytes
  pub value : Bytes
  pub found : Bool
  pub output : Bytes
  pub unknown : Bool
  pub invoke : ℕ
  pub return : ℕ

pub record KvInput : Type 0 where
  pub kind : Kind
  pub key : Bytes
  pub value : Bytes

pub record KvOutput : Type 0 where
  pub found : Bool
  pub value : Bytes

-- porcupine.Operation
pub record Operation : Type 0 where
  pub client_id : ℕ
  pub call : ℕ
  pub input : KvInput
  pub output : KvOutput
  pub return : ℕ

abbrev pub max_int64 : ℕ
max_int64 = 2 ^ 63 - 1

-- kvModel.Init: no value.
abbrev pub init : KvOutput
init = record { found = false; value = [] }

abbrev same_bool : Bool → Bool → Bool
same_bool true b = b
same_bool false b = not b

-- kvModel.Step
unfoldable pub step_kind : Kind → KvOutput → KvInput → KvOutput → Bool × KvOutput
step_kind put st input output = (true, record { found = true; value = input.value })
step_kind delete st input output = (true, record { found = false; value = [] })
step_kind get st input output =
    (same_bool output.found st.found && (not st.found || bytes_eq output.value st.value), st)
step_kind other st input output = (false, st)

unfoldable pub step : KvOutput → KvInput → KvOutput → Bool × KvOutput
step st input output = step_kind input.kind st input output

-- kvModel.Partition: the operations of one key.
unfoldable pub of_key : Bytes → List Operation → List Operation
of_key k [] = []
of_key k (o ∷ h) = if bytes_eq o.input.key k then o ∷ of_key k h else of_key k h

unfoldable pub is_put : Kind → Bool
is_put put = true
is_put get = false
is_put delete = false
is_put other = false

-- An operation whose outcome is not known and which is no put is left out.
unfoldable pub is_dropped : Op → Bool
is_dropped op = op.unknown && not (is_put op.kind)

abbrev pub operation : Op → Bytes → KvOutput → ℕ → Operation
operation op value output end = record {
  client_id = op.client;
  call = op.invoke;
  input = record { kind = op.kind; key = op.key; value = value };
  output = output;
  return = end;
}

-- `none` is the error on an unknown kind.
unfoldable pub convert_kind : Kind → Op → Option Operation
convert_kind put op =
    some (operation op op.value init (if op.unknown then max_int64 else op.return))
convert_kind get op =
    some (operation op [] (record { found = op.found; value = op.output }) op.return)
convert_kind delete op = some (operation op [] init op.return)
convert_kind other op = none

unfoldable pub convert : Op → Option Operation
convert op = convert_kind op.kind op

abbrev pub push : Option Operation → Option (List Operation) → Option (List Operation)
push none h = none
push (some o) none = none
push (some o) (some h) = some (o ∷ h)

-- The history that Porcupine gets.
unfoldable pub history : List Op → Option (List Operation)
history [] = some []
history (op ∷ ops) =
    let rest = history ops in if is_dropped op then rest else push (convert op) rest

pub data CheckResult : Type 0 where
  linearizable illegal timed_out : CheckResult

pub data Verdict : Type 0 where
  verdict : Bool → Verdict
  unknown_kind : Verdict
  check_timed_out : Verdict

unfoldable pub verdict_of : CheckResult → Verdict
verdict_of linearizable = verdict true
verdict_of illegal = verdict false
verdict_of timed_out = check_timed_out

unfoldable pub check_linearizability : (List Operation → CheckResult) → List Op → Verdict
check_linearizability porcupine ops = elim (history ops) [
  | none ↦ unknown_kind
  | some h ↦ verdict_of (porcupine h)
]
