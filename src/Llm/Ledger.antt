-- ===== src/Llm/Ledger.antt =====
-- src/zhixu/adapters/storage/sqlite/llm_usage.py: `SQLiteLLMUsage`, the counters of what each user has
-- asked of each model in the day and in the month, and the events of the calls. The clock's answer is
-- an argument: the date in UTC, which is all that the windows depend on.
pub mod Finish
pub mod Calls
pub mod Charge
pub mod Budget
pub mod Once
use zhixu.Prelude.{
  ℕ, zero, suc, ◌+◌, ◌-◌, ◌*◌, ◌/◌, ◌%◌, ◌≤◌, ◌<◌, max, String, ◌≡◌, refl, sym, ap, ◌∙◌, ◌≢◌, ◌⊎◌,
  inl, inr, Bool, true, false, not, ◌&&◌, ◌||◌, Option, none, some, List, [], ◌∷◌, ◌++◌, map, arith,
  eq_iff, ltb, leb, ◌==◌, if◌then◌else◌, ltb→lt, leb→le, Bool-cases, Option-cases, length, any, all,
  All, length-append, str_eq, codes, is_space, is_blank, text_length, prefix, str_leb, str_mem,
  str_leb_total, str_leb_trans, str_leb_refl, str_eq_comm, str_eq_refl,
}
use zhixu.Prelude.Result.{
  Result-cases, Error, Result, ok, err, ◌>>=◌, ◌>>◌, raise_if, or_raise, >>=-eq-ok, >>-eq-ok,
  validation_error, not_found, conflict, concurrency_conflict, permission_denied,
  confirmation_required, classification_not_supported, invalid_transition, llm_unavailable,
  llm_budget_exceeded, invalid_model_output, value_error, key_error, permission_error,
  runtime_error, type_error, integrity_error, assertion_error,
}
use zhixu.Prelude.Table.{select_one, update_where, count_where}
use zhixu.Prelude.Int.{ℤ, pos, negsuc}
use zhixu.Calendar.{Date}
use zhixu.Llm.{LlmCallReason}

-- `LLMBudgetLimit`
pub record LlmBudgetLimit : Type 0 where
  pub window_kind : String
  pub calls : ℕ
  pub input_units : ℕ
  pub output_units : ℕ

-- `LLMBudgetLimit.__post_init__`
unfoldable pub check_limit : LlmBudgetLimit → Result (Unit {0})
check_limit l = do
  raise_if (not (str_mem l.window_kind ("day" ∷ "month" ∷ []))) value_error
  raise_if ((l.calls == 0) || ((l.input_units == 0) || (l.output_units == 0))) value_error

-- A row of `llm_usage`; the text of the start of a window is its date.
pub record Usage : Type 0 where
  pub owner_user_id : String
  pub model_ref : String
  pub window_kind : String
  pub window_start : Date
  pub calls : ℕ
  pub input_units : ℕ
  pub output_units : ℕ

-- A row of `llm_call_events`.
pub record CallEvent : Type 0 where
  pub id : ℕ
  pub occurred_on : Date
  pub owner_user_id : String
  pub model_ref : String
  pub reason : LlmCallReason
  pub outcome : String
  pub estimated_input_units : ℕ
  pub input_units : ℕ
  pub output_units : ℕ
  pub cached_input_units : ℕ

-- The tables, the ids of `users`, and the next id that AUTOINCREMENT gives.
pub record Ledger : Type 0 where
  pub users : List String
  pub usage : List Usage
  pub events : List CallEvent
  pub next_id : ℕ

-- `_window_start`
unfoldable pub start_of_window : Date → String → Result Date
start_of_window now kind =
    if str_eq kind "day"
    then ok now
    else if str_eq kind "month"
    then ok (record now { day = 1 })
    else err value_error

abbrev pub same_day : Date → Date → Bool
same_day a b = (a.year == b.year) && ((a.month == b.month) && (a.day == b.day))

-- The primary key: the owner, the model, the kind of the window and its start.
unfoldable pub has_key : String → String → String → Date → Usage → Bool
has_key owner model kind start u =
    str_eq u.owner_user_id owner
    && (str_eq u.model_ref model && (str_eq u.window_kind kind && same_day u.window_start start))

-- The row of a window, with zeros where there is none.
unfoldable pub used_in : String → String → String → Date → List Usage → Usage
unfolding has_key
used_in owner model kind start rows = elim (select_one (has_key owner model kind start) rows) [
  | some u ↦ u
  | none ↦ record {
    owner_user_id = owner;
    model_ref = model;
    window_kind = kind;
    window_start = start;
    calls = 0;
    input_units = 0;
    output_units = 0;
  }
]

unfoldable pub exceeds : LlmBudgetLimit → Usage → ℕ → Bool
exceeds l u estimated =
    ltb l.calls (u.calls + 1)
    || (ltb l.input_units (u.input_units + estimated) || leb l.output_units u.output_units)

-- The first loop of `reserve`: whether a limit is exceeded; a window that is none raises only before one is.
unfoldable pub some_exceeded :
    String → String → ℕ → Date → List Usage → List LlmBudgetLimit → Result Bool
unfolding start_of_window used_in exceeds
some_exceeded owner model estimated now rows [] = ok false
some_exceeded owner model estimated now rows (l ∷ ls) =
    let rest = some_exceeded owner model estimated now rows ls in
    do
      start ← start_of_window now l.window_kind
      if exceeds l (used_in owner model l.window_kind start rows) estimated then ok true else rest

-- INSERT … ON CONFLICT DO UPDATE: the row of the key grows, or is made.
unfoldable pub charge : String → String → String → Date → ℕ → List Usage → List Usage
unfolding has_key
charge owner model kind start estimated [] =
    record {
      owner_user_id = owner;
      model_ref = model;
      window_kind = kind;
      window_start = start;
      calls = 1;
      input_units = estimated;
      output_units = 0;
    }
    ∷ []
charge owner model kind start estimated (u ∷ us) =
    let rest = charge owner model kind start estimated us in
    if has_key owner model kind start u
    then record u { calls = u.calls + 1; input_units = u.input_units + estimated } ∷ us
    else u ∷ rest

-- The second loop of `reserve`.
unfoldable pub charge_all :
    String → String → ℕ → Date → List LlmBudgetLimit → List Usage → Result (List Usage)
unfolding start_of_window charge
charge_all owner model estimated now [] rows = ok rows
charge_all owner model estimated now (l ∷ ls) rows = do
  start ← start_of_window now l.window_kind
  charge_all owner model estimated now ls (charge owner model l.window_kind start estimated rows)

-- The arguments of `reserve`, with the date that the clock gives.
pub record Reserve : Type 0 where
  pub owner_user_id : String
  pub model_ref : String
  pub reason : LlmCallReason
  pub estimated_input_units : ℕ
  pub limits : List LlmBudgetLimit
  pub now : Date

unfoldable pub reserved_event : Reserve → ℕ → CallEvent
reserved_event r id = record {
  id = id;
  occurred_on = r.now;
  owner_user_id = r.owner_user_id;
  model_ref = r.model_ref;
  reason = r.reason;
  outcome = "reserved";
  estimated_input_units = r.estimated_input_units;
  input_units = 0;
  output_units = 0;
  cached_input_units = 0;
}

-- The writes of `reserve`. An owner who is no user breaks the foreign keys, and nothing is kept.
unfoldable pub charged : Ledger → Reserve → Result (Option ℕ × Ledger)
unfolding charge_all reserved_event
charged g r = do
  raise_if (not (any (str_eq r.owner_user_id) g.users)) integrity_error
  rows ← charge_all r.owner_user_id r.model_ref r.estimated_input_units r.now r.limits g.usage
  ok (
    some g.next_id,
    record g {
      usage = rows;
      events = g.events ++ reserved_event r g.next_id ∷ [];
      next_id = g.next_id + 1;
    },
  )

-- `SQLiteLLMUsage.reserve`: the id of the call, or None where a limit is exceeded.
unfoldable pub reserve : Ledger → Reserve → Result (Option ℕ × Ledger)
unfolding some_exceeded charged
reserve g r = do
  exceeded ←
      some_exceeded r.owner_user_id r.model_ref r.estimated_input_units r.now g.usage r.limits
  (if exceeded then ok (none, g) else charged g r)
