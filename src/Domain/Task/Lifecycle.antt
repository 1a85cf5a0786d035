-- ===== src/Domain/Task/Lifecycle.antt =====
-- The life of a task: what every change keeps, which states can follow which, and the end.
use zhixu.Prelude.{◌+◌, ◌≤◌, ◌≡◌, refl, ◌≢◌, ◌⊎◌, Bool, true, not, some, List, [], ◌∷◌, arith}
use zhixu.Prelude.Result.{Result, ok, err, >>-eq-ok}
use zhixu.Domain.Time.{DateTime}
use zhixu.Domain.Task.{
  Task, TaskStatus, completed, cancelled, archived, check_task, transition, postpone, is_closed,
  allowed_transition, valid_task,
}

-- A value that the constructor accepts.
abbrev pub IsValid : Task → Type 0
IsValid t = check_task t ≡ ok t

-- What a user can do to a task.
pub data Change : Type 0 where
  to_status : TaskStatus → DateTime → Change
  to_due : DateTime → DateTime → Change

unfoldable pub apply : Change → Task → Result Task
apply (to_status s now) t = transition t s now
apply (to_due due now) t = postpone t due now

-- A change that is refused leaves the task as it was.
abbrev keep : Task → Result Task → Task
keep t (ok u) = u
keep t (err e) = t

unfoldable pub run : Task → List Change → Task
unfolding apply
run t [] = t
run t (c ∷ cs) = run (keep t (apply c t)) cs

-- The value that a change constructs, where the change is accepted.
abbrev pub changed : Change → Task → Task
changed (to_status s now) t = record t {
  status = s;
  version = t.version + 1;
  updated_at = some now;
}
changed (to_due due now) t = record t {
  due_at = some due;
  version = t.version + 1;
  updated_at = some now;
}

-- When the state of the task lets the change through.
abbrev pub lets : Change → Task → Bool
lets (to_status s now) t = allowed_transition t.status s
lets (to_due due now) t = not (is_closed t.status)

pub check_task-eq : (t u : Task) → check_task t ≡ ok u → u ≡ t
unfolding check_task
check_task-eq t u h = (>>-eq-ok (valid_task t) t h).1

-- An accepted change was let through by the state, and its result is the changed task, checked.
pub apply-eq-ok :
    (c : Change) (t u : Task)
    → apply c t ≡ ok u
    → (lets c t ≡ true) × (u ≡ changed c t) × (check_task (changed c t) ≡ ok u)
unfolding apply transition postpone
apply-eq-ok (to_status s now) t u h = ground (arith, check_task-eq (changed (to_status s now) t) u)
apply-eq-ok (to_due due now) t u h = ground (arith, check_task-eq (changed (to_due due now) t) u)

-- The three states in which a task is over.
abbrev pub IsEnded : TaskStatus → Type 0
IsEnded s = (s ≡ completed) ⊎ ((s ≡ cancelled) ⊎ (s ≡ archived))

-- The task after a change, accepted or not, against the task before: what is never touched, and
-- what only goes one way.
pub record Kept (t u : Task) : Type 0 where
  pub id : u.id ≡ t.id
  pub owner : u.owner_user_id ≡ t.owner_user_id
  pub creator : u.creator_user_id ≡ t.creator_user_id
  pub title : u.title ≡ t.title
  pub description : u.description ≡ t.description
  pub priority : u.priority ≡ t.priority
  pub classification : u.classification ≡ t.classification
  pub created_at : u.created_at ≡ t.created_at
  pub version : t.version ≤ u.version
  pub ended : IsEnded t.status → IsEnded u.status × (u.due_at ≡ t.due_at)

Kept-refl : (t : Task) → Kept t t
Kept-refl t = ground arith

Kept-trans : (t u v : Task) → Kept t u → Kept u v → Kept t v
Kept-trans t u v h k = ground arith

changed-Kept : (c : Change) (t : Task) → lets c t ≡ true → Kept t (changed c t)
unfolding allowed_transition
changed-Kept (to_status s now) t h = ground arith
changed-Kept (to_due due now) t h = ground arith

archived_refused : (c : Change) (t : Task) → lets c t ≡ true → t.status ≢ archived
unfolding allowed_transition
archived_refused (to_status s now) t h a = ground arith
archived_refused (to_due due now) t h a = ground arith

record Step (c : Change) (t u : Task) : Type 0 where
  kept : Kept t u
  valid : IsValid t → IsValid u
  archived : t.status ≡ archived → u ≡ t

apply-Step : (c : Change) (t : Task) (r : Result Task) → apply c t ≡ r → Step c t (keep t r)
apply-Step c t (err e) h = record { kept = Kept-refl t; valid = λ v. v; archived = λ a. refl }
apply-Step c t (ok u) h =
    let f = apply-eq-ok c t u h in
    record {
      kept = rw f.1 (changed-Kept c t f.0);
      valid = λ v. cc (f.1, f.2);
      archived = λ a. absurd (archived_refused c t f.0 a);
    }

-- Through any changes of a task, accepted or refused, who owns it, what it says and how secret it is
-- stay as they are, its version never falls, and once completed, cancelled or archived it is never
-- opened or postponed again.
pub run-Kept : (t : Task) (cs : List Change) → Kept t (run t cs)
unfolding run
run-Kept t [] = Kept-refl t
run-Kept t (c ∷ cs) =
    let s = apply-Step c t (apply c t) refl in
    Kept-trans t (keep t (apply c t)) (run (keep t (apply c t)) cs) s.kept
      (run-Kept (keep t (apply c t)) cs)

-- A valid task stays valid through any changes.
pub run-IsValid : (t : Task) (cs : List Change) → IsValid t → IsValid (run t cs)
unfolding run
run-IsValid t [] v = v
run-IsValid t (c ∷ cs) v =
    run-IsValid (keep t (apply c t)) cs ((apply-Step c t (apply c t) refl).valid v)

-- An archived task never changes again.
pub archived_absorbs : (t : Task) (cs : List Change) → t.status ≡ archived → run t cs ≡ t
unfolding run
archived_absorbs t [] h = refl
archived_absorbs t (c ∷ cs) h =
    rw ((apply-Step c t (apply c t) refl).archived h) (archived_absorbs t cs h)
