-- ===== src/Storage/Tasks/Calls.antt =====
-- The calls of `TaskRepository` that write, as values, and their runs.
use zhixu.Prelude.{ℕ, String, Option, none, some, List, [], ◌∷◌}
use zhixu.Prelude.Result.{Result, ok, err, ◌>>=◌}
use zhixu.Domain.Policy.{AuthorizedAction}
use zhixu.Domain.Task.{Task}
use zhixu.Storage.Tables.{Database}
use zhixu.Storage.Tasks.{create_task, update_task, delete_task}

pub data Call : Type 0 where
  creates : Task → AuthorizedAction → Call
  updates : Task → ℕ → AuthorizedAction → Call
  deletes : String → AuthorizedAction → Call

-- What a call returns, or raises: the stored task, or None for a deletion.
abbrev pub Answer : Type 0
Answer = Result (Option Task)

unfoldable pub perform : Call → Database → Result (Option Task × Database)
unfolding create_task update_task delete_task
perform (creates t a) db = do (u, next) ← create_task db t a; ok (some u, next)
perform (updates t expected a) db = do (u, next) ← update_task db t expected a; ok (some u, next)
perform (deletes id a) db = do next ← delete_task db id a; ok (none, next)

-- A transaction that raises is rolled back.
abbrev pub answer {ℓ} : {S : Type ℓ} → Result (Option Task × S) → Answer
answer (ok (u, next)) = ok u
answer (err e) = err e

abbrev pub after {ℓ} : {S : Type ℓ} → S → Result (Option Task × S) → S
after s (ok (u, next)) = next
after s (err e) = s

-- A run gives the answers in order, and the database at its end.
unfoldable pub run : List Call → Database → List Answer × Database
unfolding perform
run [] db = ([], db)
run (c ∷ cs) db =
    let r = perform c db in let (answers, end) = run cs (after db r) in (answer r ∷ answers, end)
