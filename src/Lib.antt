-- ===== src/Lib.antt =====
-- Zhixu is a personal assistant on a server of its own: it keeps tasks, notes and reminders, talks
-- through chat channels, and keeps secrets in a separate vault. This library models the parts whose
-- logic must not fail, and proves what makes them correct. Paths are those of the repository.
--
-- Domain. `Domain/Classification`, `Domain/Policy`, `Domain/Task` and `Domain/Note` are
-- classification.py, policy.py, task.py and note.py of src/zhixu/domain. A dataclass is a record, an
-- enum a data type, and `__post_init__` a check (`check_task`, `check_context`) that gives the value
-- or an error.
-- `PolicyEngine.require` is `require`, with the lookup of explicit grants as an argument.
-- `Task.transition` and `Task.postpone` give a new task; a run of changes is
-- `Domain.Task.Lifecycle.run`, in which a refused change leaves the task as it was. `Domain/Time` has
-- `require_aware` of agenda.py.
-- `Domain/Lunar` is lunar_calendar.py: `Table` has its years, `to_solar` and `from_solar` convert
-- between a lunar date and the ordinal of a day; `Year` and `Lookup` have the lemmas of `Roundtrip`.
-- `Domain/Business` is business_calendar.py over any snapshot of holidays; `Count` and `Position`
-- compare `monthly_business_day` with a count of the days of the month. `Domain/Briefing` is
-- briefing.py, with the proofs in `Next`, and `Domain/Leads` is `normalise_lead_minutes` of agenda.py,
-- with the proofs in `Canonical`. `Domain/Reminder` and `Domain/Identity` are reminder.py with
-- action_link.py, and identity.py with job.py; the parsing of URLs and of recurrence rules and the
-- names of time zones are arguments.
--
-- `Domain/Agenda` is agenda.py: recurrence rules with the parsing of business-day rules, items and
-- exceptions with their checks; `Months` has the loop of `occurrences_between` over the months, and
-- `Occurrences` the rest of it, with the proofs in `Window` over `Exceptions`. The zones of
-- zoneinfo and what dateutil makes of an RRULE are the fields of a record `Calendars`. The loop
-- over months runs on fuel, one more than the number of months, which `Months` shows to be enough.
--
-- Storage. `Storage` is src/zhixu/adapters/storage/sqlite/repositories.py on the tables of
-- `Storage/Tables`: a transaction is a function from the database to the database, and one that
-- raises leaves the database as it was. `Access` has `_require_authorization`, `_audit` and the
-- grants; `Tasks` is `TaskRepository`, with the calls of several clients in `Calls`; `Reminders` is
-- `ReminderRepository`, with `enqueue_due` in `Reminders/Due`; `Leads` is
-- `NotificationLeadRepository` and `Agenda` is `AgendaRepository`, over the rows of
-- `Agenda/Tables`. `Tasks/View` is what a client sees of the tasks, a map from ids to tasks, and
-- `Tasks/Refinement` compares the statements with it; `Tasks/Versions`, `Due/Again` and
-- `Due/Settle` have the other proofs, over the lemmas of `Effect`, `Frame` and `Handled`. The card
-- of a reminder, the ISO texts and the hash that names a delivery are arguments.
--
-- Services. `Services` is src/zhixu/application/services.py with the commands of commands.py: a
-- command looks up what it is about, asks `PolicyEngine.require`, with the grants of the database,
-- and calls the repository with the authorization that it got. `Services/Tasks/Calls` is the
-- command bus for tasks. `Steps` and `Step` describe what one command does, and `Accounted`,
-- `Rows`, `ReadBack` and `Moves` what follows. `Services/Reminders` and `Services/Agenda` have the
-- commands on reminders and agenda items, with the proofs in `Cancelled`, and in `Silenced` over
-- `Announcements`. `Scheduler/Leads` is `NotificationLeadScheduler` of
-- src/zhixu/application/scheduler.py, with the other repositories behind a record `Ports` and the
-- proofs in `Announced`; the tick of `ReminderScheduler` is a call of `Services/Reminders/Calls`.
-- Work of several transactions gives the database beside its result.
--
-- Channels. `Channels` is src/zhixu/channels/contracts.py: the inbound event and the outbound
-- message with the checks of its parts, on the calendar of `Calendar`, which is Python's `calendar`
-- and `date`.
--
-- Delivery. A message is put into the outbox, a worker claims it under a lease, asks the quota,
-- sends it and completes the lease. `Delivery/Outbox` is src/zhixu/delivery/outbox.py: `Tables` the
-- rows and `_message_from_row`, `Enqueue`, `Claim` (with `defer_for_quota`) and `Complete` (with
-- `complete_lease`, `retry_dead`, `get_status` and `with_message`) the methods of `OutboxStore`. A
-- method is a function from the store to the store; as every method is one transaction, `Calls` has
-- any interleaving of workers as a list of calls, and `run` runs it. Theorems stand in `Invariant`,
-- `Idempotency`, `Selection`, `Idle`, `Exclusion`, `Outcome` and `Requeue`, over the lemmas of
-- `Rows`, `Order`, `Effect` and `Untouched`. `Delivery/Quota` is src/zhixu/delivery/quota.py:
-- `reserve` on the rows of `quota_usage`, with the time zones as a parameter; `Quota/Counters` and
-- `Quota/Reserve` have the proofs. `Delivery/Renderer` is src/zhixu/delivery/renderer.py, each regular
-- expression a scanner of the text, and `Delivery/Worker` src/zhixu/delivery/worker.py: `tick` composes
-- `claim`, `reserve`, `render_for_capabilities` and `complete`, and gives the tables, what it returns
-- or raises and what the adapter was handed. What `send` answers or raises is a function of the
-- adapter. `Worker/Settle` and `Worker/Raise` have the proofs.
--
-- Plans. `Plans` is src/zhixu/adapters/storage/sqlite/pending_plans.py: the methods of
-- `PendingPlanStore` on the rows of `assistant_pending_plans`. `Calls` has the calls that write and
-- their runs, `Effect` what a call may do; `Single`, `Once` and `Current` have the theorems.
--
-- Language model. `Llm` is src/zhixu/application/llm.py with src/zhixu/security/egress.py: `generate`
-- changes the circuit and the ledger, `Llm/Breaker` has its proofs. The ledger is the port
-- `LLMUsagePort`, a record of operations on a state, and the answer of the provider an argument.
-- `Llm/Ledger` is src/zhixu/adapters/storage/sqlite/llm_usage.py, the ledger in the database:
-- `reserve`, with `record_result` in `Finish` and the runs of both in `Calls`; `Charge`, `Budget` and
-- `Once` have the proofs.
--
-- Vault. `Vault/Grants`, `Vault/Policy` and `Vault/Audit` are grants.py, policy.py and audit.py of
-- src/zhixu_vault. `verify_and_consume` works on the rows of `grant_nonces`; base64, JSON, ISO times,
-- SHA-256 and Ed25519 are the functions of a record `Codec`. The audit log is the list of its rows,
-- and the HMAC is an argument; checkpoints are values. `Vault/Service` is the part of service.py and
-- storage.py that creates secrets and authorizes what is done with them.
--
-- Conventions. A time is a number of microseconds, with a mark that it is aware; the texts of times
-- in the database order as the moments do. The times of an agenda item are in its zone, as the
-- repository loads them, so a duration or a lead time is counted in wall time there, which `wall`
-- and `moment` of `Calendars` and `Ports` convert; now and the bounds of a window are in UTC. Two
-- times are compared as moments: Python compares those of one zone by wall time, which differs only
-- where a clock is set back. A number that Python lets be negative is a ℕ where a check refuses the
-- negative ones, and so is the priority of a delivery, which no caller makes negative. An error is
-- known by its class. A token that the code draws at random is an argument. A loop of the code is a
-- recursion on a list or a text; the loop over months runs on fuel, and so does `decimal`, which
-- writes the number of a button: a number has no more digits than itself and one.
--
-- Not modelled: the repositories and services of users, identities, notes, anniversaries,
-- briefings, jobs and agenda notification rules, with their schedulers; what ON DELETE CASCADE
-- removes from other tables than those of the model; moments before the first one, and a negative
-- grace for missed reminders; years above 9998, where Python has no date; what a ledger raises
-- behind `LLMUsagePort`; the refusal of an empty list by the constructors of the quota manager and
-- of the outbox; the understanding of free text; the providers behind the channels and the web
-- interface; the files of audit checkpoints, encryption, backup and configuration, which call
-- libraries, files and networks.
pub mod Prelude
pub mod Calendar
pub mod Domain
pub mod Channels
pub mod Delivery
pub mod Storage
pub mod Services
pub mod Scheduler
pub mod Plans
pub mod Vault
pub mod Llm
pub mod Tests
