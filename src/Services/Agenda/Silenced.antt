-- ===== src/Services/Agenda/Silenced.antt =====
-- After the deletion of an agenda item nothing announces it any more.
use zhixu.Prelude.{
  String, ◌≡◌, refl, sym, ap, ◌∙◌, subst, inl, inr, true, not, none, List, arith, eq_iff, ◌==◌,
  str_eq, ◌≢◌, some, Option, ltb, length, str_eq_refl, Option-cases,
}
use zhixu.Prelude.Result.{
  Result-cases, Result, ok, err, ◌>>=◌, raise_if, >>=-eq-ok, not_found, permission_denied, ◌>>◌,
  key_error, validation_error,
}
use zhixu.Prelude.Table.{
  In, delete_where, count_where, select_where, select_where-In, order_by, order_by-In, select_one,
}
use zhixu.Prelude.Keyed.{Unique, find, find-delete_one, find-key}
use zhixu.Domain.Time.{DateTime, require_aware}
use zhixu.Domain.Policy.{CommandContext, ResourceRef, AuthorizedAction, delete}
use zhixu.Domain.Reminder.{Reminder, ReminderStatus}
use zhixu.Domain.Agenda.{Calendars, AgendaItem, RecurrenceRule, check_item}
use zhixu.Storage.Access.{require_authorization, audit}
use zhixu.Storage.Reminders.{Checks, listed_before, list_for_owner, load_action_links}
use zhixu.Storage.Agenda.{
  agenda_ref, AgendaDatabase, rule_of, exception_of, is_owned, audit_agenda, delete_item, from_row,
  get_item, load_rule, creator_or_owner,
}
use zhixu.Services.Context.{authorize, current_context, require_creator_or_manager}
use zhixu.Services.Agenda.{
  named_item, cancel_announcements, finish, Deletion, prepare_deletion, delete_prepared,
  delete_agenda, announces,
}
use zhixu.Services.Agenda.Announcements.{
  key, Silent, Left, Lives, from_rows-In, cancel_announcements-Lives, cancel_announcements-Silent,
}

finish-eq :
    (last : AgendaDatabase → Result AgendaDatabase) (first : Result (Unit {0}) × AgendaDatabase)
    (end : AgendaDatabase)
    → finish last first ≡ (ok tt, end)
    → (mid : AgendaDatabase) × (first ≡ (ok tt, mid)) × (last mid ≡ ok end)
finish-eq last (err e, mid) end h =
    absurd (cc (ap (λ (z : Result (Unit {0}) × AgendaDatabase). z.0) h))
finish-eq last (ok x, mid) end h = elim (Result-cases (last mid)) [
  | inl (e, g) ↦
      let stopped : (err e, mid) ≡ (ok tt, end) = rw g at h in
      absurd (cc (ap (λ (z : Result (Unit {0}) × AgendaDatabase). z.0) stopped))
  | inr (next, g) ↦
      (let went : (ok tt, next) ≡ (ok tt, end) = rw g at h in
        (mid, refl, g ∙ ap ok (ap (λ (z : Result (Unit {0}) × AgendaDatabase). z.1) went)))
]

audit_agenda-eq :
    (a : AuthorizedAction) (db next : AgendaDatabase)
    → audit_agenda a db ≡ ok next
    → (next.items ≡ db.items) × (next.base.reminders ≡ db.base.reminders)
unfolding audit_agenda audit require_aware
audit_agenda-eq a db next h = ground arith

-- A deletion that succeeds takes the item away, and no reminder.
delete_item-Gone :
    (db end : AgendaDatabase) (id : String) (a : AuthorizedAction)
    → Unique key db.items
    → delete_item db id a ≡ ok end
    → (find key id end.items ≡ none) × (end.base.reminders ≡ db.base.reminders)
unfolding delete_item
delete_item-Gone db end id a un h =
    let owner = a.resource.owner_user_id in
    let p = is_owned id owner in
    let left = record db {
      items = delete_where p db.items;
      rules = delete_where (rule_of id) db.rules;
      exceptions = delete_where (exception_of id) db.exceptions;
    } in
    let ref : ResourceRef = record {
      kind = "agenda";
      id = id;
      owner_user_id = owner;
      classification = a.resource.classification;
    } in
    let count = raise_if (not (count_where p db.items == 1)) not_found in
    let (x, e, h1) =
      >>=-eq-ok (raise_if (not (str_eq a.resource.id id)) permission_denied)
        (λ _. require_authorization a delete ref >>= λ _. count >>= λ _. audit_agenda a left) h in
    let (y, f, h2) =
      >>=-eq-ok (require_authorization a delete ref) (λ _. count >>= λ _. audit_agenda a left) h1 in
    let (z, g, h3) = >>=-eq-ok count (λ _. audit_agenda a left) h2 in
    let (items, reminders) = audit_agenda-eq a left end h3 in
    let one : count_where p db.items ≡ 1 = ground (arith, g) in
    let only : (i : AgendaItem) → p i ≡ true → key i ≡ id =
      λ i s. (let same : str_eq i.id id ≡ true = ground arith in (eq_iff i.id id).0 same) in
    (ap (find key id) items ∙ find-delete_one key p id only db.items un one, reminders)

module _ (checks : Checks) (k : Calendars) where
  abbrev prepared : AgendaItem → CommandContext → AuthorizedAction → List Reminder → Result Deletion
  prepared i z a rs = ok (record { item = i; context = z; authorization = a; reminders = rs })

  prepared-eq :
      (db : AgendaDatabase) (i : AgendaItem) (z : CommandContext) (a : AuthorizedAction)
      (rs : List Reminder) (d : Deletion)
      → prepared i z a rs ≡ ok d
      → (P : AgendaItem → List Reminder → Type 0) → P i rs
      → P d.item d.reminders
  prepared-eq db i z a rs d h P holds =
      let made : Deletion = record { item = i; context = z; authorization = a; reminders = rs } in
      let same : made ≡ d = cc in subst (λ (x : Deletion). P x.item x.reminders) same holds

  prepare_deletion-reminders :
      (db : AgendaDatabase) (id : String) (c : CommandContext) (now : DateTime) (d : Deletion)
      → prepare_deletion checks k db id c now ≡ ok d
      → (named_item checks k db id ≡ ok d.item)
        × (list_for_owner checks db.base d.item.owner_user_id ≡ ok d.reminders)
  unfolding prepare_deletion
  prepare_deletion-reminders db id c now d h =
      let list = λ (i : AgendaItem) (z : CommandContext) (a : AuthorizedAction).
        list_for_owner checks db.base i.owner_user_id >>= prepared i z a in
      let grant = λ (i : AgendaItem) (z : CommandContext).
        authorize db.base z delete (agenda_ref i) >>= list i z in
      let guard = λ (i : AgendaItem) (z : CommandContext).
        require_creator_or_manager z i.owner_user_id i.creator_user_id >>= λ _. grant i z in
      let (i, e, h1) =
        >>=-eq-ok (named_item checks k db id) (λ i. current_context c now >>= guard i) h in
      let (z, f, h2) = >>=-eq-ok (current_context c now) (guard i) h1 in
      let (x, g, h3) =
        >>=-eq-ok (require_creator_or_manager z i.owner_user_id i.creator_user_id) (λ _. grant i z)
          h2 in
      let (a, m, h4) = >>=-eq-ok (authorize db.base z delete (agenda_ref i)) (list i z) h3 in
      let (rs, n, h5) =
        >>=-eq-ok (list_for_owner checks db.base i.owner_user_id) (prepared i z a) h4 in
      prepared-eq db i z a rs d h5
        (λ j l.
          (named_item checks k db id ≡ ok j)
          × (list_for_owner checks db.base j.owner_user_id ≡ ok l))
        (e, n)

  listed-Left :
      (db : AgendaDatabase) (id owner : String) (rs : List Reminder)
      → list_for_owner checks db.base owner ≡ ok rs
      → Left id owner rs db
  unfolding list_for_owner
  listed-Left db id owner rs h x i mine says =
      let own = λ (r : Reminder). str_eq r.owner_user_id owner in
      from_rows-In checks (order_by listed_before (select_where own db.base.reminders)) rs x h (
        order_by-In listed_before (select_where own db.base.reminders) x
          (select_where-In own db.base.reminders x i mine))

  finished :
      (db end : AgendaDatabase) (d : Deletion)
      → Unique key db.items
      → finish
          (λ next. delete_item next d.item.id d.authorization)
          (cancel_announcements checks k d.context d.item.id d.reminders db)
        ≡ (ok tt, end)
      → Left d.item.id d.item.owner_user_id d.reminders db
      → (find key d.item.id end.items ≡ none)
        × Silent d.item.id d.item.owner_user_id end
        × ((x : Reminder)
            → In x db.base.reminders
            → Lives checks k d.context d.item.id d.item.owner_user_id x end)
  finished db end d un h left =
      let (mid, went, last) =
        finish-eq (λ next. delete_item next d.item.id d.authorization)
          (cancel_announcements checks k d.context d.item.id d.reminders db) end h in
      let (items, silent) =
        cancel_announcements-Silent checks k d.context d.item.id d.item.owner_user_id d.reminders db
          mid went left in
      let (gone, reminders) =
        delete_item-Gone mid end d.item.id d.authorization
          (subst (λ l. Unique key l) (sym items) un) last in
      (
        gone,
        λ x i mine. silent x (subst (λ l. In x l) reminders i) mine,
        λ x i.
            (let (y, there, id, how) =
                cancel_announcements-Lives checks k d.context d.item.id d.item.owner_user_id
                  d.reminders db mid went x (x, i, refl, inl refl) in
              (y, subst (λ l. In y l) (sym reminders) there, id, how)),
      )

module _ (checks : Checks) (k : Calendars) (db : AgendaDatabase) where
  check_item-eq : (i j : AgendaItem) → check_item k i ≡ ok j → j ≡ i
  unfolding check_item
  check_item-eq i j h = ground arith

  from_row-fields :
      (row item : AgendaItem)
      → from_row checks k db row ≡ ok item
      → (item.id ≡ row.id) × (item.owner_user_id ≡ row.owner_user_id)
  unfolding from_row
  from_row-fields row item h =
      let whole = λ (rule : Option RecurrenceRule).
        check_item k
          (record row { creator_user_id = some (creator_or_owner row); recurrence = rule }) in
      let links =
        λ (rule : Option RecurrenceRule). load_action_links checks row.action_links >> whole rule in
      let few = λ (rule : Option RecurrenceRule).
        raise_if (ltb 8 (length row.action_links)) validation_error >> links rule in
      let zone = raise_if (not (k.is_zone row.timezone)) key_error in
      let (rule, e, h1) =
        >>=-eq-ok (load_rule checks k (select_one (rule_of row.id) db.rules))
          (λ rule. zone >> few rule) h in
      let (x, f, h2) = >>=-eq-ok zone (λ _. few rule) h1 in
      let (y, g, h3) =
        >>=-eq-ok (raise_if (ltb 8 (length row.action_links)) validation_error) (λ _. links rule)
          h2 in
      let (z, m, h4) = >>=-eq-ok (load_action_links checks row.action_links) (λ _. whole rule) h3 in
      let same =
        check_item-eq
          (record row { creator_user_id = some (creator_or_owner row); recurrence = rule }) item
          h4 in
      (ap (λ (i : AgendaItem). i.id) same, ap (λ (i : AgendaItem). i.owner_user_id) same)

  -- The item that an id names is the row with that id.
  named_item-row :
      (id : String) (item : AgendaItem)
      → named_item checks k db id ≡ ok item
      → (row : AgendaItem) × (find key id db.items ≡ some row)
        × (item.id ≡ id)
        × (item.owner_user_id ≡ row.owner_user_id)
  unfolding named_item get_item select_one
  named_item-row id item h = elim (Option-cases (find key id db.items)) [
    | inl e ↦ let missed : err not_found ≡ ok item = rw e at h in absurd (cc)
    | inr (row, e) ↦ elim (Result-cases (from_row checks k db row)) [
      | inl (x, g) ↦ let raised : err x ≡ ok item = rw (e, g) at h in absurd (cc)
      | inr (i, g) ↦
          (let read : ok i ≡ ok item = rw (e, g) at h in
            let same : i ≡ item = cc in
            let (id_is, owner_is) = from_row-fields row i g in
            let at : row.id ≡ id = find-key key id db.items row e in
            (
              row,
              e,
              ap (λ (j : AgendaItem). j.id) (sym same) ∙ id_is ∙ at,
              ap (λ (j : AgendaItem). j.owner_user_id) (sym same) ∙ owner_is,
            ))
    ]
  ]

-- What the deletion of the item of an owner leaves: no reminder of the owner is pending for it, and all
-- those that were are cancelled.
pub record Silences (id owner : String) (db end : AgendaDatabase) : Type 0 where
  pub quiet :
      (x : Reminder)
      → In x end.base.reminders
      → x.owner_user_id ≡ owner
      → x.related_kind ≡ some "agenda"
      → x.related_id ≡ some id
      → x.status ≢ ReminderStatus.pending
  pub cancels :
      (x : Reminder)
      → In x db.base.reminders
      → x.owner_user_id ≡ owner
      → x.related_kind ≡ some "agenda"
      → x.related_id ≡ some id
      → x.status ≡ ReminderStatus.pending
      → (y : Reminder) × In y end.base.reminders
        × (y.id ≡ x.id)
        × (y.status ≡ ReminderStatus.cancelled)

says :
    (id : String) (x : Reminder)
    → x.related_kind ≡ some "agenda"
    → x.related_id ≡ some id
    → x.status ≡ ReminderStatus.pending
    → announces id x ≡ true
says id x kind about waits = rw (kind, about, waits) (rw (str_eq_refl id) refl)

Silent-Silences :
    (checks : Checks) (k : Calendars) (c : CommandContext) (id owner : String)
    (db end : AgendaDatabase)
    → Silent id owner end
    → ((x : Reminder) → In x db.base.reminders → Lives checks k c id owner x end)
    → Silences id owner db end
Silent-Silences checks k c id owner db end silent lives = record {
  quiet = λ x i mine kind about waits.
      cc (silent x i ((eq_iff x.owner_user_id owner).1 mine), says id x kind about waits);
  cancels = λ x i mine kind about waits.
      (let (y, there, same, how) = lives x i in
        elim how [
          | inl e ↦
              let here : In x end.base.reminders = subst (λ z. In z end.base.reminders) e there in
              absurd (
                cc (
                  silent x here ((eq_iff x.owner_user_id owner).1 mine),
                  says id x kind about waits,
                ))
          | inr over ↦ (y, there, same, over)
        ]);
}

-- When the deletion of the agenda item with an id succeeds, in a database whose item ids are unique, the
-- item was there and is gone, no reminder of its owner is pending for it any more, and every one that was
-- is cancelled.
pub delete_agenda-Silent :
    (checks : Checks) (k : Calendars) (db end : AgendaDatabase) (id : String) (c : CommandContext)
    (now : DateTime)
    → Unique key db.items
    → delete_agenda checks k db id c now ≡ (ok tt, end)
    → (item : AgendaItem) × (find key id db.items ≡ some item)
      × (find key id end.items ≡ none)
      × Silences id item.owner_user_id db end
unfolding delete_agenda delete_prepared
delete_agenda-Silent checks k db end id c now un h =
    elim (Result-cases (prepare_deletion checks k db id c now)) [
      | inl (e, p) ↦
          let stopped : (err e, db) ≡ (ok tt, end) = rw p at h in
          absurd (cc (ap (λ (z : Result (Unit {0}) × AgendaDatabase). z.0) stopped))
      | inr (d, p) ↦
          (let gone : finish (λ next. delete_item next d.item.id d.authorization)
                  (cancel_announcements checks k d.context d.item.id d.reminders db)
                ≡ (ok tt, end) =
              rw p at h in
            let (named, listed) = prepare_deletion-reminders checks k db id c now d p in
            let (item, found, same, owned) = named_item-row checks k db id d.item named in
            let left = listed-Left checks k db d.item.id d.item.owner_user_id d.reminders listed in
            let (away, silent, lives) = finished checks k db end d un gone left in
            let whole =
              Silent-Silences checks k d.context d.item.id d.item.owner_user_id db end silent
                lives in
            (
              item,
              found,
              subst (λ z. find key z end.items ≡ none) same away,
              subst (λ o. Silences id o db end) owned
                  (subst (λ z. Silences z d.item.owner_user_id db end) same whole),
            ))
    ]
