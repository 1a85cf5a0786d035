-- ===== src/Tests/Domain.antt =====
-- Runs of the domain model (src/zhixu/domain): one authorization and the life of one task.
use zhixu.Prelude.{ℕ, ◌≡◌, refl, true, false, none, some, List, [], ◌∷◌, arith}
use zhixu.Prelude.Result.{ok}
use zhixu.Prelude.Text.{is_blank, text_length}
use zhixu.Domain.Note.{Note, check_note}
use zhixu.Domain.Note.Checked.{Readable, check_note-Readable}
use zhixu.Domain.Time.{DateTime}
use zhixu.Domain.Classification.{personal, confidential}
use zhixu.Domain.Policy.{
  CommandContext, ResourceRef, AuthorizedAction, read, step_up, private_chat, no_grants, has_access,
  require,
}
use zhixu.Domain.Policy.Authorization.{Permitted, require-Permitted}
use zhixu.Domain.Task.{Task, pending, completed, archived}
use zhixu.Domain.Task.Lifecycle.{Change, to_status, to_due, run, Kept, run-Kept}
use zhixu.Prelude.Int.{ℤ, pos, negsuc}
use zhixu.Domain.Leads.{normalise_lead_minutes, int_ltb}
use zhixu.Domain.Leads.Canonical.{Normal, SameSet, normalise_lead_minutes_canonical}
use zhixu.Domain.Briefing.{Anniversary, birthday, solar}
use zhixu.Calendar.{Date}
use zhixu.Calendar.{days_in_month, weekday}
use zhixu.Domain.Lunar.{LunarDate, check_lunar_date, to_solar, from_solar}
use zhixu.Domain.Lunar.Table.{years}
use zhixu.Domain.Lunar.Roundtrip.{from_solar-to_solar, to_solar-from_solar}
use zhixu.Domain.Business.{BusinessCalendar, monthly_business_day}
use zhixu.Domain.Business.Position.{Answers, monthly_business_day-Answers}

abbrev at : ℕ → DateTime
at t = record { instant = t; aware = true }

abbrev asking : CommandContext
asking = record {
  actor_user_id = "alice";
  roles = [];
  shared_owner_user_id = none;
  readable_shared_owner_user_ids = [];
  authentication = step_up;
  request_channel = private_chat;
  confirmed = false;
  now = some (at 5);
}

abbrev diary : ResourceRef
diary = record { kind = "note"; id = "n1"; owner_user_id = "alice"; classification = confidential }

abbrev minted : AuthorizedAction
minted = record { actor_user_id = "alice"; action = read; resource = diary; authorized_at = at 5 }

require-Permitted_example : Permitted no_grants asking read diary
unfolding require has_access
require-Permitted_example = require-Permitted no_grants asking read diary refl

abbrev errand : Task
errand = record {
  id = "t1";
  owner_user_id = "alice";
  title = "call the bank";
  creator_user_id = none;
  status = pending;
  priority = 2;
  due_at = none;
  description = "";
  classification = personal;
  version = 1;
  created_at = some (at 1);
  updated_at = some (at 1);
}

abbrev life : List Change
life = to_status completed (at 2) ∷ to_due (at 9) (at 3) ∷ to_status archived (at 4) ∷ []

run-Kept_example : Kept errand (run errand life)
run-Kept_example = run-Kept errand life

abbrev memo : Note
memo = record {
  id = "n1";
  owner_user_id = "alice";
  title = "Trip";
  body = "";
  category_path = "travel" ∷ [];
  content_blocks = [];
  creator_user_id = none;
  tags = "summer" ∷ "family" ∷ [];
  attachments = [];
  classification = personal;
  version = 1;
  created_at = some (at 1);
  updated_at = none;
}

check_note-Readable_example : Readable memo
unfolding check_note is_blank text_length
check_note-Readable_example = check_note-Readable memo refl

-- The fifteenth day of the leap month of 2001.
abbrev full_moon : LunarDate
full_moon = record { year = 2001; month = 4; day = 15; leap = true }

from_solar-to_solar_example : from_solar years 730642 ≡ ok full_moon
unfolding check_lunar_date to_solar years
from_solar-to_solar_example = from_solar-to_solar full_moon 730642 refl refl

to_solar-from_solar_example :
    (d : LunarDate) × (from_solar years 735000 ≡ ok d) × (to_solar years d false ≡ ok 735000)
to_solar-from_solar_example = to_solar-from_solar 735000 (omega arith) (omega arith)

abbrev one_holiday : BusinessCalendar
one_holiday = record {
  token = "HK";
  supported_years = 2026 ∷ [];
  holidays = record { year = 2026; month = 1; day = 1 } ∷ [];
}

-- The last business day of January 2026.
monthly_business_day-Answers_example :
    Answers one_holiday 2026 1 (negsuc 0) 31 (ok (record { year = 2026; month = 1; day = 30 }))
unfolding monthly_business_day days_in_month weekday
monthly_business_day-Answers_example = monthly_business_day-Answers one_holiday 2026 1 (negsuc 0)

abbrev given : List ℤ
given = pos 60 ∷ pos 1440 ∷ pos 0 ∷ pos 60 ∷ []

abbrev ordered : List ℤ
ordered = pos 1440 ∷ pos 60 ∷ pos 0 ∷ []

given-SameSet : SameSet given ordered
given-SameSet = record { there = λ v i. ground arith; back = λ v i. ground arith }

normalise_lead_minutes_canonical_example :
    Normal given ordered × (normalise_lead_minutes ordered ≡ ok ordered)
unfolding normalise_lead_minutes int_ltb
normalise_lead_minutes_canonical_example =
    normalise_lead_minutes_canonical given ordered ordered given-SameSet refl

-- A birthday on 29 February, a week before it is marked in a year without that day.
abbrev leapling : Anniversary
leapling = record {
  id = "a1";
  owner_user_id = "alice";
  creator_user_id = "alice";
  title = "Bo";
  anchor_date = record { year = 2000; month = 2; day = 29 };
  timezone = "Asia/Macau";
  kind = birthday;
  calendar = solar;
  lunar_month = none;
  lunar_day = none;
  lunar_leap = false;
  advance_days = 7 ∷ 3 ∷ 1 ∷ [];
  classification = personal;
  created_at = none;
}

abbrev today : Date
today = record { year = 2026; month = 2; day = 21 }
