-- ===== src/Channels.antt =====
-- src/zhixu/channels/contracts.py: what enters and leaves a channel, with the checks of the
-- constructors (`__post_init__`).
use zhixu.Prelude.{
  ℕ, String, Bool, true, false, not, ◌&&◌, ◌||◌, Option, none, some, List, [], ◌∷◌, ltb, leb, any,
  is_blank, text_length, str_mem,
}
use zhixu.Prelude.Result.{Result, ◌>>◌, raise_if, validation_error}
use zhixu.Calendar.{days_in_month, is_date}
use zhixu.Domain.Time.{DateTime, require_aware}
use zhixu.Domain.Classification.{DataClassification, confidential, level}

pub data MessageKind : Type 0 where
  text markdown button attachment voice : MessageKind

pub data ButtonActionKind : Type 0 where
  command open_url : ButtonActionKind

pub record ChannelCapabilities : Type 0 where
  pub inbound_text : Bool
  pub outbound_text : Bool
  pub markdown : Bool
  pub proactive_push : Bool
  pub buttons : Bool
  pub attachments : Bool
  pub voice : Bool
  pub groups : Bool

pub record MessageButton : Type 0 where
  pub label : String
  pub action : String
  pub kind : ButtonActionKind

-- `MessageButton.__post_init__`
unfoldable pub check_button : MessageButton → Result (Unit {0})
check_button b = raise_if (is_blank b.label || is_blank b.action) validation_error

pub record CalendarPreview : Type 0 where
  pub year : ℕ
  pub month : ℕ
  pub busy_day_counts : List (ℕ × ℕ)
  pub today_day : Option ℕ

abbrev some_outside : ℕ → ℕ → Option ℕ → Bool
some_outside lo hi none = false
some_outside lo hi (some n) = not (leb lo n && leb n hi)

-- `len(days) != len(set(days)) or days != sorted(days)` over the days: they do not rise strictly.
unfoldable pub not_rising : List (ℕ × ℕ) → Bool
not_rising [] = false
not_rising (p ∷ []) = false
not_rising (p ∷ (q ∷ r)) = not (ltb p.0 q.0) || not_rising (q ∷ r)

-- `CalendarPreview.__post_init__`
unfoldable pub check_calendar_preview : CalendarPreview → Result (Unit {0})
unfolding not_rising
check_calendar_preview p = do
  raise_if (not (leb 1970 p.year && leb p.year 2100) || not (leb 1 p.month && leb p.month 12))
      validation_error
  let maximum_day = days_in_month p.year p.month
  raise_if (some_outside 1 maximum_day p.today_day) validation_error
  raise_if
      (not_rising p.busy_day_counts
        || any
            (λ (q : ℕ × ℕ).
              not (leb 1 q.0 && leb q.0 maximum_day) || not (leb 1 q.1 && leb q.1 999))
            p.busy_day_counts)
      validation_error

pub record PreviewEntry : Type 0 where
  pub start : ℕ
  pub end : ℕ
  pub kind : String
  pub title : String

pub record DailyAgendaPreview : Type 0 where
  pub year : ℕ
  pub month : ℕ
  pub day : ℕ
  pub entries : List PreviewEntry
  pub anniversary_day_numbers : List ℕ

unfoldable pub bad_entry : PreviewEntry → Bool
bad_entry e =
    not (ltb e.start 1440)
    || (not (ltb e.start e.end && leb e.end 1440)
        || (not (str_mem e.kind ("agenda" ∷ "reminder" ∷ [])) || ltb 60 (text_length e.title)))

-- `DailyAgendaPreview.__post_init__`
unfoldable pub check_daily_agenda_preview : DailyAgendaPreview → Result (Unit {0})
check_daily_agenda_preview p = do
  raise_if (not (is_date (record { year = p.year; month = p.month; day = p.day }))) validation_error
  raise_if (any bad_entry p.entries) validation_error
  raise_if (any (λ n. ltb n 1) p.anniversary_day_numbers) validation_error

pub record OutboundMessage : Type 0 where
  pub channel : String
  pub channel_account : String
  pub target_ref : String
  pub kind : MessageKind
  pub text : String
  pub buttons : List MessageButton
  pub attachment_url : Option String
  pub reply_context_ref : String
  pub classification : DataClassification
  pub calendar_preview : Option CalendarPreview
  pub daily_agenda_preview : Option DailyAgendaPreview

abbrev pub is_none {ℓ} : {A : Type ℓ} → Option A → Bool
is_none none = true
is_none (some a) = false

-- `OutboundMessage.__post_init__`
unfoldable pub check_message : OutboundMessage → Result (Unit {0})
check_message m = do
  raise_if (is_blank m.channel || is_blank m.channel_account) validation_error
  raise_if (is_blank m.target_ref) validation_error
  raise_if
      (is_blank m.text
        && (is_none m.attachment_url
            && (is_none m.calendar_preview && is_none m.daily_agenda_preview)))
      validation_error
  raise_if (ltb 160 (text_length m.reply_context_ref)) validation_error
  raise_if (ltb (level confidential) (level m.classification)) validation_error

pub record ChannelDeliveryResult : Type 0 where
  pub ok : Bool
  pub retryable : Bool
  pub provider_code : String
  pub provider_message_id : String

pub data ConversationKind : Type 0 where
  private group channel : ConversationKind

-- `metadata` is kept as it came, a dictionary of any values, here of a type `A`.
pub record InboundEvent (A : Type 0) : Type 0 where
  pub event_id : String
  pub channel : String
  pub channel_account : String
  pub external_actor_ref : String
  pub external_conversation_ref : String
  pub conversation_kind : ConversationKind
  pub message_kind : MessageKind
  pub received_at : DateTime
  pub text : Option String
  pub metadata : A

-- `not (self.text or "").strip()`
abbrev blank_text : Option String → Bool
blank_text none = true
blank_text (some s) = is_blank s

abbrev is_text : MessageKind → Bool
is_text text = true
is_text _ = false

-- `InboundEvent.__post_init__`
unfoldable pub check_inbound : {A : Type 0} → InboundEvent A → Result (Unit {0})
unfolding require_aware
check_inbound e = do
  raise_if
      (any is_blank (
        e.event_id ∷ e.channel ∷ e.channel_account ∷ e.external_actor_ref
        ∷ e.external_conversation_ref ∷ []))
      validation_error
  require_aware e.received_at
  raise_if (is_text e.message_kind && blank_text e.text) validation_error
