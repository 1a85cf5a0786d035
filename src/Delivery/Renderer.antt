-- ===== src/Delivery/Renderer.antt =====
-- src/zhixu/delivery/renderer.py: a message as a channel can show it. The regular expressions are
-- written out as scanners that read a text once, from left to right.
pub mod Degrade
use zhixu.Prelude.{
  ℕ, zero, suc, ◌+◌, ◌-◌, ◌*◌, ◌/◌, ◌%◌, ◌≤◌, ◌<◌, max, String, ◌≡◌, refl, sym, ap, ◌∙◌, ◌≢◌, ◌⊎◌,
  inl, inr, Bool, true, false, not, ◌&&◌, ◌||◌, Option, none, some, List, [], ◌∷◌, ◌++◌, map, arith,
  eq_iff, ltb, leb, ◌==◌, if◌then◌else◌, ltb→lt, leb→le, Bool-cases, Option-cases, length, any, all,
  All, length-append, str_eq, codes, text_length, prefix, str_leb, str_mem, str_leb_total,
  str_leb_trans, str_leb_refl, str_eq_comm, str_eq_refl,
}
use zhixu.Prelude.Result.{
  Result-cases, Error, Result, ok, err, ◌>>=◌, ◌>>◌, raise_if, or_raise, >>=-eq-ok, >>-eq-ok,
  validation_error, not_found, conflict, concurrency_conflict, permission_denied,
  confirmation_required, classification_not_supported, invalid_transition, llm_unavailable,
  llm_budget_exceeded, invalid_model_output, value_error, key_error, permission_error,
  runtime_error, type_error, integrity_error, assertion_error,
}
use zhixu.Prelude.Text.{is_space, is_blank}
use Prim.Native.Char.{Char, code}
use Prim.Native.String.{◌++◌ as append}
use zhixu.Channels.{
  MessageKind, markdown, text, OutboundMessage, MessageButton, ChannelCapabilities, check_message,
  is_none,
}

-- Where a scanner of `(?m)^#{1,6}\s*` stands: at the start of a line, inside one, after a `#` with so
-- many more allowed, or in the white space after them, with whether a line has just ended.
pub data Place : Type 0 where
  line_start inside : Place
  hashes : ℕ → Place
  spaces : Bool → Place

abbrev after_char : ℕ → Place
after_char c = if c == 10 then line_start else inside

-- A character that starts no heading and continues none.
abbrev at_char : Bool → ℕ → Bool × Place
at_char starts c = if starts && (c == 35) then (false, hashes 5) else (true, after_char c)

-- White space after the `#`s of a heading goes with them.
abbrev at_space : Bool → ℕ → Bool × Place
at_space starts c = if is_space c then (false, spaces (c == 10)) else at_char starts c

-- Whether the character is kept, and where the scanner stands after it.
unfoldable pub scan : Place → ℕ → Bool × Place
unfolding is_space
scan line_start c = at_char true c
scan inside c = at_char false c
scan (hashes zero) c = at_space false c
scan (hashes (suc n)) c = if c == 35 then (false, hashes n) else at_space false c
scan (spaces ended) c = at_space ended c

-- `re.sub(r"(?m)^#{1,6}\s*", "", value)`
unfoldable pub drop_headings : Place → String → String
unfolding scan
drop_headings place String.[] = String.[]
drop_headings place (String.◌∷◌ c s) =
    let (keeps, next) = scan place (code c) in
    let rest = drop_headings next s in if keeps then String.◌∷◌ c rest else rest

-- The character at hand after one that is held: whether the pair goes, both stay, or the new one is held.
-- `text.replace("**", "")` for the character `*`, here the number `mark`.
unfoldable pub drop_pairs : ℕ → Option Char → String → String
drop_pairs mark none String.[] = String.[]
drop_pairs mark (some held) String.[] = String.◌∷◌ held String.[]
drop_pairs mark none (String.◌∷◌ c s) =
    let closing = drop_pairs mark (some c) s in
    let rest = drop_pairs mark none s in if code c == mark then closing else String.◌∷◌ c rest
drop_pairs mark (some held) (String.◌∷◌ c s) =
    let rest = drop_pairs mark none s in
    if code c == mark then rest else String.◌∷◌ held (String.◌∷◌ c rest)

-- The characters of the class ``[\\`*_{}\[\]()#+\-.!>|]``.
abbrev pub special : List ℕ
special = 92 ∷ 96 ∷ 42 ∷ 95 ∷ 123 ∷ 125 ∷ 91 ∷ 93 ∷ 40 ∷ 41 ∷ 35 ∷ 43 ∷ 45 ∷ 46 ∷ 33 ∷ 62 ∷ 124 ∷ []

-- `re.sub(r"\\([…])", r"\1", text)`: a backslash in front of a special character goes.
unfoldable pub unescape : Option Char → String → String
unescape none String.[] = String.[]
unescape (some held) String.[] = String.◌∷◌ held String.[]
unescape none (String.◌∷◌ c s) =
    let escaping = unescape (some c) s in
    let rest = unescape none s in if code c == 92 then escaping else String.◌∷◌ c rest
unescape (some held) (String.◌∷◌ c s) =
    let rest = unescape none s in
    if any (λ n. n == code c) special
    then String.◌∷◌ c rest
    else String.◌∷◌ held (String.◌∷◌ c rest)

-- `_plain_markdown`
unfoldable pub plain_markdown : String → String
unfolding drop_headings drop_pairs unescape
plain_markdown value =
    unescape none (drop_pairs 95 none (drop_pairs 42 none (drop_headings line_start value)))

unfoldable pub strip_left : String → String
unfolding is_space
strip_left String.[] = String.[]
strip_left (String.◌∷◌ c s) =
    let rest = strip_left s in if is_space (code c) then rest else String.◌∷◌ c s

unfoldable pub strip_right : String → String
unfolding is_blank
strip_right String.[] = String.[]
strip_right (String.◌∷◌ c s) =
    let rest = strip_right s in if is_blank (String.◌∷◌ c s) then String.[] else String.◌∷◌ c rest

-- `value.strip()`
unfoldable pub strip : String → String
unfolding strip_left strip_right
strip value = strip_right (strip_left value)

abbrev digit : ℕ → String
digit n =
    if n == 0
    then "0"
    else if n == 1
    then "1"
    else if n == 2
    then "2"
    else if n == 3
    then "3"
    else if n == 4
    then "4"
    else if n == 5
    then "5"
    else if n == 6
    then "6"
    else if n == 7
    then "7"
    else if n == 8
    then "8"
    else "9"

-- The decimal digits of a number; a number has no more of them than itself and one.
unfoldable pub decimal : ℕ → ℕ → String
decimal zero n = ""
decimal (suc fuel) n =
    let front = decimal fuel (n / 10) in if ltb n 10 then digit n else append front (digit (n % 10))

unfoldable pub choice : ℕ → MessageButton → String
unfolding decimal
choice index b =
    append (decimal (suc index) index) (append ". " (append b.label (append " — " b.action)))

-- `"\n".join(…)` of the choices, numbered from `index`.
unfoldable pub choices : ℕ → List MessageButton → String
unfolding choice
choices index [] = ""
choices index (b ∷ []) = choice index b
choices index (b ∷ (d ∷ bs)) = append (choice index b) (append "\n" (choices (index + 1) (d ∷ bs)))

abbrev pub is_markdown : MessageKind → Bool
is_markdown markdown = true
is_markdown _ = false

-- `if buttons`
abbrev pub is_empty {ℓ} : {A : Type ℓ} → List A → Bool
is_empty [] = true
is_empty (x ∷ xs) = false

-- `if attachment_url`: not None and not the empty text.
abbrev pub given_text : Option String → Bool
given_text none = false
given_text (some s) = not (str_eq s "")

abbrev pub url_of : Option String → String
url_of none = ""
url_of (some s) = s

unfoldable pub degrade_markdown : ChannelCapabilities → OutboundMessage → OutboundMessage
unfolding plain_markdown
degrade_markdown caps m =
    if is_markdown m.kind && not caps.markdown
    then record m { text = plain_markdown m.text; kind = text }
    else m

unfoldable pub degrade_buttons : ChannelCapabilities → OutboundMessage → OutboundMessage
unfolding choices strip
degrade_buttons caps m =
    if not (is_empty m.buttons) && not caps.buttons
    then record m {
      text = strip (append m.text (append "\n" (choices 1 m.buttons)));
      buttons = [];
      kind = text;
    }
    else m

unfoldable pub degrade_attachment : ChannelCapabilities → OutboundMessage → OutboundMessage
unfolding strip
degrade_attachment caps m =
    if given_text m.attachment_url && not caps.attachments
    then record m {
      text = strip (append m.text (append "\n附件：" (url_of m.attachment_url)));
      attachment_url = none;
      kind = text;
    }
    else m

unfoldable pub degrade_previews : ChannelCapabilities → OutboundMessage → OutboundMessage
degrade_previews caps m =
    if not caps.attachments
    then record m { calendar_preview = none; daily_agenda_preview = none }
    else m

unfoldable pub degrade : ChannelCapabilities → OutboundMessage → OutboundMessage
unfolding degrade_markdown degrade_buttons degrade_attachment degrade_previews
degrade caps m =
    degrade_previews caps (degrade_attachment caps (degrade_buttons caps (degrade_markdown caps m)))

-- `render_for_capabilities`: `replace` runs the checks of the constructor again.
unfoldable pub render_for_capabilities :
    OutboundMessage → ChannelCapabilities → Result OutboundMessage
unfolding degrade check_message
render_for_capabilities m caps = do
  raise_if (not caps.outbound_text) validation_error
  check_message (degrade caps m)
  ok (degrade caps m)
