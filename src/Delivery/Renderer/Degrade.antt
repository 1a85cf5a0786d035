-- ===== src/Delivery/Renderer/Degrade.antt =====
-- What `render_for_capabilities` of src/zhixu/delivery/renderer.py asks of a channel.
use zhixu.Prelude.{
  ◌≡◌, refl, sym, ap, ◌∙◌, inl, inr, Bool, true, false, not, ◌&&◌, none, arith, Bool-cases,
}
use zhixu.Prelude.Result.{Result, ok, err, ◌>>◌, raise_if, validation_error}
use zhixu.Channels.{OutboundMessage, ChannelCapabilities, check_message, is_none}
use zhixu.Delivery.Renderer.{
  is_markdown, is_empty, given_text, degrade_markdown, degrade_buttons, degrade_attachment,
  degrade_previews, degrade, render_for_capabilities,
}

-- The channel can show every part of the message.
pub record Fits (caps : ChannelCapabilities) (m : OutboundMessage) : Type 0 where
  pub kind_fits : is_markdown m.kind ≡ true → caps.markdown ≡ true
  pub buttons_fit : is_empty m.buttons ≡ false → caps.buttons ≡ true
  pub attachment_fits : given_text m.attachment_url ≡ true → caps.attachments ≡ true
  pub previews_fit :
      (is_none m.calendar_preview && is_none m.daily_agenda_preview) ≡ false
      → caps.attachments ≡ true

degrade-Fits : (caps : ChannelCapabilities) (m : OutboundMessage) → Fits caps (degrade caps m)
unfolding degrade degrade_markdown degrade_buttons degrade_attachment degrade_previews
degrade-Fits caps m = record {
  kind_fits = ground arith;
  buttons_fit = ground arith;
  attachment_fits = ground arith;
  previews_fit = ground arith;
}

module _ (caps : ChannelCapabilities) (m : OutboundMessage) (f : Fits caps m) where
  markdown-kept : degrade_markdown caps m ≡ m
  unfolding degrade_markdown
  markdown-kept =
      let fits : (is_markdown m.kind && not caps.markdown) ≡ false = ground (arith, f.kind_fits) in
      rw fits refl

  buttons-kept : degrade_buttons caps m ≡ m
  unfolding degrade_buttons
  buttons-kept =
      let fits : (not (is_empty m.buttons) && not caps.buttons) ≡ false =
        ground (arith, f.buttons_fit) in
      rw fits refl

  attachment-kept : degrade_attachment caps m ≡ m
  unfolding degrade_attachment
  attachment-kept =
      let fits : (given_text m.attachment_url && not caps.attachments) ≡ false =
        ground (arith, f.attachment_fits) in
      rw fits refl

  previews-kept : degrade_previews caps m ≡ m
  unfolding degrade_previews
  previews-kept = elim (Bool-cases caps.attachments) [
    | inl y ↦ rw y refl
    | inr n ↦
        let no_calendar : m.calendar_preview ≡ none = ground (arith, f.previews_fit) in
        let no_agenda : m.daily_agenda_preview ≡ none = ground (arith, f.previews_fit) in
        rw n (
          ap (λ z. record m { calendar_preview = z; daily_agenda_preview = none }) (sym no_calendar)
          ∙ ap (λ z. record m { daily_agenda_preview = z }) (sym no_agenda))
  ]

  degrade-kept : degrade caps m ≡ m
  unfolding degrade
  degrade-kept = rw (markdown-kept, buttons-kept, attachment-kept, previews-kept) refl

-- What a message keeps when it is rendered.
pub record Keeps (m r : OutboundMessage) : Type 0 where
  pub channel : r.channel ≡ m.channel
  pub account : r.channel_account ≡ m.channel_account
  pub target : r.target_ref ≡ m.target_ref
  pub reply : r.reply_context_ref ≡ m.reply_context_ref
  pub classification : r.classification ≡ m.classification

degrade-Keeps : (caps : ChannelCapabilities) (m : OutboundMessage) → Keeps m (degrade caps m)
unfolding degrade degrade_markdown degrade_buttons degrade_attachment degrade_previews
degrade-Keeps caps m = record {
  channel = ground arith;
  account = ground arith;
  target = ground arith;
  reply = ground arith;
  classification = ground arith;
}

-- A value behind a test and a check.
guarded :
    {A : Type 0} (refused : Bool) (check : Result (Unit {0})) (a b : A)
    → (raise_if refused validation_error >> (check >> ok a)) ≡ ok b
    → (refused ≡ false) × (check ≡ ok tt) × (b ≡ a)
guarded true check a b h = absurd (cc)
guarded false (err e) a b h = absurd (cc)
guarded false (ok tt) a b h = (refl, refl, cc)

render-result :
    (m r : OutboundMessage) (caps : ChannelCapabilities)
    → render_for_capabilities m caps ≡ ok r
    → (not caps.outbound_text ≡ false)
      × (check_message (degrade caps m) ≡ ok tt)
      × (r ≡ degrade caps m)
unfolding render_for_capabilities
render-result m r caps h =
    guarded (not caps.outbound_text) (check_message (degrade caps m)) (degrade caps m) r h

-- A message that is rendered has only parts that the channel can show, keeps its address, its reply
-- context and its classification, and does not change when it is rendered again.
pub render-stable :
    (m r : OutboundMessage) (caps : ChannelCapabilities)
    → render_for_capabilities m caps ≡ ok r
    → Fits caps r × Keeps m r × (render_for_capabilities r caps ≡ ok r)
unfolding render_for_capabilities
render-stable m r caps h =
    let (o, c, r_is) = render-result m r caps h in
    let fits : Fits caps r = rw r_is (degrade-Fits caps m) in
    let again = degrade-kept caps r fits in
    let checked : check_message r ≡ ok tt = rw r_is c in
    (fits, rw r_is (degrade-Keeps caps m), rw (again, o, checked) refl)
