-- ===== src/Wa/Updates.antt =====
-- internal/wa/protocol.go, receipts.go, reactions.go and chatstate.go: events that change what is
-- already stored.
use wachat.Prelude.{
  ℕ, suc, ◌*◌, String, Bool, Option, none, some, List, [], ◌∷◌, ◌==◌, text_eq, nat_eq,
  if◌then◌else◌,
}
use wachat.Prelude.Int.{ℤ, pos, negsuc}
use wachat.Store.Schema.{Sqlite}
use wachat.Store.Messages.{
  apply_edit, apply_revoke, update_status, status_delivered, status_read, status_played,
}
use wachat.Store.Reactions.{set_reaction}
use wachat.Store.ChatState.{set_pinned, set_archived, set_mute_until}
use wachat.Wa.Proto.{
  Proto, MessageKey, ProtocolMessage, revoke, message_edit, other_kind, ReceiptType, delivered,
  read, read_self, played, played_self, other_receipt, Info, ReactionMessage, MuteAction,
}
use wachat.Wa.Extract.{extract_body}
use wachat.Wa.Handler.{Handler, World, notify, attempt, emit, typing}

-- The id that a key names, where there is one.
abbrev pub target_id : Option MessageKey → Option String
target_id none = none
target_id (some k) = if k.id == "" then none else some k.id

unfoldable pub handle_protocol : (p : Proto) → Sqlite → Handler → ProtocolMessage p → World → World
unfolding extract_body
handle_protocol p d h pm w =
    if h.has_store
    then elim (target_id pm.key) [
      | none ↦ w
      | some wa_id ↦ elim pm.kind [
        | revoke ↦ notify h (attempt h (apply_revoke d wa_id) w)
        | message_edit ↦
            notify h (attempt h (apply_edit d wa_id (extract_body p pm.edited_message)) w)
        | other_kind ↦ w
      ]
    ]
    else w

-- "" for the kinds that change nothing.
unfoldable pub receipt_status : ReceiptType → String
receipt_status delivered = status_delivered
receipt_status read = status_read
receipt_status read_self = status_read
receipt_status played = status_played
receipt_status played_self = status_played
receipt_status other_receipt = ""

-- The loop over the message ids; the n-th call of the store has the n-th driver.
unfoldable pub update_each : (ℕ → Sqlite) → Handler → String → List String → World → World
update_each ds h status [] w = w
update_each ds h status (id ∷ rest) w =
    update_each (λ n. ds (suc n)) h status rest
      (if id == "" then w else attempt h (update_status (ds 0) id status) w)

unfoldable pub on_receipt : (ℕ → Sqlite) → Handler → List String → ReceiptType → World → World
unfolding update_each
on_receipt ds h [] kind w = w
on_receipt ds h (id ∷ rest) kind w =
    if receipt_status kind == ""
    then w
    else if h.has_store
    then notify h (update_each ds h (receipt_status kind) (id ∷ rest) w)
    else w

unfoldable pub handle_reaction : Sqlite → Handler → Info → ReactionMessage → World → World
handle_reaction d h info rm w =
    if h.has_store
    then elim (target_id rm.key) [
      | none ↦ w
      | some target ↦
          let ts =
            if rm.sender_timestamp_ms == 0 then info.timestamp_ms else rm.sender_timestamp_ms in
          notify h (attempt h (set_reaction d target info.sender rm.text ts) w)
    ]
    else w

unfoldable pub apply_pin : Sqlite → Handler → String → Option Bool → World → World
apply_pin d h jid none w = w
apply_pin d h jid (some pinned) w =
    if h.has_store then notify h (attempt h (set_pinned d jid pinned) w) else w

unfoldable pub apply_archive : Sqlite → Handler → String → Option Bool → World → World
apply_archive d h jid none w = w
apply_archive d h jid (some archived) w =
    if h.has_store then notify h (attempt h (set_archived d jid archived) w) else w

-- Milliseconds from the seconds of the action; -1 is for ever and 0 not muted.
unfoldable pub mute_until_ms : MuteAction → ℤ
mute_until_ms a =
    if a.muted
    then elim a.mute_end_timestamp [
      | negsuc n ↦ ℤ.negsuc 0
      | pos ts ↦ if ts == 0 then ℤ.negsuc 0 else ℤ.pos (ts * 1000)
    ]
    else ℤ.pos 0

unfoldable pub apply_mute : Sqlite → Handler → String → Option MuteAction → World → World
unfolding mute_until_ms
apply_mute d h jid none w = w
apply_mute d h jid (some a) w =
    if h.has_store then notify h (attempt h (set_mute_until d jid (mute_until_ms a)) w) else w

unfoldable pub publish_chat_presence : Handler → String → String → Bool → World → World
publish_chat_presence h chat sender composing w =
    if h.has_typing then notify h (emit (typing chat sender composing) w) else w
