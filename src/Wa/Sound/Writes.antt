-- ===== src/Wa/Sound/Writes.antt =====
-- Each handler of a single event, against the invariant of the database and its search index.
use wachat.Prelude.{
  suc, ℕ, inl, inr, String, Bool, true, false, not, ◌||◌, Option, none, some, List, [], ◌∷◌, ◌==◌,
  text_eq, nat_eq, if◌then◌else◌, Bool-cases, Option-cases,
}
use wachat.Store.Schema.{Sqlite}
use wachat.Store.Exec.{Result, ok, err, Exec}
use wachat.Store.Exec.Keeps.{Keeps}
use wachat.Store.Messages.{insert, upsert_chat, update_status}
use wachat.Store.Messages.Updates.{IsSound, message_updates-IsSound}
use wachat.Store.Sound.{
  insert-IsSound, upsert_chat-IsSound, set_reaction-IsSound, set_pinned-IsSound,
  set_archived-IsSound, set_mute_until-IsSound,
}
use wachat.Wa.Proto.{ReceiptType, Info, ReactionMessage, MuteAction}
use wachat.Wa.Extract.{MessageEvent}
use wachat.Wa.Handler.{
  Handler, World, Effect, notify, emit, emit_if, attempt, log_error, on_message, to_message,
  apply_push_name, publish_state, ConnectionState, logged, store_failed, typing, conn_state,
}
use wachat.Wa.Pipeline.{db-deliver}
use wachat.Wa.Updates.{
  target_id, receipt_status, update_each, on_receipt, handle_reaction, apply_pin, apply_archive,
  apply_mute, mute_until_ms, publish_chat_presence,
}

abbrev pub IsSoundIn : World → Type 0
IsSoundIn w = IsSound w.db

pub emit_if-IsSoundIn :
    (b : Bool) (e : Effect) (w : World) → IsSoundIn w → IsSoundIn (emit_if b e w)
emit_if-IsSoundIn true e w s = s
emit_if-IsSoundIn false e w s = s

log_error-IsSoundIn :
    {A : Type 0} (h : Handler) (r : Result A) (w : World)
    → IsSoundIn w
    → IsSoundIn (log_error h r w)
log_error-IsSoundIn h (ok a) w s = s
log_error-IsSoundIn h (err e) w s = emit_if-IsSoundIn h.has_logger (logged (store_failed e)) w s

-- A write that is attempted, its failure logged, and the view notified.
pub attempt-IsSoundIn :
    {A : Type 0} (h : Handler) (m : Exec A) (w : World)
    → Keeps IsSound m
    → IsSoundIn w
    → IsSoundIn (attempt h m w)
attempt-IsSoundIn h m w k s =
    log_error-IsSoundIn h (m w.db).0 (record w { db = (m w.db).1 }) (k.at w.db s)

pub notify-IsSoundIn : (h : Handler) (w : World) → IsSoundIn w → IsSoundIn (notify h w)
notify-IsSoundIn h w s = emit_if-IsSoundIn h.has_notify Effect.notified w s

pub written :
    {A : Type 0} (h : Handler) (m : Exec A) (w : World)
    → Keeps IsSound m
    → IsSoundIn w
    → IsSoundIn (notify h (attempt h m w))
written h m w k s = notify-IsSoundIn h (attempt h m w) (attempt-IsSoundIn h m w k s)

module _ (d : Sqlite) (h : Handler) where
  pub on_message-IsSoundIn :
      (ev : MessageEvent) (w : World) → IsSoundIn w → IsSoundIn (on_message d h ev w).1
  unfolding on_message
  on_message-IsSoundIn ev w s = elim (Bool-cases h.has_store) [
    | inl e ↦
        let done = insert d (to_message ev) (not ev.from_me) w.db in
        rw (e, db-deliver h ev done.0 (record w { db = done.1 }))
          ((insert-IsSound d (to_message ev) (not ev.from_me)).at w.db s)
    | inr e ↦ rw e s
  ]

  pub apply_push_name-IsSoundIn :
      (jid name : String) (w : World) → IsSoundIn w → IsSoundIn (apply_push_name d h jid name w)
  unfolding apply_push_name
  apply_push_name-IsSoundIn jid name w s =
      elim (Bool-cases (jid == "" || name == "" || not h.has_store)) [
        | inl e ↦ rw e s
        | inr e ↦ rw e (written h (upsert_chat d jid name) w (upsert_chat-IsSound d jid name) s)
      ]

  pub publish_state-IsSoundIn :
      (c : ConnectionState) (w : World) → IsSoundIn w → IsSoundIn (publish_state h c w)
  unfolding publish_state
  publish_state-IsSoundIn c w s = elim (Bool-cases h.has_conn_state) [
    | inl e ↦ rw e (notify-IsSoundIn h (emit (conn_state c) w) s)
    | inr e ↦ rw e s
  ]

  pub publish_chat_presence-IsSoundIn :
      (chat sender : String) (composing : Bool) (w : World)
      → IsSoundIn w
      → IsSoundIn (publish_chat_presence h chat sender composing w)
  unfolding publish_chat_presence
  publish_chat_presence-IsSoundIn chat sender composing w s = elim (Bool-cases h.has_typing) [
    | inl e ↦ rw e (notify-IsSoundIn h (emit (typing chat sender composing) w) s)
    | inr e ↦ rw e s
  ]

  update_one-IsSoundIn :
      (status id : String) (w : World)
      → IsSoundIn w
      → IsSoundIn (if id == "" then w else attempt h (update_status d id status) w)
  update_one-IsSoundIn status id w s = elim (Bool-cases (id == "")) [
    | inl e ↦ rw e s
    | inr e ↦
        let (starring, edit, revoking, updated) = message_updates-IsSound d id true "" status in
        rw e (attempt-IsSoundIn h _ w updated s)
  ]

  pub apply_pin-IsSoundIn :
      (jid : String) (action : Option Bool) (w : World)
      → IsSoundIn w
      → IsSoundIn (apply_pin d h jid action w)
  unfolding apply_pin
  apply_pin-IsSoundIn jid none w s = s
  apply_pin-IsSoundIn jid (some b) w s = elim (Bool-cases h.has_store) [
    | inl e ↦ rw e (written h _ w (set_pinned-IsSound d jid b) s)
    | inr e ↦ rw e s
  ]

  pub apply_archive-IsSoundIn :
      (jid : String) (action : Option Bool) (w : World)
      → IsSoundIn w
      → IsSoundIn (apply_archive d h jid action w)
  unfolding apply_archive
  apply_archive-IsSoundIn jid none w s = s
  apply_archive-IsSoundIn jid (some b) w s = elim (Bool-cases h.has_store) [
    | inl e ↦ rw e (written h _ w (set_archived-IsSound d jid b) s)
    | inr e ↦ rw e s
  ]

  pub apply_mute-IsSoundIn :
      (jid : String) (action : Option MuteAction) (w : World)
      → IsSoundIn w
      → IsSoundIn (apply_mute d h jid action w)
  unfolding apply_mute
  apply_mute-IsSoundIn jid none w s = s
  apply_mute-IsSoundIn jid (some a) w s = elim (Bool-cases h.has_store) [
    | inl e ↦ rw e (written h _ w (set_mute_until-IsSound d jid (mute_until_ms a)) s)
    | inr e ↦ rw e s
  ]

  pub handle_reaction-IsSoundIn :
      (info : Info) (rm : ReactionMessage) (w : World)
      → IsSoundIn w
      → IsSoundIn (handle_reaction d h info rm w)
  unfolding handle_reaction
  handle_reaction-IsSoundIn info rm w s = elim (Bool-cases h.has_store) [
    | inl e ↦ elim (Option-cases (target_id rm.key)) [
      | inl nothing ↦ rw (e, nothing) s
      | inr (target, named) ↦
          rw (e, named) (written h _ w (set_reaction-IsSound d target info.sender rm.text _) s)
    ]
    | inr e ↦ rw e s
  ]

if-IsSoundIn : (b : Bool) (u v : World) → IsSoundIn u → IsSoundIn v → IsSoundIn (if b then u else v)
if-IsSoundIn true u v h k = h
if-IsSoundIn false u v h k = k

module _ (h : Handler) where
  update_each-IsSoundIn :
      (ds : ℕ → Sqlite) (status : String) (ids : List String) (w : World)
      → IsSoundIn w
      → IsSoundIn (update_each ds h status ids w)
  unfolding update_each
  update_each-IsSoundIn ds status [] w s = s
  update_each-IsSoundIn ds status (id ∷ rest) w s =
      update_each-IsSoundIn (λ n. ds (suc n)) status rest _
        (update_one-IsSoundIn (ds 0) h status id w s)

  pub on_receipt-IsSoundIn :
      (ds : ℕ → Sqlite) (ids : List String) (kind : ReceiptType) (w : World)
      → IsSoundIn w
      → IsSoundIn (on_receipt ds h ids kind w)
  unfolding on_receipt
  on_receipt-IsSoundIn ds [] kind w s = s
  on_receipt-IsSoundIn ds (id ∷ rest) kind w s =
      let all = update_each-IsSoundIn ds (receipt_status kind) (id ∷ rest) w s in
      if-IsSoundIn (receipt_status kind == "") w _ s
        (if-IsSoundIn h.has_store _ w (notify-IsSoundIn h _ all) s)
