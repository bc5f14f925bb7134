-- ===== src/Wa/Sound.antt =====
-- The database under any sequence of events.
mod Writes
use wachat.Prelude.{
  suc, ℕ, ◌≡◌, refl, sym, inl, inr, String, Bool, true, false, not, ◌||◌, Option, none, some, List,
  [], ◌∷◌, ◌==◌, text_eq, nat_eq, if◌then◌else◌, Bool-cases, Option-cases, arith,
}
use wachat.Store.Schema.{Db, Sqlite}
use wachat.Store.Exec.{Result, ok, err, Exec, Result-cases}
use wachat.Store.Exec.Keeps.{Keeps}
use wachat.Store.Messages.{insert, upsert_chat, update_status, apply_revoke, apply_edit}
use wachat.Store.Messages.Updates.{IsSound, message_updates-IsSound}
use wachat.Store.Batch.{insert_batch}
use wachat.Store.Batch.Atomic.{insert_batch-IsSound}
use wachat.Store.Sound.{
  insert-IsSound, upsert_chat-IsSound, set_reaction-IsSound, set_pinned-IsSound,
  set_archived-IsSound, set_mute_until-IsSound,
}
use wachat.Wa.Proto.{
  Proto, ProtocolMessage, ProtocolKind, revoke, message_edit, other_kind, ReceiptType, Info,
  ReactionMessage, MuteAction, MessageReceived, HistorySync,
}
use wachat.Wa.Extract.{MessageEvent, from_wm_message, extract_body}
use wachat.Wa.Handler.{
  Handler, World, Effect, Failure, notify, emit, emit_if, on_db, attempt, log_error, deliver,
  on_message, to_message, apply_push_name, publish_state, ConnectionState, logged, no_store,
  store_failed, typing, conn_state,
}
use wachat.Wa.Pipeline.{db-deliver}
use wachat.Wa.Updates.{
  target_id, handle_protocol, receipt_status, update_each, on_receipt, handle_reaction, apply_pin,
  apply_archive, apply_mute, mute_until_ms, publish_chat_presence,
}
use wachat.Wa.History.{
  HistoryChat, PushName, chat_name, upsert_chats, notify_if_done, from_wm_history_sync,
  on_history_sync,
}
use wachat.Wa.Dispatch.{
  Event, message, history_sync, push_name, receipt, pin, mute, archive, chat_presence,
  connected_event, disconnected_event, logged_out_event, pair_success, other_event, log_failure,
  adapt_message, adapter, Delivery, adapt_all,
}
use wachat.Wa.Sound.Writes.{
  IsSoundIn, emit_if-IsSoundIn, attempt-IsSoundIn, notify-IsSoundIn, written, on_message-IsSoundIn,
  apply_push_name-IsSoundIn, publish_state-IsSoundIn, publish_chat_presence-IsSoundIn,
  on_receipt-IsSoundIn, apply_pin-IsSoundIn, apply_archive-IsSoundIn, apply_mute-IsSoundIn,
  handle_reaction-IsSoundIn,
}

module _ (p : Proto) (d : Sqlite) (h : Handler) where
  handle_kind-IsSoundIn :
      (kind : ProtocolKind) (id new_body : String) (w : World)
      → IsSoundIn w
      → IsSoundIn (elim kind [
        | revoke ↦ notify h (attempt h (apply_revoke d id) w)
        | message_edit ↦ notify h (attempt h (apply_edit d id new_body) w)
        | other_kind ↦ w
      ])
  handle_kind-IsSoundIn revoke id new_body w s =
      let (starring, edit, revoking, updated) = message_updates-IsSound d id true new_body "" in
      written h (apply_revoke d id) w revoking s
  handle_kind-IsSoundIn message_edit id new_body w s =
      let (starring, edit, revoking, updated) = message_updates-IsSound d id true new_body "" in
      written h (apply_edit d id new_body) w edit s
  handle_kind-IsSoundIn other_kind id new_body w s = s

  handle_protocol-IsSoundIn :
      (pm : ProtocolMessage p) (w : World) → IsSoundIn w → IsSoundIn (handle_protocol p d h pm w)
  unfolding handle_protocol
  handle_protocol-IsSoundIn pm w s = elim (Bool-cases h.has_store) [
    | inl e ↦ elim (Option-cases (target_id pm.key)) [
      | inl nothing ↦ rw (e, nothing) s
      | inr (id, named) ↦
          rw (e, named) (handle_kind-IsSoundIn pm.kind id (extract_body p pm.edited_message) w s)
    ]
    | inr e ↦ rw e s
  ]

  upsert_chats-IsSoundIn :
      (ds : ℕ → Sqlite) (names : List PushName) (cs : List HistoryChat) (w : World)
      → IsSoundIn w
      → IsSoundIn (upsert_chats p ds names cs w).1
  unfolding upsert_chats
  upsert_chats-IsSoundIn ds names [] w s = s
  upsert_chats-IsSoundIn ds names (c ∷ cs) w s =
      let jid = c.jid in
      let name = chat_name p names c in
      let kept = (upsert_chat-IsSound (ds 0) jid name).at w.db s in
      elim (Bool-cases (name == "")) [
        | inl e ↦ rw e (upsert_chats-IsSoundIn (λ n. ds (suc n)) names cs w s)
        | inr e ↦ elim (Result-cases (upsert_chat (ds 0) jid name w.db).0) [
          | inl (u, done) ↦ rw (e, done) (upsert_chats-IsSoundIn (λ n. ds (suc n)) names cs _ kept)
          | inr (x, failed) ↦ rw (e, failed) kept
        ]
      ]

  notify_if_done-IsSoundIn :
      (r : Option Failure × World) → IsSoundIn r.1 → IsSoundIn (notify_if_done p h r).1
  notify_if_done-IsSoundIn (none, w) s = notify-IsSoundIn h w s
  notify_if_done-IsSoundIn (some f, w) s = s

  on_history_sync-IsSoundIn :
      (ds : ℕ → Sqlite) (sync : Option (HistorySync p)) (own_jid : String) (w : World)
      → IsSoundIn w
      → IsSoundIn (on_history_sync p ds h sync own_jid w).1
  unfolding on_history_sync
  on_history_sync-IsSoundIn ds none own_jid w s = s
  on_history_sync-IsSoundIn ds (some sync) own_jid w s =
      let result = from_wm_history_sync p (some sync) own_jid in
      let kept = (insert_batch-IsSound (ds 0) result.messages).at w.db s in
      elim (Bool-cases h.has_store) [
        | inl e ↦ elim (Result-cases (insert_batch (ds 0) result.messages w.db).0) [
          | inl (n, done) ↦
              rw (e, done)
                (notify_if_done-IsSoundIn _
                  (upsert_chats-IsSoundIn (λ n. ds (suc n)) result.push_names result.chats _ kept))
          | inr (x, failed) ↦ rw (e, failed) kept
        ]
        | inr e ↦ rw e s
      ]

  log_failure-IsSoundIn : (r : Option Failure × World) → IsSoundIn r.1 → IsSoundIn (log_failure h r)
  log_failure-IsSoundIn (none, w) s = s
  log_failure-IsSoundIn (some f, w) s = emit_if-IsSoundIn h.has_logger (logged f) w s

module _ (p : Proto) (ds : ℕ → Sqlite) (write : String → List ℕ → Option String) (own_jid : String)
    (h : Handler) where
  adapt_message-IsSoundIn :
      (e : MessageReceived p) (w : World)
      → IsSoundIn w
      → IsSoundIn (adapt_message p ds write own_jid h e w)
  unfolding adapt_message
  adapt_message-IsSoundIn e w s = elim (Option-cases e.protocol) [
    | inr (pm, x) ↦ rw x (handle_protocol-IsSoundIn p (ds 0) h pm w s)
    | inl x ↦ elim (Option-cases e.reaction) [
      | inr (rm, y) ↦ rw (x, y) (handle_reaction-IsSoundIn (ds 0) h e.info rm w s)
      | inl y ↦
          rw (x, y)
            (log_failure-IsSoundIn p (ds 0) h _
              (on_message-IsSoundIn (ds 0) h (from_wm_message p write e) w s))
    ]
  ]

  adapter-IsSoundIn :
      (e : Event p) (w : World) → IsSoundIn w → IsSoundIn (adapter p ds write own_jid h e w)
  unfolding adapter
  adapter-IsSoundIn (message e) w s = adapt_message-IsSoundIn e w s
  adapter-IsSoundIn (history_sync sync) w s =
      log_failure-IsSoundIn p (ds 0) h _ (on_history_sync-IsSoundIn p (ds 0) h ds sync own_jid w s)
  adapter-IsSoundIn (push_name jid name) w s = apply_push_name-IsSoundIn (ds 0) h jid name w s
  adapter-IsSoundIn (receipt ids kind) w s = on_receipt-IsSoundIn h ds ids kind w s
  adapter-IsSoundIn (pin jid action) w s = apply_pin-IsSoundIn (ds 0) h jid action w s
  adapter-IsSoundIn (mute jid action) w s = apply_mute-IsSoundIn (ds 0) h jid action w s
  adapter-IsSoundIn (archive jid action) w s = apply_archive-IsSoundIn (ds 0) h jid action w s
  adapter-IsSoundIn (chat_presence chat sender composing) w s =
      publish_chat_presence-IsSoundIn (ds 0) h chat sender composing w s
  adapter-IsSoundIn connected_event w s = publish_state-IsSoundIn (ds 0) h _ w s
  adapter-IsSoundIn disconnected_event w s = publish_state-IsSoundIn (ds 0) h _ w s
  adapter-IsSoundIn logged_out_event w s = publish_state-IsSoundIn (ds 0) h _ w s
  adapter-IsSoundIn pair_success w s = publish_state-IsSoundIn (ds 0) h _ w s
  adapter-IsSoundIn other_event w s = s

-- Whatever events whatsmeow delivers, in whatever order and however often, and whatever fails in the
-- driver on the way, which may answer differently at each event
-- and at each method of the store within an event: from a database in this state,
-- rowids stay ascending, message ids unique, every message covered by a chat row whose `last_ts` is
-- no earlier, and the search index in step with the messages.
pub adapt_all-IsSound :
    (p : Proto) (h : Handler) (events : List (Delivery p)) (w : World)
    → IsSound w.db
    → IsSound (adapt_all p h events w).db
unfolding adapt_all
adapt_all-IsSound p h [] w s = s
adapt_all-IsSound p h (e ∷ es) w s =
    adapt_all-IsSound p h es (adapter p e.drivers e.write e.own_jid h e.event w)
      (adapter-IsSoundIn p e.drivers e.write e.own_jid h e.event w s)
