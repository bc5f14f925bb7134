-- ===== src/Wa/Dispatch.antt =====
-- internal/wa/handler.go: Adapter, the dispatch of events, and a run of the handler over a
-- sequence.
use wachat.Prelude.{ℕ, String, Bool, Option, none, some, List, [], ◌∷◌}
use wachat.Store.Schema.{Sqlite}
use wachat.Wa.Proto.{Proto, MessageReceived, HistorySync, ReceiptType, MuteAction}
use wachat.Wa.Extract.{from_wm_message}
use wachat.Wa.Handler.{
  Handler, World, Failure, connected, disconnected, logged_out, on_message, apply_push_name,
  publish_state, emit_if, logged,
}
use wachat.Wa.Updates.{
  handle_protocol, on_receipt, handle_reaction, apply_pin, apply_archive, apply_mute,
  publish_chat_presence,
}
use wachat.Wa.History.{on_history_sync}

-- The events that the type switch knows; a nil action is `none`.
pub data Event (p : Proto) : Type 0 where
  message : MessageReceived p → Event p
  history_sync : Option (HistorySync p) → Event p
  push_name : String → String → Event p
  receipt : List String → ReceiptType → Event p
  pin : String → Option Bool → Event p
  mute : String → Option MuteAction → Event p
  archive : String → Option Bool → Event p
  chat_presence : String → String → Bool → Event p
  connected_event disconnected_event logged_out_event pair_success other_event : Event p

-- `err != nil && h.Logger != nil`
abbrev pub log_failure : Handler → Option Failure × World → World
log_failure h (none, w) = w
log_failure h (some f, w) = emit_if h.has_logger (logged f) w

module _ (p : Proto) (ds : ℕ → Sqlite) (write : String → List ℕ → Option String) (own_jid : String)
    (h : Handler) where
  unfoldable pub adapt_message : MessageReceived p → World → World
  unfolding from_wm_message
  adapt_message e w = elim e.protocol [
    | some pm ↦ handle_protocol p (ds 0) h pm w
    | none ↦ elim e.reaction [
      | some rm ↦ handle_reaction (ds 0) h e.info rm w
      | none ↦ log_failure h (on_message (ds 0) h (from_wm_message p write e) w)
    ]
  ]

  unfoldable pub adapter : Event p → World → World
  unfolding adapt_message
  adapter (message e) w = adapt_message e w
  adapter (history_sync data') w = log_failure h (on_history_sync p ds h data' own_jid w)
  adapter (push_name jid name) w = apply_push_name (ds 0) h jid name w
  adapter (receipt ids kind) w = on_receipt ds h ids kind w
  adapter (pin jid action) w = apply_pin (ds 0) h jid action w
  adapter (mute jid action) w = apply_mute (ds 0) h jid action w
  adapter (archive jid action) w = apply_archive (ds 0) h jid action w
  adapter (chat_presence chat sender composing) w = publish_chat_presence h chat sender composing w
  adapter connected_event w = publish_state h connected w
  adapter disconnected_event w = publish_state h disconnected w
  adapter logged_out_event w = publish_state h logged_out w
  adapter pair_success w = publish_state h connected w
  adapter other_event w = w

-- An event as whatsmeow delivers it, with what is asked for anew each time: how the driver answers
-- during the n-th method of the store that the event leads to, what writing a thumbnail gives, and
-- the JID of the account.
pub record Delivery (p : Proto) : Type 0 where
  pub drivers : ℕ → Sqlite
  pub write : String → List ℕ → Option String
  pub own_jid : String
  pub event : Event p

-- A sequence of events.
unfoldable pub adapt_all : (p : Proto) → Handler → List (Delivery p) → World → World
unfolding adapter
adapt_all p h [] w = w
adapt_all p h (e ∷ es) w = adapt_all p h es (adapter p e.drivers e.write e.own_jid h e.event w)
