-- ===== src/Wa/History.antt =====
-- internal/wa/history.go: the first synchronisation, in bulk.
use wachat.Prelude.{
  ◌%◌, ◌^◌, suc, ℕ, ◌*◌, String, Bool, ◌||◌, Option, none, some, List, [], ◌∷◌, ◌++◌, ◌==◌, text_eq,
  find?, if◌then◌else◌,
}
use wachat.Prelude.Tables.{upsert_where, at_key}
use wachat.Store.Schema.{Message, Sqlite}
use wachat.Store.Exec.{ok, err}
use wachat.Store.Messages.{upsert_chat}
use wachat.Store.Batch.{insert_batch}
use wachat.Wa.Proto.{Proto, WebMessage, Conversation, Pushname, HistorySync}
use wachat.Wa.Extract.{extract_body, sender_from_key}
use wachat.Wa.Handler.{Handler, World, Failure, no_store, store_failed, notify, on_db}

pub record HistoryChat : Type 0 where
  pub jid : String
  pub name : String

-- The map of push names, as the list of its entries.
pub record PushName : Type 0 where
  pub jid : String
  pub name : String

pub record HistoryResult : Type 0 where
  pub chats : List HistoryChat
  pub messages : List Message
  pub push_names : List PushName

abbrev pub history_message : String → String → String → ℕ → String → Message
history_message wa_id chat sender ts body = record {
  id = 0;
  wa_id = wa_id;
  chat_jid = chat;
  sender_jid = sender;
  ts = ts;
  body = body;
  media_path = "";
  media_type = "";
  status = "";
  quoted_waid = "";
  quoted_body = "";
  quoted_sender = "";
  edited = Bool.false;
  revoked = Bool.false;
  link_url = "";
  link_title = "";
  link_desc = "";
  starred = Bool.false;
}

module _ (p : Proto) where
  unfoldable pub collect_push_names : List (Pushname p) → List PushName → List PushName
  collect_push_names [] names = names
  collect_push_names (pn ∷ rest) names = collect_push_names rest (
      if pn.id == "" || pn.pushname == ""
      then names
      else upsert_where (at_key (λ e. e.jid) pn.id) (record { jid = pn.id; name = pn.pushname })
          (λ e. record e { name = pn.pushname }) names)

  -- One message of a conversation; no message, no key and an empty id are skipped. The time is the
  -- 64 bits of `int64(timestamp) * 1000`, which are its value below 2^63.
  unfoldable pub convert_message : String → String → Option (WebMessage p) → List Message
  unfolding sender_from_key extract_body
  convert_message jid own_jid none = []
  convert_message jid own_jid (some wmi) = elim wmi.key [
    | none ↦ []
    | some key ↦
        if key.id == ""
        then []
        else history_message key.id jid (sender_from_key key jid own_jid)
            (wmi.timestamp * 1000 % 2 ^ 64) (extract_body p wmi.message)
          ∷ []
  ]

  unfoldable pub convert_messages : String → String → List (Option (WebMessage p)) → List Message
  unfolding convert_message
  convert_messages jid own_jid [] = []
  convert_messages jid own_jid (m ∷ ms) =
      convert_message jid own_jid m ++ convert_messages jid own_jid ms

  -- The chats and the messages of the conversations that have an id.
  unfoldable pub convert_conversations :
      String → List (Conversation p) → List HistoryChat × List Message
  unfolding convert_messages
  convert_conversations own_jid [] = ([], [])
  convert_conversations own_jid (c ∷ cs) =
      let (chats, messages) = convert_conversations own_jid cs in
      if c.id == "" then (chats, messages) else (
        record { jid = c.id; name = c.name } ∷ chats,
        convert_messages c.id own_jid c.messages ++ messages,
      )

  unfoldable pub from_wm_history_sync : Option (HistorySync p) → String → HistoryResult
  unfolding collect_push_names convert_conversations
  from_wm_history_sync none own_jid = record { chats = []; messages = []; push_names = [] }
  from_wm_history_sync (some data') own_jid =
      let (chats, messages) = convert_conversations own_jid data'.conversations in
      record {
        chats = chats;
        messages = messages;
        push_names = collect_push_names data'.pushnames [];
      }

  -- The name of the conversation, or the push name of its JID, or none.
  unfoldable pub chat_name : List PushName → HistoryChat → String
  chat_name names c =
      if c.name == ""
      then elim (find? (at_key (λ e. e.jid) c.jid) names) [ none ↦ "" | some e ↦ e.name ]
      else c.name

  -- The loop over the chats stops at the first error.
  unfoldable pub upsert_chats :
      (ℕ → Sqlite) → List PushName → List HistoryChat → World → Option Failure × World
  unfolding chat_name
  upsert_chats ds names [] w = (none, w)
  upsert_chats ds names (c ∷ cs) w =
      let rest = upsert_chats (λ n. ds (suc n)) names cs in
      let (r, w') = on_db (upsert_chat (ds 0) c.jid (chat_name names c)) w in
      if chat_name names c == ""
      then rest w
      else elim r [ ok u ↦ rest w' | err e ↦ (some (store_failed e), w') ]

  abbrev pub notify_if_done : Handler → Option Failure × World → Option Failure × World
  notify_if_done h (none, w) = (none, notify h w)
  notify_if_done h (some f, w) = (some f, w)

  unfoldable pub on_history_sync :
      (ℕ → Sqlite) → Handler → Option (HistorySync p) → String → World → Option Failure × World
  unfolding from_wm_history_sync upsert_chats
  on_history_sync ds h none own_jid w = (none, w)
  on_history_sync ds h (some data') own_jid w =
      let result = from_wm_history_sync (some data') own_jid in
      let (r, w') = on_db (insert_batch (ds 0) result.messages) w in
      if h.has_store
      then elim r [
        | ok n ↦ notify_if_done h (upsert_chats (λ n. ds (suc n)) result.push_names result.chats w')
        | err e ↦ (some (store_failed e), w')
      ]
      else (some no_store, w)
