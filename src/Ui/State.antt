-- ===== src/Ui/State.antt =====
-- internal/ui/state.go: the view-model and its reducer. A method that fails leaves the state as it
-- is.
pub mod Muted
pub mod Typing
pub mod ChatList
pub mod Incoming
pub mod Window
pub mod Search
pub mod Reads
use wachat.Prelude.{
  ℕ, ◌+◌, String, Bool, true, false, not, ◌&&◌, ◌||◌, Option, none, some, List, [], ◌∷◌, ◌++◌, map,
  ◌==◌, text_eq, nat_eq, ltb, find?, filter, length, if◌then◌else◌,
}
use wachat.Prelude.Int.{ℤ, pos, negsuc}
use wachat.Prelude.Sort.{sort_by}
use wachat.Prelude.Tables.{upsert_where, at_key}
use wachat.Store.Schema.{Message, ChatRow, Db, Sqlite, query, rows_end, scan_chat}
use wachat.Store.Exec.{
  Exec, Result, ok, err, chat_jid, wa_id, pure, gets, call, refuse_if, ◌>>=◌, ◌>>◌,
}
use wachat.Store.Messages.{insert, mark_read, status_pending}
use wachat.Store.Paging.{Cursor, zero_cursor, is_zero, page_older, page_around}
use wachat.Store.Reactions.{Group, reactions_for_chat}
use wachat.Wa.Extract.{MessageEvent}

pub record ChatSummary : Type 0 where
  pub jid : String
  pub name : String
  pub last_ts : ℕ
  pub unread : ℕ
  pub pinned : Bool
  pub archived : Bool
  pub mute_until : ℤ

unfoldable pub is_muted : ChatSummary → ℕ → Bool
is_muted c now_ms = elim c.mute_until [ negsuc n ↦ n == 0 | pos until ↦ ltb now_ms until ]

abbrev pub page_size : ℕ
page_size = 50

abbrev pub typing_ttl : ℕ
typing_ttl = 10000

pub record TypingEntry : Type 0 where
  pub sender_jid : String
  pub until_ms : ℕ

-- An entry of the map `Typing`.
pub record TypingChat : Type 0 where
  pub chat_jid : String
  pub entries : List TypingEntry

-- `loaded` is `Messages != nil`. The search results are not part of this record.
pub record State : Type 0 where
  pub own_jid : String
  pub chats : List ChatSummary
  pub selected_chat : String
  pub loaded : Bool
  pub messages : List Message
  pub cursor : Cursor
  pub reactions : Option (List Group)
  pub typing : List TypingChat

abbrev pub entries_of : String → List TypingChat → List TypingEntry
entries_of chat ts = elim (find? (at_key (λ t. t.chat_jid) chat) ts) [
  | none ↦ []
  | some t ↦ t.entries
]

-- `st.Typing[chatJID] = kept`, and `delete(st.Typing, chatJID)`.
abbrev pub put_entries : String → List TypingEntry → List TypingChat → List TypingChat
put_entries chat [] ts = filter (λ t. not (at_key (λ u. u.chat_jid) chat t)) ts
put_entries chat (e ∷ es) ts =
    upsert_where (at_key (λ t. t.chat_jid) chat) (record { chat_jid = chat; entries = e ∷ es })
      (λ t. record t { entries = e ∷ es }) ts

unfoldable pub keep_others : String → ℕ → List TypingEntry → List TypingEntry
keep_others sender now_ms [] = []
keep_others sender now_ms (e ∷ es) =
    let rest = keep_others sender now_ms es in
    if e.sender_jid == sender then rest else if ltb now_ms e.until_ms then e ∷ rest else rest

abbrev pub typed_until : String → Bool → ℕ → List TypingEntry
typed_until sender composing now_ms =
    if composing then record { sender_jid = sender; until_ms = now_ms + typing_ttl } ∷ [] else []

unfoldable pub set_typing : String → String → Bool → ℕ → State → State
unfolding keep_others
set_typing chat sender composing now_ms st = if chat == "" || sender == "" then st else record st {
  typing =
      put_entries chat
        (keep_others sender now_ms (entries_of chat st.typing)
          ++ typed_until sender composing now_ms)
        st.typing;
}

unfoldable pub active_typers : String → ℕ → State → List TypingEntry
active_typers chat now_ms st = filter (λ e. ltb now_ms e.until_ms) (entries_of chat st.typing)

abbrev zero_or : Option ℕ → ℕ
zero_or none = 0
zero_or (some ts) = ts

unfoldable pub to_summary : ChatRow → ChatSummary
to_summary c = record {
  jid = c.jid;
  name = c.name;
  last_ts = zero_or c.last_ts;
  unread = c.unread;
  pinned = not (c.pinned == 0);
  archived = not (c.archived == 0);
  mute_until = c.mute_until;
}

-- Pinned chats first; within each group, the newer time first.
unfoldable pub pinned_first : ChatSummary → ChatSummary → Bool
pinned_first a b =
    if a.pinned && not b.pinned
    then true
    else if not a.pinned && b.pinned
    then false
    else ltb b.last_ts a.last_ts

unfoldable pub scan_chats : Sqlite → List ChatRow → Exec (List ChatSummary)
unfolding to_summary
scan_chats d [] = do call d rows_end; pure []
scan_chats d (c ∷ cs) = do
  call d (scan_chat c.jid)
  rest ← scan_chats d cs
  pure (to_summary c ∷ rest)

unfoldable pub load_chats : Sqlite → State → Exec State
unfolding scan_chats pinned_first
load_chats d st = do
  call d query
  rows ← gets (λ db. filter (λ c. c.archived == 0) db.chats)
  out ← scan_chats d rows
  pure (record st { chats = sort_by pinned_first out })

-- An error of the query leaves the old reactions.
abbrev ignore_error : {A : Type 0} → A → Exec A → Exec A
ignore_error old m db = let (r, db') = m db in (ok (elim r [ ok a ↦ a | err e ↦ old ]), db')

unfoldable pub reload_reactions : Sqlite → State → Exec State
reload_reactions d st = elim st.messages [
  | [] ↦ pure (record st { reactions = none })
  | m ∷ ms ↦ do
    groups ←
        ignore_error st.reactions
          (reactions_for_chat d (filter (λ w. not (w == "")) (map (λ m. m.wa_id) (m ∷ ms))))
    pure (record st { reactions = groups })
]

abbrev pub show_page : String → List Message × Cursor → State → State
show_page jid (msgs, next) st = record st {
  selected_chat = jid;
  loaded = true;
  messages = msgs;
  cursor = next;
}

unfoldable pub select_chat : Sqlite → String → State → Exec State
unfolding reload_reactions
select_chat d jid st = do
  refuse_if (jid == "") chat_jid
  if jid == st.selected_chat && st.loaded then pure st else (do
    page ← page_older d jid zero_cursor (pos page_size)
    reload_reactions d (show_page jid page st))

abbrev pub is_empty : List Message → Bool
is_empty [] = true
is_empty (m ∷ ms) = false

-- The count is the number of messages appended.
unfoldable pub load_older : Sqlite → State → Exec (ℕ × State)
unfolding reload_reactions
load_older d st = do
  refuse_if (st.selected_chat == "") chat_jid
  if is_zero st.cursor && not (is_empty st.messages)
      then pure (0, st)
      else if is_zero st.cursor
      then (do
        page ← page_older d st.selected_chat zero_cursor (pos page_size)
        pure (length page.0, show_page st.selected_chat page st))
      else (do
        (msgs, next) ← page_older d st.selected_chat st.cursor (pos page_size)
        st' ←
            reload_reactions d
              (record st { loaded = true; messages = st.messages ++ msgs; cursor = next })
        pure (length msgs, st'))

unfoldable pub bump_summary : MessageEvent → ChatSummary → ChatSummary
bump_summary ev c = record c {
  last_ts = if ltb c.last_ts ev.ts then ev.ts else c.last_ts;
  unread = if ev.from_me then c.unread else c.unread + 1;
}

unfoldable pub upsert_chat_summary : MessageEvent → List ChatSummary → List ChatSummary
unfolding bump_summary
upsert_chat_summary ev [] =
    record {
      jid = ev.chat_jid;
      name = "";
      last_ts = ev.ts;
      unread = if ev.from_me then 0 else 1;
      pinned = false;
      archived = false;
      mute_until = pos 0;
    }
    ∷ []
upsert_chat_summary ev (c ∷ cs) =
    let rest = upsert_chat_summary ev cs in
    if c.jid == ev.chat_jid then bump_summary ev c ∷ cs else c ∷ rest

unfoldable pub newer_first : ChatSummary → ChatSummary → Bool
newer_first a b = ltb b.last_ts a.last_ts

-- The message that the reducer shows: the fields of the event that it copies.
unfoldable pub bubble : MessageEvent → Message
bubble ev = record {
  id = 0;
  wa_id = ev.wa_id;
  chat_jid = ev.chat_jid;
  sender_jid = ev.sender_jid;
  ts = ev.ts;
  body = ev.body;
  media_path = "";
  media_type = "";
  status = "";
  quoted_waid = "";
  quoted_body = "";
  quoted_sender = "";
  edited = false;
  revoked = false;
  link_url = "";
  link_title = "";
  link_desc = "";
  starred = false;
}

-- The first message with the id is replaced; `none` is that there is no such message.
unfoldable pub replace_message : Message → List Message → Option (List Message)
replace_message m [] = none
replace_message m (x ∷ xs) =
    let rest = replace_message m xs in
    if x.wa_id == m.wa_id
    then some (m ∷ xs)
    else elim rest [ none ↦ none | some ys ↦ some (x ∷ ys) ]

unfoldable pub fold_message : Message → List Message → List Message
unfolding replace_message
fold_message m xs = elim (replace_message m xs) [ none ↦ m ∷ xs | some ys ↦ ys ]

unfoldable pub on_incoming : MessageEvent → State → State
unfolding upsert_chat_summary newer_first bubble fold_message
on_incoming ev st =
    let chats = sort_by newer_first (upsert_chat_summary ev st.chats) in
    if ev.chat_jid == st.selected_chat
    then record st { chats = chats; loaded = true; messages = fold_message (bubble ev) st.messages }
    else record st { chats = chats }

-- A window around a message of a chat.
unfoldable pub jump_to_message : Sqlite → String → ℕ → State → Exec State
unfolding reload_reactions
jump_to_message d chat message_id st = do
  refuse_if (chat == "") chat_jid
  page ← page_around d chat message_id (pos 25) (pos 25)
  reload_reactions d (show_page chat page st)

abbrev pub sent_event : String → String → String → ℕ → MessageEvent
sent_event w chat body ts = record {
  wa_id = w;
  chat_jid = chat;
  sender_jid = "";
  ts = ts;
  body = body;
  from_me = true;
  quoted_waid = "";
  quoted_body = "";
  quoted_sender = "";
  media_path = "";
  media_type = "";
  duration_secs = 0;
  file_size = 0;
  file_name = "";
  link_url = "";
  link_title = "";
  link_desc = "";
}

-- `if len(st.Messages) > 0 && st.Messages[0].WAID == waID`
abbrev pub mark_pending : String → List Message → List Message
mark_pending w [] = []
mark_pending w (m ∷ ms) = if m.wa_id == w then record m { status = status_pending } ∷ ms else m ∷ ms

-- The row that a send stores: `store.Message{WAID, ChatJID, SenderJID: "", TS, Body, Status}`.
unfoldable pub outgoing : String → String → String → ℕ → Message
outgoing w chat body ts = record {
  id = 0;
  wa_id = w;
  chat_jid = chat;
  sender_jid = "";
  ts = ts;
  body = body;
  media_path = "";
  media_type = "";
  status = status_pending;
  quoted_waid = "";
  quoted_body = "";
  quoted_sender = "";
  edited = false;
  revoked = false;
  link_url = "";
  link_title = "";
  link_desc = "";
  starred = false;
}

unfoldable pub add_optimistic : Sqlite → String → String → String → ℕ → State → Exec State
unfolding on_incoming outgoing
add_optimistic d w chat body ts st = do
  refuse_if (chat == "") chat_jid
  refuse_if (w == "") wa_id
  created ← insert d (outgoing w chat body ts) false
  let next = on_incoming (sent_event w chat body ts) st
  pure (record next { messages = mark_pending w next.messages })

unfoldable pub name_for : String → State → String
name_for jid st = elim (find? (at_key (λ c. c.jid) jid) st.chats) [ none ↦ "" | some c ↦ c.name ]

-- The first row of the chat.
unfoldable pub clear_unread : String → List ChatSummary → List ChatSummary
clear_unread jid [] = []
clear_unread jid (c ∷ cs) =
    let rest = clear_unread jid cs in
    if c.jid == jid then record c { unread = 0 } ∷ cs else c ∷ rest

unfoldable pub mark_selected_read : Sqlite → State → Exec State
unfolding clear_unread
mark_selected_read d st = if st.selected_chat == "" then pure st else (do
  mark_read d st.selected_chat
  pure (record st { chats = clear_unread st.selected_chat st.chats }))
