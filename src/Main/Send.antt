-- ===== src/Main/Send.antt =====
-- A message that is sent: first a pending bubble and a pending row, then a row that was accepted.
use wachat.Prelude.{
  ℕ, String, ◌≡◌, ◌≢◌, refl, true, false, some, none, any, ◌==◌, text_eq, text_iff, beq_ne,
  beq_self, arith, List, [], ◌∷◌,
}
use wachat.Prelude.Tables.{at_key}
use wachat.Store.Schema.{Message, MessageRow, Db, Sqlite, find_message}
use wachat.Store.Exec.{ok, Succeeds}
use wachat.Store.Messages.{insert, insert_row, status_sent, status_or_sent}
use wachat.Store.Messages.Insert.{after_insert}
use wachat.Store.Messages.Effect.{is_stored, insert_succeeds, insert-reads_back}
use wachat.Store.Messages.Updates.{find_message-update_status}
use wachat.Store.Paging.{scan_message}
use wachat.Ui.State.{
  State, add_optimistic, on_incoming, outgoing, bubble, sent_event, mark_pending, fold_message,
  replace_message,
}
use wachat.Main.{on_send, on_accepted}

-- A message of the user that the server has not accepted: the id, chat, text and time given, no
-- sender, the status "pending", and nothing else.
abbrev pub pending : String → String → String → ℕ → Message
pending w chat body ts = record {
  id = 0;
  wa_id = w;
  chat_jid = chat;
  sender_jid = "";
  ts = ts;
  body = body;
  media_path = "";
  media_type = "";
  status = "pending";
  quoted_waid = "";
  quoted_body = "";
  quoted_sender = "";
  edited = false;
  revoked = false;
  link_url = "";
  link_title = "";
  link_desc = "";
  starred = false;
}

-- The view-model after a send.
abbrev pub after_send : String → String → String → ℕ → State → State
after_send w chat body ts st = record (on_incoming (sent_event w chat body ts) st) {
  messages = mark_pending w (on_incoming (sent_event w chat body ts) st).messages;
}

module _ (d : Sqlite) (s : Succeeds d) (w chat body : String) (named : w ≢ "") (placed : chat ≢ "")
    (ts : ℕ) (st : State) (db : Db) where
  stored_first : insert d (pending w chat body ts) false db ≡ (
    ok (insert_row d (pending w chat body ts) db).0,
    after_insert d (pending w chat body ts) false db,
  )
  stored_first = insert_succeeds d s (pending w chat body ts) named placed false db

  add_optimistic_succeeds :
      add_optimistic d w chat body ts st db
      ≡ (ok (after_send w chat body ts st), (insert d (pending w chat body ts) false db).1)
  unfolding add_optimistic outgoing
  add_optimistic_succeeds = rw (beq_ne chat "" placed, beq_ne w "" named, stored_first) refl

replace_message_fresh :
    (m : Message) (xs : List Message)
    → any (at_key (λ x. x.wa_id) m.wa_id) xs ≡ false
    → replace_message m xs ≡ none
unfolding replace_message any
replace_message_fresh m [] fresh = refl
replace_message_fresh m (x ∷ xs) fresh =
    ground (arith, replace_message_fresh m xs, text_iff x.wa_id m.wa_id)

fold_message_fresh :
    (m : Message) (xs : List Message)
    → any (at_key (λ x. x.wa_id) m.wa_id) xs ≡ false
    → fold_message m xs ≡ m ∷ xs
unfolding fold_message
fold_message_fresh m xs fresh = rw (replace_message_fresh m xs fresh, fold_message) refl

messages-on_incoming :
    (w chat body : String) (ts : ℕ) (st : State)
    → chat ≡ st.selected_chat
    → any (at_key (λ x. x.wa_id) w) st.messages ≡ false
    → (on_incoming (sent_event w chat body ts) st).messages
      ≡ bubble (sent_event w chat body ts) ∷ st.messages
unfolding on_incoming bubble
messages-on_incoming w chat body ts st here fresh =
    let shown : (chat == st.selected_chat) ≡ true = rw here (beq_self st.selected_chat) in
    rw (shown, fold_message_fresh (bubble (sent_event w chat body ts)) st.messages fresh) refl

messages-after_send :
    (w chat body : String) (ts : ℕ) (st : State)
    → chat ≡ st.selected_chat
    → any (at_key (λ x. x.wa_id) w) st.messages ≡ false
    → (after_send w chat body ts st).messages ≡ pending w chat body ts ∷ st.messages
unfolding bubble
messages-after_send w chat body ts st here fresh =
    rw (messages-on_incoming w chat body ts st here fresh) (rw (beq_self w) refl)

-- What a send to a chat leaves: the row that is stored under the id, and the bubble on the screen.
pub record IsSent (d : Sqlite) (w chat body : String) (ts : ℕ) (st : State)
    (r : (String × State) × Db) : Type 0 where
  pub row : MessageRow
  pub named : r.0.0 ≡ w
  pub stored : find_message w r.1.messages ≡ some row
  pub written : scan_message row ≡ record (pending w chat body ts) { id = row.id }
  pub shown : r.0.1.messages ≡ pending w chat body ts ∷ st.messages
  pub accepted :
      find_message w (on_accepted d w r.1).messages ≡ some (record row { status = "sent" })

pub sent_named : status_sent ≢ ""
sent_named = ground (arith, text_iff "sent" "")

module _ (d : Sqlite) (s : Succeeds d) (w chat body : String) (named : w ≢ "") (placed : chat ≢ "")
    (ts : ℕ) (st : State) (db : Db) where
  on_send_succeeds :
      (local_id : ℕ → String)
      → on_send d local_id w chat body ts (st, db)
        ≡ ((w, after_send w chat body ts st), (insert d (pending w chat body ts) false db).1)
  unfolding on_send
  on_send_succeeds local_id =
      rw (beq_ne w "" named, add_optimistic_succeeds d s w chat body named placed ts st db) refl

  accepted_status :
      (db' : Db) {row : MessageRow}
      → find_message w db'.messages ≡ some row
      → find_message w (on_accepted d w db').messages ≡ some (record row { status = status_sent })
  unfolding on_accepted
  accepted_status db' stored =
      rw (find_message-update_status d s w named db' w status_sent sent_named, beq_self w, stored)
        refl

  -- With a driver that works, an id that is neither stored nor on the screen, and a chat that is
  -- shown: OnSend stores the message under its id with its text and the status "pending" and puts
  -- the same message above the others on the screen; once the server has accepted it, the same row
  -- is there with the status "sent".
  pub on_send-IsSent :
      (local_id : ℕ → String)
      → chat ≡ st.selected_chat
      → is_stored w db ≡ false
      → any (at_key (λ x. x.wa_id) w) st.messages ≡ false
      → IsSent d w chat body ts st (on_send d local_id w chat body ts (st, db))
  unfolding bubble status_or_sent
  on_send-IsSent local_id here new fresh =
      let (row, stored, written) =
        insert-reads_back d s (pending w chat body ts) named placed false db new in
      rw (on_send_succeeds local_id) (record {
        row = row;
        named = refl;
        stored = stored;
        written = written;
        shown = messages-after_send w chat body ts st here fresh;
        accepted = accepted_status (insert d (pending w chat body ts) false db).1 stored;
      })
