-- ===== src/Store/Messages/Updates.antt =====
-- The updates of one message or one chat: what they change, what they keep, and their failures.
use wachat.Prelude.{
  ◌<◌, String, ◌≡◌, ◌≢◌, refl, Bool, All-update_where, Pairs-update_where, ◌==◌, text_eq, beq_ne,
  arith, if◌then◌else◌,
}
use wachat.Prelude.Tables.{map_option, find?-update_where}
use wachat.Store.Schema.{MessageRow, Db, Sqlite, exec, find_message, find_chat}
use wachat.Store.Exec.{Argument, Succeeds, refuse_if}
use wachat.Store.Exec.Keeps.{Keeps, Keeps-bind, Keeps-refuse_if, Keeps-write}
use wachat.Store.WellFormed.{WellFormed, IsRowidOrder, IsOtherMessage, Covers}
use wachat.Store.Messages.{
  update_message, set_starred, apply_edit, apply_revoke, update_status, nullable_string,
  bool_to_int,
}
use wachat.Store.Messages.Sync.{IsInSync, update_message-IsInSync}

-- The columns that the keys, the order and the chat list rest on.
pub record KeepsKeys (f : MessageRow → MessageRow) : Type 0 where
  pub id : (r : MessageRow) → (f r).id ≡ r.id
  pub wa_id : (r : MessageRow) → (f r).wa_id ≡ r.wa_id
  pub chat_jid : (r : MessageRow) → (f r).chat_jid ≡ r.chat_jid
  pub ts : (r : MessageRow) → (f r).ts ≡ r.ts

-- An update is sound if it keeps the invariant and the search index.
pub record IsSound (db : Db) : Type 0 where
  pub well_formed : WellFormed db
  pub in_sync : IsInSync db

update_message-IsSound :
    (w : String) (f : MessageRow → MessageRow) (db : Db)
    → KeepsKeys f
    → IsSound db
    → IsSound (update_message w f db)
unfolding update_message
update_message-IsSound w f db k h = record {
  well_formed = record {
    positive =
        All-update_where _ f (λ r. 0 < r.id) (λ r p. rw (k.id r) p) db.messages
          h.well_formed.positive;
    rowids =
        Pairs-update_where _ f IsRowidOrder (λ a b p. rw (k.id a) p) (λ a b p. rw (k.id b) p)
          db.messages h.well_formed.rowids;
    unique =
        Pairs-update_where _ f IsOtherMessage (λ a b p. rw (k.wa_id a) p)
          (λ a b p. rw (k.wa_id b) p) db.messages h.well_formed.unique;
    covered =
        All-update_where _ f (λ r. Covers (find_chat r.chat_jid db.chats) r.ts)
          (λ r p. rw (k.chat_jid r, k.ts r) p) db.messages h.well_formed.covered;
  };
  in_sync = update_message-IsInSync w f db k.id h.well_formed h.in_sync;
}

module _ (d : Sqlite) (w : String) where
  -- Starring, editing, revoking and a new status keep the invariant and the search index, whether
  -- they succeed or fail.
  pub message_updates-IsSound :
      (starred : Bool) (new_body new_status : String)
      → Keeps IsSound (set_starred d w starred)
        × Keeps IsSound (apply_edit d w new_body)
        × Keeps IsSound (apply_revoke d w)
        × Keeps IsSound (update_status d w new_status)
  unfolding set_starred apply_edit apply_revoke update_status
  message_updates-IsSound starred new_body new_status =
      let sound = λ (f : MessageRow → MessageRow) (k : KeepsKeys f) (db : Db).
        update_message-IsSound w f db k in
      (
        Keeps-write IsSound (w == "") Argument.wa_id d exec _
            (sound (λ r. record r { starred = bool_to_int starred }) (ground arith)),
        Keeps-write IsSound (w == "") Argument.wa_id d exec _
            (sound (λ r. record r { body = nullable_string new_body; edited = 1 }) (ground arith)),
        Keeps-write IsSound (w == "") Argument.wa_id d exec _
            (sound (λ r. record r { revoked = 1 }) (ground arith)),
        Keeps-bind IsSound (refuse_if (w == "") Argument.wa_id) _
            (Keeps-refuse_if IsSound (w == "") Argument.wa_id)
            λ _.
              Keeps-write IsSound (new_status == "") Argument.status d exec _
                (sound (λ r. record r { status = new_status }) (ground arith)),
      )

-- What a lookup finds after each update, with a working driver: the named message has the new
-- column and every other message is as it was; an unknown id changes nothing.
module _ (d : Sqlite) (s : Succeeds d) (w : String) (named : w ≢ "") (db : Db) (j : String) where
  find_message-update :
      (f : MessageRow → MessageRow)
      → ((r : MessageRow) → (f r).wa_id ≡ r.wa_id)
      → find_message j (update_message w f db).messages
        ≡ (if w == j then map_option f (find_message j db.messages) else find_message j db.messages)
  unfolding update_message
  find_message-update f keeps = find?-update_where (λ r. r.wa_id) f keeps w j db.messages

  -- With a driver that works and a message id that is not empty: an edit or a revocation changes
  -- the named message alone: an edit its text and mark, a revocation its mark, keeping the text on
  -- disk. Any other message, and an unknown id, stays as it was.
  pub find_message-edit_revoke :
      (new_body : String)
      → (find_message j (apply_edit d w new_body db).1.messages ≡ (
          if w == j
          then map_option {A = MessageRow}
              (λ r. record r { body = nullable_string new_body; edited = 1 })
              (find_message j db.messages)
          else find_message j db.messages))
        × (find_message j (apply_revoke d w db).1.messages ≡ (
            if w == j
            then map_option {A = MessageRow}
                (λ r. record r { revoked = 1 })
                (find_message j db.messages)
            else find_message j db.messages))
  unfolding apply_edit apply_revoke
  find_message-edit_revoke new_body = (
    rw (beq_ne w "" named, s exec) (find_message-update _ (λ r. refl)),
    rw (beq_ne w "" named, s exec) (find_message-update _ (λ r. refl)),
  )

  -- With a driver that works, a message id and a status that are not empty: the status of the named
  -- message, and of no other, is written as it is given, whatever the old one was: a late
  -- "delivered" replaces "read".
  pub find_message-update_status :
      (new_status : String)
      → new_status ≢ ""
      → find_message j (update_status d w new_status db).1.messages ≡ (
          if w == j
          then map_option {A = MessageRow}
              (λ r. record r { status = new_status })
              (find_message j db.messages)
          else find_message j db.messages)
  unfolding update_status
  find_message-update_status new_status given =
      rw (beq_ne w "" named, beq_ne new_status "" given, s exec) (find_message-update _ (λ r. refl))
