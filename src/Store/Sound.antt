-- ===== src/Store/Sound.antt =====
-- The writes of internal/store on chats, reactions and batches, against the invariant of the
-- database and its search index.
use wachat.Prelude.{
  ℕ, ◌≡◌, refl, inl, inr, String, Bool, ◌||◌, Option, none, some, List, All-map, ◌==◌, text_eq,
  Bool-cases, update_where,
}
use wachat.Prelude.Int.{ℤ}
use wachat.Prelude.Tables.{
  at_key, map_option, apply_or, upsert_where, find?-upsert_where, find?-update_where,
}
use wachat.Store.Schema.{Message, ChatRow, Reaction, Db, Sqlite, exec, exec_ensure, find_chat}
use wachat.Store.Exec.{Argument, call, modify, refuse_if, ◌>>◌}
use wachat.Store.Exec.Keeps.{
  Keeps, Keeps-bind, Keeps-call, Keeps-modify, Keeps-refuse_if, Keeps-write,
}
use wachat.Store.WellFormed.{Covers}
use wachat.Store.Messages.{insert, upsert_chat, mark_read, new_chat, bool_to_int}
use wachat.Store.Messages.Insert.{insert-WellFormed}
use wachat.Store.Messages.Sync.{insert-IsInSync}
use wachat.Store.Messages.Updates.{IsSound}
use wachat.Store.ChatState.{ensure_chat_row, update_chat, set_pinned, set_archived, set_mute_until}
use wachat.Store.Reactions.{set_reaction}

-- Chats that cover what the old ones cover.
with_chats-IsSound :
    (db : Db) (cs : List ChatRow)
    → ((j : String) (n : ℕ) → Covers (find_chat j db.chats) n → Covers (find_chat j cs) n)
    → IsSound db
    → IsSound (record db { chats = cs })
with_chats-IsSound db cs covers h = record {
  well_formed = record {
    positive = h.well_formed.positive;
    rowids = h.well_formed.rowids;
    unique = h.well_formed.unique;
    covered = All-map _ _ (λ r. covers r.chat_jid r.ts) db.messages h.well_formed.covered;
  };
  in_sync = h.in_sync;
}

module _ (f : ChatRow → ChatRow) (jid : (c : ChatRow) → (f c).jid ≡ c.jid)
    (last_ts : (c : ChatRow) → (f c).last_ts ≡ c.last_ts) (k : String) where
  Covers-apply_or :
      (new : ChatRow) (n : ℕ) (o : Option ChatRow) → Covers o n → Covers (some (apply_or new f o)) n
  Covers-apply_or new n none h = absurd h
  Covers-apply_or new n (some c) h = rw (last_ts c) h

  Covers-map_option : (n : ℕ) (o : Option ChatRow) → Covers o n → Covers (map_option f o) n
  Covers-map_option n none h = absurd h
  Covers-map_option n (some c) h = rw (last_ts c) h

  Covers-upsert :
      (new : ChatRow)
      → new.jid ≡ k
      → (cs : List ChatRow) (j : String) (n : ℕ) → Covers (find_chat j cs) n
      → Covers (find_chat j (upsert_where (at_key (λ c. c.jid) k) new f cs)) n
  Covers-upsert new is_k cs j n h = elim (Bool-cases (k == j)) [
    | inl e ↦
        rw (find?-upsert_where (λ c. c.jid) f jid new k is_k j cs, e)
          (Covers-apply_or new n (find_chat j cs) h)
    | inr e ↦ rw (find?-upsert_where (λ c. c.jid) f jid new k is_k j cs, e) h
  ]

  Covers-update :
      (cs : List ChatRow) (j : String) (n : ℕ)
      → Covers (find_chat j cs) n
      → Covers (find_chat j (update_where (at_key (λ c. c.jid) k) f cs)) n
  Covers-update cs j n h = elim (Bool-cases (k == j)) [
    | inl e ↦
        rw (find?-update_where (λ c. c.jid) f jid k j cs, e)
          (Covers-map_option n (find_chat j cs) h)
    | inr e ↦ rw (find?-update_where (λ c. c.jid) f jid k j cs, e) h
  ]

  upsert-IsSound :
      (new : ChatRow)
      → new.jid ≡ k
      → (db : Db) → IsSound db
      → IsSound (record db { chats = upsert_where (at_key (λ c. c.jid) k) new f db.chats })
  upsert-IsSound new is_k db = with_chats-IsSound db _ (Covers-upsert new is_k db.chats)

  update-IsSound :
      (db : Db)
      → IsSound db
      → IsSound (record db { chats = update_where (at_key (λ c. c.jid) k) f db.chats })
  update-IsSound db = with_chats-IsSound db _ (Covers-update db.chats)

reactions-IsSound :
    (db : Db) (rs : List Reaction) → IsSound db → IsSound (record db { reactions = rs })
reactions-IsSound db rs h = record {
  well_formed = record {
    positive = h.well_formed.positive;
    rowids = h.well_formed.rowids;
    unique = h.well_formed.unique;
    covered = h.well_formed.covered;
  };
  in_sync = h.in_sync;
}

module _ (d : Sqlite) where
  pub insert-IsSound : (m : Message) (bump_unread : Bool) → Keeps IsSound (insert d m bump_unread)
  insert-IsSound m bump_unread = record {
    at = λ db h. record {
      well_formed = insert-WellFormed d m db h.well_formed bump_unread;
      in_sync = insert-IsInSync d m bump_unread db h.in_sync;
    };
  }

  pub upsert_chat-IsSound : (j name : String) → Keeps IsSound (upsert_chat d j name)
  unfolding upsert_chat
  upsert_chat-IsSound j name = Keeps-write IsSound (j == "") Argument.jid d exec _ (
      upsert-IsSound (λ c. record c { name = name }) (λ c. refl) (λ c. refl) j
        (new_chat j name none 0) refl)

  pub mark_read-IsSound : (j : String) → Keeps IsSound (mark_read d j)
  unfolding mark_read
  mark_read-IsSound j =
      Keeps-write IsSound (j == "") Argument.jid d exec _
        (update-IsSound (λ c. record c { unread = 0 }) (λ c. refl) (λ c. refl) j)

  pub set_reaction-IsSound :
      (target sender emoji : String) (ts : ℕ)
      → Keeps IsSound (set_reaction d target sender emoji ts)
  unfolding set_reaction
  set_reaction-IsSound target sender emoji ts =
      Keeps-write IsSound (target == "" || sender == "") Argument.target_and_sender d exec _
        (λ db. reactions-IsSound db _)

  ensure_chat_row-IsSound : (j : String) → Keeps IsSound (ensure_chat_row d j)
  unfolding ensure_chat_row
  ensure_chat_row-IsSound j =
      Keeps-bind IsSound (call d exec_ensure) _ (Keeps-call IsSound d exec_ensure) λ _.
        Keeps-modify IsSound _
          (upsert-IsSound (λ c. c) (λ c. refl) (λ c. refl) j (new_chat j "" none 0) refl)

  -- A method that makes the row of a chat and then sets a column of it.
  set_column-IsSound :
      (j : String) (f : ChatRow → ChatRow)
      → ((c : ChatRow) → (f c).jid ≡ c.jid)
      → ((c : ChatRow) → (f c).last_ts ≡ c.last_ts)
      → Keeps IsSound (do
        refuse_if (j == "") Argument.jid
        ensure_chat_row d j
        call d exec
        modify (update_chat j f))
  set_column-IsSound j f jid last_ts =
      Keeps-bind IsSound (refuse_if (j == "") Argument.jid) _
        (Keeps-refuse_if IsSound (j == "") Argument.jid)
        λ _. Keeps-bind IsSound (ensure_chat_row d j) _ (ensure_chat_row-IsSound j) λ _.
          Keeps-bind IsSound (call d exec) _ (Keeps-call IsSound d exec)
            λ _. Keeps-modify IsSound (update_chat j f) (update-IsSound f jid last_ts j)

  pub set_pinned-IsSound : (j : String) (b : Bool) → Keeps IsSound (set_pinned d j b)
  unfolding set_pinned
  set_pinned-IsSound j b =
      set_column-IsSound j (λ c. record c { pinned = bool_to_int b }) (λ c. refl) (λ c. refl)

  pub set_archived-IsSound : (j : String) (b : Bool) → Keeps IsSound (set_archived d j b)
  unfolding set_archived
  set_archived-IsSound j b =
      set_column-IsSound j (λ c. record c { archived = bool_to_int b }) (λ c. refl) (λ c. refl)

  pub set_mute_until-IsSound : (j : String) (until : ℤ) → Keeps IsSound (set_mute_until d j until)
  unfolding set_mute_until
  set_mute_until-IsSound j until =
      set_column-IsSound j (λ c. record c { mute_until = until }) (λ c. refl) (λ c. refl)
