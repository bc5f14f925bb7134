-- ===== src/Tests/Data.antt =====
-- A driver that never fails and numbers rows as SQLite does, and a database with two chats.
use wachat.Prelude.{
  ℕ, suc, ◌<◌, ◌≤◌, String, refl, find?, any, update_where, ◌≡◌, Bool, true, false, List, [], ◌∷◌,
  All, max, arith,
}
use wachat.Store.Schema.{Message, Db, Sqlite}
use wachat.Store.Exec.{Succeeds}
use wachat.Prelude.Tables.{upsert_where}
use wachat.Store.Messages.{
  insert, insert_row, to_row, nullable_string, bool_to_int, status_or_sent, touch_chat,
}
use wachat.Store.Messages.Insert.{insert-WellFormed}
use wachat.Store.Messages.Effect.{unread_of}
use wachat.Store.Messages.Sync.{insert-IsInSync}
use wachat.Store.Messages.Updates.{IsSound}

abbrev pub largest : List ℕ → ℕ
largest [] = 0
largest (i ∷ is) = max i (largest is)

pub largest_above : (n : ℕ) (is : List ℕ) → largest is ≤ n → All (λ i. i < suc n) is
largest_above n [] h = tt
largest_above n (i ∷ is) h = (omega arith, largest_above n is (omega arith))

pub next_above : (is : List ℕ) → All (λ i. i < suc (largest is)) is
next_above is = largest_above (largest is) is (omega arith)

abbrev pub memory : Sqlite
memory = record {
  succeeds = λ c. true;
  next_id = λ is. suc (largest is);
  next_id_pos = λ is. omega arith;
  next_id_above = next_above;
}

pub memory-Succeeds : Succeeds memory
memory-Succeeds c = refl

abbrev pub empty : Db
empty = record {
  message_columns = [];
  chat_columns = [];
  messages = [];
  chats = [];
  reactions = [];
  messages_fts = [];
  settings = [];
}

abbrev pub text : String → String → ℕ → String → Message
text wa_id chat ts body = record {
  id = 0;
  wa_id = wa_id;
  chat_jid = chat;
  sender_jid = "bob";
  ts = ts;
  body = body;
  media_path = "";
  media_type = "";
  status = "";
  quoted_waid = "";
  quoted_body = "";
  quoted_sender = "";
  edited = false;
  revoked = false;
  link_url = "";
  link_title = "";
  link_desc = "";
  starred = false;
}

abbrev pub hello : Message
hello = text "w1" "alice" 100 "hello"

pub empty-IsSound : IsSound empty
unfolding find?
empty-IsSound = record {
  well_formed = record { positive = tt; rowids = tt; unique = tt; covered = tt };
  in_sync = λ i. refl;
}

-- Two messages of one millisecond, and one of another chat.
abbrev pub world : Message
world = text "w2" "alice" 100 "world"

abbrev pub other : Message
other = text "w3" "carol" 50 "hi"

abbrev pub one : Db
one = (insert memory hello true empty).1

abbrev pub two : Db
two = (insert memory world true one).1

abbrev pub three : Db
three = (insert memory other false two).1

pub insert-IsSound :
    (m : Message) (bump_unread : Bool) (db : Db)
    → IsSound db
    → IsSound (insert memory m bump_unread db).1
insert-IsSound m bump_unread db h = record {
  well_formed = insert-WellFormed memory m db h.well_formed bump_unread;
  in_sync = insert-IsInSync memory m bump_unread db h.in_sync;
}

pub three-IsSound : IsSound three
three-IsSound =
    insert-IsSound other false two
      (insert-IsSound world true one (insert-IsSound hello true empty empty-IsSound))

-- What tests of the store compute with.
unfoldable pub writes : Unit {0}
unfolding insert insert_row to_row nullable_string bool_to_int status_or_sent touch_chat
    upsert_where any find? update_where
writes = tt

pub unread_alice : unread_of "alice" three ≡ 2
unfolding writes
unread_alice = refl
