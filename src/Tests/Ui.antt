-- ===== src/Tests/Ui.antt =====
-- The view-model at a chat with two bubbles.
use wachat.Prelude.{
  ℕ, ◌+◌, ◌≡◌, ◌≢◌, refl, String, true, false, not, ◌&&◌, none, some, [], ◌∷◌, ◌==◌, text_eq,
  text_iff, ltb, max, any, arith, if◌then◌else◌,
}
use wachat.Prelude.Int.{pos}
use wachat.Store.Schema.{Message}
use wachat.Store.Paging.{zero_cursor}
use wachat.Ui.State.{State, ChatSummary, on_incoming, bubble, set_typing, typing_ttl}
use wachat.Ui.State.Typing.{is_typing, set_typing_lem}
use wachat.Ui.State.ChatList.{find_summary, distinct_jids, unread_in, last_ts_in}
use wachat.Ui.State.Incoming.{
  IsView, NewestFirst, shown_as, distinct_ids, find_bubble, on_incoming-IsView,
  find_bubble-on_incoming, find_summary-on_incoming,
}
use wachat.Ui.Grouping.{group_messages}
use wachat.Ui.Grouping.Runs.{IsRuns, group_messages-IsRuns}
use wachat.Tests.Wa.{greeting}

abbrev alice : String
alice = "alice"

abbrev bob : String
bob = "bob"

abbrev g1 : String
g1 = "g1"

abbrev summary : String → ℕ → ChatSummary
summary jid ts = record {
  jid = jid;
  name = "";
  last_ts = ts;
  unread = 0;
  pinned = false;
  archived = false;
  mute_until = pos 0;
}

abbrev earlier : Message
earlier = record (bubble greeting) { wa_id = "g0"; ts = 4 }

abbrev pub open_chat : State
open_chat = record {
  own_jid = "me";
  chats = summary bob 4 ∷ summary alice 3 ∷ [];
  selected_chat = alice;
  loaded = true;
  messages = bubble greeting ∷ earlier ∷ [];
  cursor = zero_cursor;
  reactions = none;
  typing = [];
}

open_chat-IsView : IsView open_chat
unfolding distinct_ids distinct_jids bubble any
open_chat-IsView = record { messages_once = refl; chats_once = refl }

on_incoming-IsView_example :
    IsView (on_incoming greeting open_chat) × NewestFirst (on_incoming greeting open_chat).chats
on_incoming-IsView_example = on_incoming-IsView greeting open_chat open_chat-IsView

find_bubble-on_incoming_example : find_bubble g1 (on_incoming greeting open_chat).messages ≡ (
    if greeting.chat_jid == alice && greeting.wa_id == g1
    then some (shown_as greeting)
    else find_bubble g1 open_chat.messages)
find_bubble-on_incoming_example = find_bubble-on_incoming greeting open_chat g1

find_summary-on_incoming_example :
    (unread_in (find_summary alice (on_incoming greeting open_chat).chats)
      ≡ unread_in (find_summary alice open_chat.chats)
        + (if greeting.chat_jid == alice && not greeting.from_me then 1 else 0))
    × (last_ts_in (find_summary alice (on_incoming greeting open_chat).chats) ≡ (
        if greeting.chat_jid == alice
        then max (last_ts_in (find_summary alice open_chat.chats)) greeting.ts
        else last_ts_in (find_summary alice open_chat.chats)))
find_summary-on_incoming_example =
    find_summary-on_incoming greeting open_chat open_chat-IsView.chats_once alice

alice_named : alice ≢ ""
alice_named = ground (arith, text_iff alice "")

bob_named : bob ≢ ""
bob_named = ground (arith, text_iff bob "")

set_typing_lem_example : is_typing alice bob 2000 (set_typing alice bob true 1000 open_chat) ≡ (
    if alice == alice && bob == bob
    then true && ltb 2000 (1000 + typing_ttl)
    else is_typing alice bob 2000 open_chat)
set_typing_lem_example =
    set_typing_lem alice bob alice_named bob_named true 1000 2000 (omega arith) open_chat alice bob

group_messages-IsRuns_example :
    IsRuns 300000 false open_chat.messages (group_messages open_chat.messages 300000)
group_messages-IsRuns_example = group_messages-IsRuns open_chat.messages 300000
