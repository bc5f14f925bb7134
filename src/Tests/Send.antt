-- ===== src/Tests/Send.antt =====
-- A message sent to the chat on the screen, over a network that accepts it.
use wachat.Prelude.{
  String, ◌≡◌, refl, true, none, some, List, [], ◌∷◌, ◌&&◌, ◌==◌, text_eq, any, text_iff, arith,
  if◌then◌else◌,
}
use wachat.Prelude.Tables.{is_some, map_option}
use wachat.Store.Schema.{Db, MessageRow, find_message}
use wachat.Store.Messages.{status_sent}
use wachat.Wa.Client.{Whatsmeow}
use wachat.Main.{on_send, send_and_mark}
use wachat.Main.Deliver.{send_and_mark-IsMarked}
use wachat.Main.Send.{IsSent, on_send-IsSent}
use wachat.Tests.Data.{memory, memory-Succeeds, empty}
use wachat.Ui.State.{bubble}
use wachat.Tests.Ui.{open_chat}

abbrev minted : String
minted = "3EB0"

abbrev recipient : String
recipient = "alice"

on_send-IsSent_example :
    IsSent memory minted recipient "hi" 9 open_chat
      (on_send memory (λ ts. "local") minted recipient "hi" 9 (open_chat, empty))
unfolding any bubble
on_send-IsSent_example =
    on_send-IsSent memory memory-Succeeds minted recipient "hi" (ground (arith, text_iff "3EB0" ""))
      (ground (arith, text_iff "alice" "")) 9 open_chat empty (λ ts. "local") refl refl refl

-- A network that accepts every message and keeps what it was sent.
abbrev Wire : Type 0
Wire = List (String × String × String)

abbrev wire : Whatsmeow Wire String String (Unit {0})
wire = record {
  parse_jid = λ s. some s;
  text_payload = λ s. s;
  build_reaction = λ chat sender target emoji. emoji;
  send_message = λ to payload i s. (some i, (to, payload, i) ∷ s);
  generate_message_id = λ s. ("3EB1", s);
  pair_phone = λ phone display s. (none, s);
  connect = λ s. (true, s);
  disconnect = λ s. s;
  has_store = λ s. true;
  store_id = λ s. some "me";
  download = λ image s. (none, s);
}

abbrev stored : Db
stored = (on_send memory (λ ts. "local") minted recipient "hi" 9 (open_chat, empty)).1

send_and_mark-IsMarked_example :
    let sent = wire.send_message recipient (wire.text_payload "hi") minted [] in
    let r = send_and_mark wire memory recipient "hi" minted (some [], stored) in
    (r.0 ≡ some sent.1)
    × ((j : String)
        → find_message j r.1.messages ≡ (
            if is_some sent.0 && minted == j
            then map_option {A = MessageRow}
                (λ x. record x { status = status_sent })
                (find_message j stored.messages)
            else find_message j stored.messages))
send_and_mark-IsMarked_example =
    send_and_mark-IsMarked wire memory memory-Succeeds recipient "hi" minted recipient [] stored
      (ground (arith, text_iff "alice" "")) (ground (arith, text_iff "hi" ""))
      (ground (arith, text_iff "3EB0" "")) refl
