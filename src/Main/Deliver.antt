-- ===== src/Main/Deliver.antt =====
-- The send over the wire, after the message is stored.
use wachat.Prelude.{
  String, ◌≡◌, ◌≢◌, refl, Bool, true, false, Option, some, none, ◌==◌, ◌&&◌, text_eq, beq_ne,
  if◌then◌else◌,
}
use wachat.Prelude.Tables.{map_option, is_some}
use wachat.Store.Schema.{MessageRow, Db, Sqlite, find_message}
use wachat.Store.Exec.{Succeeds}
use wachat.Store.Messages.{status_sent}
use wachat.Store.Messages.Updates.{find_message-update_status}
use wachat.Wa.Client.{Whatsmeow, Outcome, done, refused, call_failed, and_then, answer, send_text}
use wachat.Main.{on_accepted, after_answer, send_and_mark}
use wachat.Main.Send.{sent_named}

-- What SendText makes of whatsmeow's answer.
abbrev settle : {Session : Type 0} → Option String × Session → Outcome (Unit {0}) × Option Session
settle (none, s) = (refused (call_failed "SendText"), some s)
settle (some i, s) = (done tt, some s)

settled :
    {Session : Type 0} (d : Sqlite) (w : String) (db : Db) (r : Option String × Session)
    → after_answer d w db (settle r) ≡ (some r.1, if is_some r.0 then on_accepted d w db else db)
settled d w db (none, s) = refl
settled d w db (some i, s) = refl

answered :
    {Session Jid Payload Image : Type 0} (api : Whatsmeow Session Jid Payload Image)
    (r : Option String × Session)
    → let a = and_then {B = Unit {0}} (answer api "SendText" r) (λ i s. (done tt, s)) in
      ◌≡◌ {A = Outcome (Unit {0}) × Option Session} (a.0, some a.1) (settle r)
answered api (none, s) = refl
answered api (some i, s) = refl

module _ {Session Jid Payload Image : Type 0} (api : Whatsmeow Session Jid Payload Image)
    (chat body w : String) (placed : chat ≢ "") (given : body ≢ "") (to : Jid)
    (parsed : api.parse_jid chat ≡ some to) (session : Session) where
  send_text_called :
      send_text api chat body w (some session)
      ≡ settle (api.send_message to (api.text_payload body) w session)
  unfolding send_text
  send_text_called =
      rw (beq_ne chat "" placed, beq_ne body "" given, parsed)
        (answered api (api.send_message to (api.text_payload body) w session))

  send_and_mark_lem :
      (d : Sqlite) (db : Db)
      → send_and_mark api d chat body w (some session, db) ≡ (
          let sent = api.send_message to (api.text_payload body) w session in
          (some sent.1, if is_some sent.0 then on_accepted d w db else db))
  unfolding send_and_mark
  send_and_mark_lem d db =
      rw send_text_called (settled d w db (api.send_message to (api.text_payload body) w session))

marked_if :
    (d : Sqlite)
    → Succeeds d
    → (w : String) → w ≢ ""
    → (db : Db) (accepted : Bool) (j : String)
    → find_message j (if accepted then on_accepted d w db else db).messages ≡ (
        if accepted && w == j
        then map_option {A = MessageRow}
            (λ x. record x { status = status_sent })
            (find_message j db.messages)
        else find_message j db.messages)
unfolding on_accepted
marked_if d s w named db false j = refl
marked_if d s w named db true j = find_message-update_status d s w named db j status_sent sent_named

-- With a driver that works, a client, an id, a text, and the address of a chat: whatsmeow is asked
-- once to send that text to that address under that id, and exactly if it accepts, the stored row
-- with the id gets the status "sent"; nothing else is written to the messages.
pub send_and_mark-IsMarked :
    {Session Jid Payload Image : Type 0} (api : Whatsmeow Session Jid Payload Image) (d : Sqlite)
    → Succeeds d
    → (chat body w : String) (to : Jid) (session : Session) (db : Db) → chat ≢ ""
    → body ≢ ""
    → w ≢ ""
    → api.parse_jid chat ≡ some to
    → let sent = api.send_message to (api.text_payload body) w session in
      let r = send_and_mark api d chat body w (some session, db) in
      (r.0 ≡ some sent.1)
      × ((j : String)
          → find_message j r.1.messages ≡ (
              if is_some sent.0 && w == j
              then map_option {A = MessageRow}
                  (λ x. record x { status = status_sent })
                  (find_message j db.messages)
              else find_message j db.messages))
send_and_mark-IsMarked api d s chat body w to session db placed given named parsed =
    let sent = api.send_message to (api.text_payload body) w session in
    rw (send_and_mark_lem api chat body w placed given to parsed session d db)
      (refl, marked_if d s w named db (is_some sent.0))
