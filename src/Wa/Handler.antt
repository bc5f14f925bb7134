-- ===== src/Wa/Handler.antt =====
-- internal/wa/handler.go: the handler's state and the persist, send, notify pipeline.
use wachat.Prelude.{
  ℕ, String, Bool, not, ◌||◌, Option, none, some, List, [], ◌∷◌, ◌++◌, ◌==◌, text_eq, ltb, length,
  if◌then◌else◌,
}
use wachat.Store.Schema.{Message, Db, Sqlite}
use wachat.Store.Exec.{Error, Result, ok, err, Exec}
use wachat.Store.Messages.{insert, upsert_chat}
use wachat.Wa.Extract.{MessageEvent}

pub data ConnectionState : Type 0 where
  connected connecting disconnected logged_out : ConnectionState

-- Why a handler fails.
pub data Failure : Type 0 where
  no_store : Failure
  store_failed : Error → Failure

-- What a handler does besides the writes and the send.
pub data Effect : Type 0 where
  notified : Effect
  logged : Failure → Effect
  conn_state : ConnectionState → Effect
  typing : String → String → Bool → Effect

-- Which fields are set; `Out` with the size of its buffer. The store, where it is set, is the
-- SQLite store, which has the methods of every interface that the handler asks for.
pub record Handler : Type 0 where
  pub has_store : Bool
  pub out : Option ℕ
  pub has_notify : Bool
  pub has_logger : Bool
  pub has_conn_state : Bool
  pub has_typing : Bool

-- The database, the events in the buffer of `Out`, and the effects so far, in order.
pub record World : Type 0 where
  pub db : Db
  pub queue : List MessageEvent
  pub trace : List Effect

abbrev pub emit : Effect → World → World
emit e w = record w { trace = w.trace ++ e ∷ [] }

abbrev pub emit_if : Bool → Effect → World → World
emit_if b e w = if b then emit e w else w

-- `if h.Notify != nil { h.Notify() }`
abbrev pub notify : Handler → World → World
notify h = emit_if h.has_notify notified

-- A method of the store, in the world.
abbrev pub on_db : {A : Type 0} → Exec A → World → Result A × World
on_db m w = let (r, db) = m w.db in (r, record w { db = db })

-- `if err := m; err != nil && h.Logger != nil { h.Logger(err) }`
abbrev pub log_error : {A : Type 0} → Handler → Result A → World → World
log_error h (ok a) w = w
log_error h (err e) w = emit_if h.has_logger (logged (store_failed e)) w

abbrev pub attempt : {A : Type 0} → Handler → Exec A → World → World
attempt h m w = let (r, w') = on_db m w in log_error h r w'

-- The select with a default: an event goes to a buffer that has room, and is dropped otherwise.
unfoldable pub send : Option ℕ → MessageEvent → World → World
send none ev w = w
send (some size) ev w =
    if ltb (length w.queue) size then record w { queue = w.queue ++ ev ∷ [] } else w

unfoldable pub to_message : MessageEvent → Message
to_message ev = record {
  id = 0;
  wa_id = ev.wa_id;
  chat_jid = ev.chat_jid;
  sender_jid = ev.sender_jid;
  ts = ev.ts;
  body = ev.body;
  media_path = ev.media_path;
  media_type = ev.media_type;
  status = "";
  quoted_waid = ev.quoted_waid;
  quoted_body = ev.quoted_body;
  quoted_sender = ev.quoted_sender;
  edited = Bool.false;
  revoked = Bool.false;
  link_url = ev.link_url;
  link_title = ev.link_title;
  link_desc = ev.link_desc;
  starred = Bool.false;
}

-- The steps after Insert.
unfoldable pub deliver : Handler → MessageEvent → Result Bool × World → Option Failure × World
unfolding send
deliver h ev (ok created, w) = (none, notify h (send h.out ev w))
deliver h ev (err e, w) = (some (store_failed e), w)

unfoldable pub on_message : Sqlite → Handler → MessageEvent → World → Option Failure × World
unfolding to_message deliver
on_message d h ev w =
    if h.has_store
    then deliver h ev (on_db (insert d (to_message ev) (not ev.from_me)) w)
    else (some no_store, w)

unfoldable pub apply_push_name : Sqlite → Handler → String → String → World → World
apply_push_name d h jid push_name w =
    if jid == "" || push_name == "" || not h.has_store
    then w
    else notify h (attempt h (upsert_chat d jid push_name) w)

unfoldable pub publish_state : Handler → ConnectionState → World → World
publish_state h s w = if h.has_conn_state then notify h (emit (conn_state s) w) else w
