-- ===== src/Main.antt =====
-- main.go: the drain of incoming events with its notifications, the send path, and the persisted
-- theme and density.
pub mod Drain
pub mod Themes
pub mod Send
pub mod Deliver
pub mod Frame
use wachat.Prelude.{
  ℕ, zero, suc, String, Bool, true, false, not, ◌&&◌, Option, none, some, List, [], ◌∷◌, ◌++◌, ◌==◌,
  text_eq, any, if◌then◌else◌, Runes, strip_suffix, runes,
}
use wachat.Store.Schema.{Sqlite, Db}
use wachat.Store.Exec.{Exec, Result, ok, err}
use wachat.Store.Messages.{update_status, status_sent}
use wachat.Store.Settings.{get_setting, set_setting}
use wachat.Wa.Extract.{MessageEvent}
use wachat.Wa.Handler.{ConnectionState, connected, connecting, disconnected, logged_out}
use wachat.Wa.Client.{Whatsmeow, Outcome, send_text, done, refused}
use wachat.Ui.State.{State, is_muted, name_for, on_incoming, add_optimistic, load_chats}
use wachat.Ui.Theme.{
  Theme, Density, comfortable, compact, same_color, new_theme, dark_palette, light_palette,
}
use wachat.Ui.Pairing.{
  PairingView, set_phase, ready, ConnState, conn_connected, conn_disconnected, conn_logged_out,
}

pub record Toast : Type 0 where
  pub title : String
  pub text : Runes

abbrev toast_body : MessageEvent → Runes
toast_body ev =
    if ev.body == ""
    then if ev.media_type == ""
      then runes "(new message)"
      else runes "[" ++ runes ev.media_type ++ runes "]"
    else runes ev.body

-- The callback of the drain: the notification of an event, if it has one.
unfoldable pub toast_for : ℕ → State → MessageEvent → Option Toast
toast_for now_ms st ev =
    if ev.from_me
    then none
    else if ev.chat_jid == st.selected_chat
    then none
    else if any (λ c. c.jid == ev.chat_jid && is_muted c now_ms) st.chats
    then none
    else some (record {
      title = if name_for ev.chat_jid st == "" then ev.chat_jid else name_for ev.chat_jid st;
      text = toast_body ev;
    })

abbrev pub toast_list : Option Toast → List Toast
toast_list none = []
toast_list (some t) = t ∷ []

-- What a drain leaves: the state, the notifications, and the events that had not arrived yet.
pub record Drained : Type 0 where
  pub state : State
  pub toasts : List Toast
  pub left : List (List MessageEvent)

abbrev pub arrived : List (List MessageEvent) → List MessageEvent
arrived [] = []
arrived (b ∷ bs) = b

abbrev pub later_arrivals : List (List MessageEvent) → List (List MessageEvent)
later_arrivals [] = []
later_arrivals (b ∷ bs) = bs

abbrev pub with_toast : Option Toast → Option Drained → Option Drained
with_toast t none = none
with_toast t (some r) = some (record r { toasts = toast_list t ++ r.toasts })

-- The loop, on fuel: one round for each event that it receives. While a round runs, the senders put
-- the next batch of `arrivals` into the channel; an empty channel ends the loop.
unfoldable pub drain_incoming_notify :
    (ℕ → ℕ) → ℕ → List (List MessageEvent) → List MessageEvent → State → Option Drained
unfolding toast_for
drain_incoming_notify clock zero arrivals queue st = none
drain_incoming_notify clock (suc fuel) arrivals [] st =
    some (record { state = st; toasts = []; left = arrivals })
drain_incoming_notify clock (suc fuel) arrivals (ev ∷ queue) st =
    with_toast (toast_for (clock 0) (on_incoming ev st) ev) (
      drain_incoming_notify (λ i. clock (suc i)) fuel (later_arrivals arrivals)
        (queue ++ arrived arrivals) (on_incoming ev st))

abbrev pub or_old : {A : Type 0} → A → Result A × Db → A × Db
or_old old (ok a, db) = (a, db)
or_old old (err e, db) = (old, db)

-- OnSend up to the optimistic bubble; `generated` is the id that whatsmeow mints, "" without a
-- connection.
unfoldable pub on_send :
    Sqlite → (ℕ → String) → String → String → String → ℕ → State × Db → (String × State) × Db
on_send d local_id generated chat body ts (st, db) =
    let w = if generated == "" then local_id ts else generated in
    let (st', db') = or_old st (add_optimistic d w chat body ts st db) in ((w, st'), db')

-- The goroutine of OnSend, once the server has accepted the message.
unfoldable pub on_accepted : Sqlite → String → Db → Db
on_accepted d w db = (update_status d w status_sent db).1

-- A refused send is only logged.
abbrev pub after_answer :
    {Session : Type 0}
    → Sqlite
    → String
    → Db
    → Outcome (Unit {0}) × Option Session
    → Option Session × Db
after_answer d w db (done x, c) = (c, on_accepted d w db)
after_answer d w db (refused e, c) = (c, db)

-- That goroutine.
unfoldable pub send_and_mark :
    {Session Jid Payload Image : Type 0}
    → Whatsmeow Session Jid Payload Image
    → Sqlite
    → String
    → String
    → String
    → Option Session × Db
    → Option Session × Db
unfolding send_text on_accepted
send_and_mark api d chat body w (c, db) = after_answer d w db (send_text api chat body w c)

-- What the callback of the connection state reads and writes.
pub record Session : Type 0 where
  pub conn_state : ConnState
  pub needs_pairing : Bool
  pub pairing : PairingView
  pub state : State

unfoldable pub on_conn_state : Sqlite → String → ConnectionState → Session → Db → Session
unfolding set_phase
on_conn_state d own_jid connected s db =
    let named = if own_jid == "" then s.state else record (s.state) { own_jid = own_jid } in
    let (loaded, db') = or_old named (load_chats d named db) in
    record {
      conn_state = conn_connected;
      needs_pairing = false;
      pairing = if s.needs_pairing then set_phase ready s.pairing else s.pairing;
      state = loaded;
    }
on_conn_state d own_jid disconnected s db = record s { conn_state = conn_disconnected }
on_conn_state d own_jid logged_out s db = record s { conn_state = conn_logged_out }
on_conn_state d own_jid connecting s db = s

-- The session database lies beside the message store, in a file of another name.
unfoldable pub session_db_path : Runes → Runes
unfolding strip_suffix
session_db_path db_path = elim (strip_suffix (runes ".db") db_path) [
  | some stem ↦ stem ++ runes "-session.db"
  | none ↦ db_path ++ runes "-session"
]

abbrev pub settings_key_theme : String
settings_key_theme = "ui.theme"

abbrev pub settings_key_density : String
settings_key_density = "ui.density"

abbrev pub settings_theme_light : String
settings_theme_light = "light"

abbrev pub settings_theme_dark : String
settings_theme_dark = "dark"

abbrev pub settings_density_comfortable : String
settings_density_comfortable = "comfortable"

abbrev pub settings_density_compact : String
settings_density_compact = "compact"

unfoldable pub read_density : Sqlite → Db → Density
read_density d db =
    if (or_old "" (get_setting d settings_key_density db)).0 == settings_density_compact
    then compact
    else comfortable

unfoldable pub load_initial_theme : Sqlite → Db → Theme
load_initial_theme d db =
    let v = (or_old "" (get_setting d settings_key_theme db)).0 in
    let pal = if v == settings_theme_dark then dark_palette else light_palette in
    record (new_theme pal) { density = read_density d db }

-- The toggles; an error of SetSetting is ignored.
unfoldable pub toggle_theme : Sqlite → Theme × Db → Theme × Db
toggle_theme d (th, db) =
    if same_color th.palette.canvas dark_palette.canvas
    then (
      record (new_theme light_palette) { density = read_density d db },
      (set_setting d settings_key_theme settings_theme_light db).1,
    )
    else (
      record (new_theme dark_palette) { density = read_density d db },
      (set_setting d settings_key_theme settings_theme_dark db).1,
    )

unfoldable pub toggle_density : Sqlite → Theme × Db → Theme × Db
toggle_density d (th, db) = elim th.density [
  | compact ↦ (
    record th { density = comfortable },
    (set_setting d settings_key_density settings_density_comfortable db).1,
  )
  | comfortable ↦ (
    record th { density = compact },
    (set_setting d settings_key_density settings_density_compact db).1,
  )
]
