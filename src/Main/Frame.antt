-- ===== src/Main/Frame.antt =====
-- The frame loop of main.go: the callbacks of the view over the store, and one round of the loop.
pub mod Sound
use wachat.Prelude.{
  ℕ, suc, String, Bool, true, false, not, ◌&&◌, Option, none, some, List, [], ◌∷◌, ◌++◌,
  if◌then◌else◌, Runes,
}
use wachat.Store.Schema.{Sqlite, Db, FtsRow}
use wachat.Store.Exec.{Exec, Result, ok, err}
use wachat.Store.Paging.{zero_cursor}
use wachat.Store.Search.{Match, SearchHit}
use wachat.Wa.Extract.{MessageEvent}
use wachat.Ui.State.{State, select_chat, load_older, jump_to_message}
use wachat.Ui.State.Search.{search_results}
use wachat.Ui.Theme.{Theme}
use wachat.Ui.Pairing.{PairingView, PairingPhase, ready, ConnState}
use wachat.Ui.Draw.{Tree, above, flexed, layout_pairing, layout_connection_banner}
use wachat.Ui.Layout.{ViewCallbacks, Reads, View, Input, layout}
use wachat.Main.{
  Toast, Drained, drain_incoming_notify, or_old, on_send, toggle_theme, toggle_density,
}

-- What the callbacks close over, and how many of them have been called. The driver may answer
-- differently at each of these calls: `drivers` gives its answers during the n-th. `connected` is
-- that there is a client to send with. `theme` is the variable, `drawn` the theme that the frame was
-- given, and `same_theme` that both are one object. `minted` are the ids that whatsmeow will generate, none
-- without a connection; `sending` are the goroutines that sends have started.
pub record App : Type 0 where
  pub state : State
  pub results : Option (List SearchHit)
  pub theme : Theme
  pub drawn : Theme
  pub same_theme : Bool
  pub minted : List String
  pub sending : List (String × Runes × String)
  pub db : Db
  pub calls : ℕ

-- The driver during this call, and the application with the call counted.
abbrev pub driver_of : (ℕ → Sqlite) → App → Sqlite
driver_of drivers a = drivers a.calls

abbrev pub reads : Reads App
reads = record { state = λ a. a.state; results = λ a. a.results; theme = λ a. a.drawn }

-- A method of the view-model; an error is logged.
abbrev pub update_state : (State → Exec State) → App → App
update_state m a =
    let (st, db) = or_old a.state (m a.state a.db) in
    record a { state = st; db = db; calls = suc a.calls }

abbrev pub next_id : List String → String × List String
next_id [] = ("", [])
next_id (i ∷ is) = (i, is)

module _ (drivers : ℕ → Sqlite) (matches : Runes → List FtsRow → List Match) (local_id : ℕ → String)
    (as_text : Runes → String) (connected : Bool) (ts : ℕ) where
  unfoldable pub on_select_chat : String → App → App
  unfolding select_chat
  on_select_chat jid a = update_state (select_chat (driver_of drivers a) jid) a

  unfoldable pub on_near_end : App → App
  unfolding load_older
  on_near_end a =
      let ((n, st), db) = or_old (0, a.state) (load_older (driver_of drivers a) a.state a.db) in
      record a { state = st; db = db; calls = suc a.calls }

  unfoldable pub on_search : Runes → App → App
  unfolding search_results
  on_search query a =
      let (found, db) =
        or_old a.results (search_results matches (driver_of drivers a) query a.db) in
      record a { results = found; db = db; calls = suc a.calls }

  unfoldable pub on_jump_to_message : SearchHit → App → App
  unfolding jump_to_message
  on_jump_to_message hit a =
      update_state (jump_to_message (driver_of drivers a) hit.chat_jid hit.message_id) a

  unfoldable pub on_send_message : String → Runes → App → App
  unfolding on_send
  on_send_message chat body a =
      let (generated, rest) = next_id a.minted in
      let ((w, st), db) =
        on_send (driver_of drivers a) local_id generated chat (as_text body) ts (a.state, a.db) in
      record a {
        state = st;
        minted = rest;
        sending = if connected then a.sending ++ (chat, body, w) ∷ [] else a.sending;
        db = db;
        calls = suc a.calls;
      }

  unfoldable pub on_toggle_theme : App → App
  unfolding toggle_theme
  on_toggle_theme a =
      let (th, db) = toggle_theme (driver_of drivers a) (a.theme, a.db) in
      record a { theme = th; same_theme = false; db = db; calls = suc a.calls }

  unfoldable pub on_toggle_density : App → App
  unfolding toggle_density
  on_toggle_density a =
      let (th, db) = toggle_density (driver_of drivers a) (a.theme, a.db) in
      record a {
        theme = th;
        drawn = if a.same_theme then th else a.drawn;
        db = db;
        calls = suc a.calls;
      }

  unfoldable pub on_back : App → App
  on_back a = record a {
    state = record (a.state) {
      selected_chat = "";
      loaded = false;
      messages = [];
      cursor = zero_cursor;
    };
  }

  unfoldable pub callbacks : ViewCallbacks App
  unfolding on_select_chat on_near_end on_search on_jump_to_message on_send_message on_toggle_theme
      on_toggle_density on_back
  callbacks = record {
    on_select_chat = some on_select_chat;
    on_near_end = some on_near_end;
    on_send = some on_send_message;
    on_search = some on_search;
    on_jump_to_message = some on_jump_to_message;
    on_toggle_theme = some on_toggle_theme;
    on_toggle_density = some on_toggle_density;
    on_back = some on_back;
  }

  abbrev pub is_ready : PairingPhase → Bool
  is_ready ready = true
  is_ready PairingPhase.idle = false
  is_ready PairingPhase.waiting_qr = false
  is_ready PairingPhase.scanned = false
  is_ready PairingPhase.syncing = false
  is_ready PairingPhase.failed = false

  -- The tree, the new value of needsPairing, and what the view and its callbacks leave.
  unfoldable pub render_root :
      Input → PairingView → Bool → ConnState → View → App → (Tree × Bool) × View × App
  unfolding layout callbacks layout_pairing layout_connection_banner
  render_root ev pairing needs_pairing conn v a =
      if needs_pairing && not (is_ready pairing.phase)
      then ((layout_pairing a.drawn pairing, true), v, a)
      else (let (tree, v', a') = layout reads callbacks ev v a in
          ((above (layout_connection_banner a.drawn conn) (flexed tree), false), v', a'))

  -- The frame after a drain, with the theme of that time.
  abbrev pub after_drain :
      Input
      → PairingView
      → Bool
      → ConnState
      → View
      → App
      → Option Drained
      → Option (List Toast × (Tree × Bool) × View × App)
  after_drain ev pairing needs_pairing conn v a none = none
  after_drain ev pairing needs_pairing conn v a (some r) =
      let (shown, v', a') =
        render_root ev pairing needs_pairing conn v
          (record a { state = r.state; drawn = a.theme; same_theme = true }) in
      some (r.toasts, shown, v', a')

  -- A round of the loop that ends with a frame; `clock` is the time at each event of the drain, and
  -- `none` is that the fuel of the drain is spent.
  unfoldable pub frame :
      (ℕ → ℕ)
      → ℕ
      → List (List MessageEvent)
      → List MessageEvent
      → Input
      → PairingView
      → Bool
      → ConnState
      → View
      → App
      → Option (List Toast × (Tree × Bool) × View × App)
  unfolding drain_incoming_notify render_root
  frame clock fuel arrivals queue ev pairing needs_pairing conn v a =
      after_drain ev pairing needs_pairing conn v a
        (drain_incoming_notify clock fuel arrivals queue a.state)
