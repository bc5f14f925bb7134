-- ===== src/Main/Frame/Sound.antt =====
-- No frame breaks the invariant of the database.
use wachat.Prelude.{
  ℕ, ◌+◌, ◌<◌, String, ◌≡◌, refl, sym, ap, subst, ◌&&◌, not, Bool, true, false, Bool-cases, inl,
  inr, some, List, ◌++◌, ◌==◌, text_eq, length, Runes,
}
use wachat.Store.Schema.{Sqlite, Db, FtsRow, exec}
use wachat.Store.Exec.Keeps.{Keeps-bind, Keeps-pure, Keeps-refuse_if, Keeps-write}
use wachat.Store.Exec.{refuse_if, key, chat_jid, wa_id, Exec, Result, ok, err}
use wachat.Store.Reads.{Reads}
use wachat.Store.Settings.{set_setting}
use wachat.Store.Messages.{insert}
use wachat.Store.Messages.Updates.{IsSound}
use wachat.Store.Sound.{insert-IsSound}
use wachat.Store.Search.{Match}
use wachat.Ui.State.{State, add_optimistic, outgoing, select_chat, load_older, jump_to_message}
use wachat.Ui.State.Search.{search_results}
use wachat.Ui.Theme.{Theme, same_color, dark_palette}
use wachat.Ui.Layout.Keeps.{IsKept, layout-Keeps}
use wachat.Ui.State.Reads.{
  select_chat-Reads, load_older-Reads, jump_to_message-Reads, search_results-Reads,
}
use wachat.Wa.Extract.{MessageEvent}
use wachat.Ui.Draw.{Tree}
use wachat.Ui.Layout.{View, Input}
use wachat.Ui.Pairing.{PairingView, ConnState}
use wachat.Main.Drain.{together, after_all, toasts_of, drain-IsDrained}
use wachat.Main.{
  Toast, on_send, or_old, toggle_theme, toggle_density, settings_key_theme, settings_theme_light,
  settings_theme_dark, settings_key_density, settings_density_comfortable, settings_density_compact,
}
use wachat.Main.Send.{pending, after_send}
use wachat.Main.Themes.{Density-cases}
use wachat.Main.Frame.{
  App, is_ready, after_drain, next_id, callbacks, reads, render_root, frame, on_select_chat,
  on_near_end, on_search, on_jump_to_message, on_send_message, on_toggle_theme, on_toggle_density,
  on_back,
}

set_setting-IsSound :
    (d : Sqlite) (k v : String) (db : Db) → IsSound db → IsSound (set_setting d k v db).1
unfolding set_setting
set_setting-IsSound d k v db h =
    (Keeps-write IsSound (k == "") key d exec _ λ db h. record {
      well_formed = record {
        positive = h.well_formed.positive;
        rowids = h.well_formed.rowids;
        unique = h.well_formed.unique;
        covered = h.well_formed.covered;
      };
      in_sync = h.in_sync;
    }).at
      db h

add_optimistic-IsSound :
    (d : Sqlite) (w chat body : String) (ts : ℕ) (st : State) (db : Db)
    → IsSound db
    → IsSound (add_optimistic d w chat body ts st db).1
unfolding add_optimistic outgoing
add_optimistic-IsSound d w chat body ts st db h =
    (Keeps-bind IsSound (refuse_if (chat == "") chat_jid) _
        (Keeps-refuse_if IsSound (chat == "") chat_jid)
        λ u.
          Keeps-bind IsSound (refuse_if (w == "") wa_id) _ (Keeps-refuse_if IsSound (w == "") wa_id)
            λ u.
              Keeps-bind IsSound (insert d (pending w chat body ts) false) _
                (insert-IsSound d (pending w chat body ts) false)
                λ c. Keeps-pure IsSound (after_send w chat body ts st)).at
      db h

-- What an action leaves, when its error is logged.
or_old-db : {A : Type 0} (old : A) (r : Result A × Db) → (or_old old r).1 ≡ r.1
or_old-db old (ok a, db) = refl
or_old-db old (err e, db) = refl

or_old-IsSound : {A : Type 0} (old : A) (r : Result A × Db) → IsSound r.1 → IsSound (or_old old r).1
or_old-IsSound old r h = subst IsSound (sym (or_old-db old r)) h

read-IsSound :
    {A : Type 0} (old : A) (m : Exec A) (db : Db)
    → Reads m
    → IsSound db
    → IsSound (or_old old (m db)).1
read-IsSound old m db same h = or_old-IsSound old (m db) (subst IsSound (sym (same db)) h)

on_send-IsSound :
    (d : Sqlite) (local_id : ℕ → String) (generated chat body : String) (ts : ℕ) (st : State)
    (db : Db)
    → IsSound db
    → IsSound (on_send d local_id generated chat body ts (st, db)).1
unfolding on_send
on_send-IsSound d local_id generated chat body ts st db h =
    or_old-IsSound st _ (add_optimistic-IsSound d _ chat body ts st db h)

toggle_theme-IsSound :
    (d : Sqlite) (th : Theme) (db : Db) → IsSound db → IsSound (toggle_theme d (th, db)).1
unfolding toggle_theme
toggle_theme-IsSound d th db h =
    elim (Bool-cases (same_color th.palette.canvas dark_palette.canvas)) [
      | inl e ↦ rw e (set_setting-IsSound d settings_key_theme settings_theme_light db h)
      | inr e ↦ rw e (set_setting-IsSound d settings_key_theme settings_theme_dark db h)
    ]

toggle_density-IsSound :
    (d : Sqlite) (th : Theme) (db : Db) → IsSound db → IsSound (toggle_density d (th, db)).1
unfolding toggle_density
toggle_density-IsSound d th db h = elim (Density-cases th.density) [
  | inl e ↦ rw e (set_setting-IsSound d settings_key_density settings_density_comfortable db h)
  | inr e ↦ rw e (set_setting-IsSound d settings_key_density settings_density_compact db h)
]

module _ (drivers : ℕ → Sqlite) (matches : Runes → List FtsRow → List Match) (local_id : ℕ → String)
    (as_text : Runes → String) (connected : Bool) (ts : ℕ) where
  abbrev HasSoundDb : App → Type 0
  HasSoundDb a = IsSound a.db

  callbacks-IsKept : IsKept HasSoundDb (callbacks drivers matches local_id as_text connected ts)
  unfolding callbacks on_select_chat on_near_end on_search on_jump_to_message on_send_message
      on_toggle_theme on_toggle_density on_back
  callbacks-IsKept = record {
    select_chat = λ jid a h.
        read-IsSound a.state (select_chat (drivers a.calls) jid a.state) a.db
          (select_chat-Reads (drivers a.calls) jid a.state) h;
    near_end = λ a h.
        read-IsSound (0, a.state) (load_older (drivers a.calls) a.state) a.db
          (load_older-Reads (drivers a.calls) a.state) h;
    send = λ chat body a h.
        on_send-IsSound (drivers a.calls) local_id (next_id a.minted).0 chat (as_text body) ts
          a.state a.db h;
    search = λ query a h.
        read-IsSound a.results (search_results matches (drivers a.calls) query) a.db
          (search_results-Reads (drivers a.calls) matches query) h;
    jump = λ hit a h.
        read-IsSound a.state (jump_to_message (drivers a.calls) hit.chat_jid hit.message_id a.state)
          a.db (jump_to_message-Reads (drivers a.calls) hit.chat_jid hit.message_id a.state) h;
    toggle_theme = λ a h. toggle_theme-IsSound (drivers a.calls) a.theme a.db h;
    toggle_density = λ a h. toggle_density-IsSound (drivers a.calls) a.theme a.db h;
    back = λ a h. h;
  }

  render_root-IsSound :
      (ev : Input) (pairing : PairingView) (needs_pairing : Bool) (conn : ConnState) (v : View)
      (a : App)
      → IsSound a.db
      → IsSound
          (render_root drivers matches local_id as_text connected ts ev pairing needs_pairing conn v
            a).2.db
  unfolding render_root
  render_root-IsSound ev pairing needs_pairing conn v a h =
      elim (Bool-cases (
        needs_pairing
        && not (is_ready drivers matches local_id as_text connected ts pairing.phase))) [
          | inl e ↦ rw e h
          | inr e ↦ rw e (
              layout-Keeps HasSoundDb reads
                (callbacks drivers matches local_id as_text connected ts) callbacks-IsKept ev v a h)
        ]

  -- With more fuel than there are events in the channel and yet to arrive, a round of the frame loop
  -- ends, and from a sound database it leaves a sound one: whatever arrives, whatever keys and
  -- clicks the frame handles, and whatever fails in the driver, which may answer differently at
  -- each call of a callback.
  pub frame-IsSound :
      (clock : ℕ → ℕ) (fuel : ℕ) (arrivals : List (List MessageEvent)) (queue : List MessageEvent)
      (ev : Input) (pairing : PairingView) (needs_pairing : Bool) (conn : ConnState) (v : View)
      (a : App)
      → length queue + length (together arrivals) < fuel
      → IsSound a.db
      → (toasts : List Toast) × (shown : Tree × Bool) × (v' : View) × (a' : App) × (frame drivers
            matches local_id as_text connected ts clock fuel arrivals queue ev pairing needs_pairing
            conn v a
          ≡ some (toasts, shown, v', a'))
        × IsSound a'.db
  unfolding frame
  frame-IsSound clock fuel arrivals queue ev pairing needs_pairing conn v a enough h =
      let drained = drain-IsDrained clock fuel arrivals queue a.state enough in
      let st = after_all (queue ++ drained.more) a.state in
      let start : App = record a { state = st; drawn = a.theme; same_theme = true } in
      let r =
        render_root drivers matches local_id as_text connected ts ev pairing needs_pairing conn v
          start in
      (
        toasts_of clock (queue ++ drained.more) a.state,
        r.0,
        r.1,
        r.2,
        ap
            (after_drain drivers matches local_id as_text connected ts ev pairing needs_pairing conn
              v a)
            drained.done,
        render_root-IsSound ev pairing needs_pairing conn v start h,
      )
