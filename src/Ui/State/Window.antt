-- ===== src/Ui/State/Window.antt =====
-- The open conversation: what SelectChat and LoadOlder show of the history of a chat.
use mathlib.Core.List.{append_assoc, append-nil, map-append}
use wachat.Prelude.{
  ℕ, suc, ◌≡◌, ◌≢◌, refl, sym, ap, ◌∙◌, ◌⊎◌, inl, inr, String, true, false, not, ◌&&◌, Option, none,
  List, [], ◌∷◌, ◌++◌, map, filter, ◌==◌, text_eq, beq_ne, length, take, drop, take-append-drop,
  get_last?-split, get_last?-map, arith,
}
use wachat.Prelude.Int.{pos}
use wachat.Store.Schema.{Message, MessageRow, Db, Sqlite}
use wachat.Store.Exec.{ok, err, Succeeds}
use wachat.Store.WellFormed.{WellFormed}
use wachat.Store.Paging.{Cursor, zero_cursor, is_zero, scan_message, next_cursor, page_older}
use wachat.Store.Paging.Order.{history}
use wachat.Store.Paging.Pages.{
  cursor_of, page_of, page_older-first, page_older-next, is_zero-cursor_of,
}
use wachat.Store.Reactions.{Group, reactions_for_chat}
use wachat.Ui.State.{State, page_size, show_page, reload_reactions, select_chat, load_older}

-- Where the cursor stands, once `seen` is shown and `rest` is not.
pub data IsPlace (seen rest : List MessageRow) (cursor : Cursor) : Type 0 where
  at_start : seen ≡ [] → cursor ≡ zero_cursor → IsPlace seen rest cursor
  at_row :
      (init : List MessageRow) (x : MessageRow)
      → seen ≡ init ++ x ∷ []
      → cursor ≡ cursor_of x
      → IsPlace seen rest cursor
  at_end : (seen ≡ [] → ⊥) → rest ≡ [] → cursor ≡ zero_cursor → IsPlace seen rest cursor

-- The window shows the newest part of the chat's history.
pub record IsWindow (chat : String) (db : Db) (st : State) (seen rest : List MessageRow)
    : Type 0 where
  pub selected : st.selected_chat ≡ chat
  pub whole : history chat db ≡ seen ++ rest
  pub shown : st.messages ≡ map scan_message seen
  pub place : IsPlace seen rest st.cursor

db-reactions_for_chat :
    (d : Sqlite) (ws : List String) (db : Db) → (reactions_for_chat d ws db).1 ≡ db
unfolding reactions_for_chat
db-reactions_for_chat d [] db = refl
db-reactions_for_chat d (w ∷ ws) db = ground arith

List-cases {ℓ} : {A : Type ℓ} (xs : List A) → (xs ≡ []) ⊎ ((y : A) × (ys : List A) × (xs ≡ y ∷ ys))
List-cases [] = inl refl
List-cases (y ∷ ys) = inr (y, ys, refl)

-- Reloading the reactions never fails, and changes them only.
reload_reactions_lem :
    (d : Sqlite) (st : State) (db : Db)
    → (groups : Option (List Group)) × (reload_reactions d st db
        ≡ (ok (record st { reactions = groups }), db))
unfolding reload_reactions
reload_reactions_lem d st db = elim (List-cases st.messages) [
  | inl e ↦ (none, rw e refl)
  | inr (m, ms, e) ↦
      let ids = filter (λ w. not (w == "")) (map (λ m. m.wa_id) (m ∷ ms)) in
      (
        elim ((reactions_for_chat d ids db).0) [ ok groups ↦ groups | err e ↦ st.reactions ],
        rw (e, db-reactions_for_chat d ids db) refl,
      )
]

page_cursor :
    (y : MessageRow) (ys : List MessageRow)
    → (init : List MessageRow) × (z : MessageRow) × (y ∷ ys ≡ init ++ z ∷ [])
      × (next_cursor (map scan_message (y ∷ ys)) ≡ cursor_of z)
unfolding next_cursor scan_message
page_cursor y ys =
    let (init, z, ends, last) = get_last?-split y ys in
    (init, z, ends, rw (get_last?-map scan_message (y ∷ ys) last, next_cursor) refl)

-- The place after one more page.
page-IsPlace :
    (n : ℕ) (seen rest : List MessageRow)
    → IsPlace (seen ++ take (suc n) rest) (drop (suc n) rest) (page_of (take (suc n) rest)).1
unfolding next_cursor
page-IsPlace n seen [] = elim (List-cases seen) [
  | inl e ↦ at_start (rw e refl) refl
  | inr (y, ys, e) ↦ at_end (λ h. ground (arith, e, h)) refl refl
]
page-IsPlace n seen (y ∷ ys) =
    let (init, z, ends, next) = page_cursor y (take n ys) in
    at_row (seen ++ init) z (ap (λ l. seen ++ l) ends ∙ sym (append_assoc seen init (z ∷ []))) next

module _ (d : Sqlite) (s : Succeeds d) (chat : String) (named : chat ≢ "") (db : Db)
    (w : WellFormed db) where
  -- With a driver that works, a well-formed database and a chat with an id that is not open
  -- already: SelectChat succeeds, shows the newest page of the chat's history and puts the cursor
  -- at its end.
  pub select_chat-IsWindow :
      (st : State)
      → (chat == st.selected_chat && st.loaded) ≡ false
      → (st' : State) × (select_chat d chat st db ≡ (ok st', db))
        × IsWindow chat db st' (take page_size (history chat db)) (drop page_size (history chat db))
  unfolding select_chat
  select_chat-IsWindow st closed =
      let page = page_of (take page_size (history chat db)) in
      let (groups, reloaded) = reload_reactions_lem d (show_page chat page st) db in
      (
        record (show_page chat page st) { reactions = groups },
        rw (beq_ne chat "" named, closed, page_older-first d s chat named db 49, reloaded) refl,
        record {
          selected = refl;
          whole = sym (take-append-drop page_size (history chat db));
          shown = refl;
          place = page-IsPlace 49 [] (history chat db);
        },
      )

  more_shown :
      (st : State) (seen rest : List MessageRow) (messages : List Message)
      → IsWindow chat db st seen rest
      → messages ≡ st.messages ++ map scan_message (take page_size rest)
      → messages ≡ map scan_message (seen ++ take page_size rest)
  more_shown st seen rest messages h e =
      e
      ∙ ap (λ l. l ++ map scan_message (take page_size rest)) h.shown
      ∙ sym (map-append scan_message seen (take page_size rest))

  more_whole :
      (st : State) (seen rest : List MessageRow)
      → IsWindow chat db st seen rest
      → history chat db ≡ (seen ++ take page_size rest) ++ drop page_size rest
  more_whole st seen rest h =
      h.whole
      ∙ ap (λ l. seen ++ l) (sym (take-append-drop page_size rest))
      ∙ sym (append_assoc seen (take page_size rest) (drop page_size rest))

  -- LoadOlder shows one page more of what was not shown.
  abbrev pub IsExtended : State → List MessageRow → List MessageRow → Type 0
  IsExtended st seen rest =
      (st' : State) × (load_older d st db
        ≡ (ok (length (map scan_message (take page_size rest)), st'), db))
      × IsWindow chat db st' (seen ++ take page_size rest) (drop page_size rest)

  module _ (st : State) (seen rest : List MessageRow) (h : IsWindow chat db st seen rest) where
    is_selected : (st.selected_chat == "") ≡ false
    is_selected = rw h.selected (beq_ne chat "" named)

    start-IsExtended : seen ≡ [] → st.cursor ≡ zero_cursor → IsExtended st seen rest
    unfolding load_older is_zero
    start-IsExtended e c =
        let page = page_of (take page_size rest) in
        let all : history chat db ≡ rest = h.whole ∙ ap (λ l. l ++ rest) e in
        let first : page_older d st.selected_chat zero_cursor (pos page_size) db ≡ (ok page, db) =
          rw (h.selected) (
            page_older-first d s chat named db 49
            ∙ ap (λ l. (ok (page_of (take page_size l)), db)) all) in
        let none_shown : st.messages ≡ [] = h.shown ∙ ap (map scan_message) e in
        (
          show_page st.selected_chat page st,
          rw (is_selected, c, none_shown, first) refl,
          record {
            selected = h.selected;
            whole = more_whole st seen rest h;
            shown = more_shown st seen rest page.0 h (rw none_shown refl);
            place = page-IsPlace 49 seen rest;
          },
        )

    end-IsExtended : (seen ≡ [] → ⊥) → rest ≡ [] → st.cursor ≡ zero_cursor → IsExtended st seen rest
    unfolding load_older is_zero
    end-IsExtended some_seen none_left c = elim (List-cases seen) [
      | inl e ↦ absurd (some_seen e)
      | inr (y, ys, e) ↦
          let some_shown : st.messages ≡ scan_message y ∷ map scan_message ys =
            h.shown ∙ ap (map scan_message) e in
          (
            st,
            rw (is_selected, c, some_shown, none_left) refl,
            record {
              selected = h.selected;
              whole = more_whole st seen rest h;
              shown =
                  more_shown st seen rest st.messages h
                    (rw none_left (sym (append-nil st.messages)));
              place = rw (none_left, append-nil seen) (at_end some_seen refl c);
            },
          )
    ]

    row-IsExtended :
        (init : List MessageRow) (x : MessageRow)
        → seen ≡ init ++ x ∷ []
        → st.cursor ≡ cursor_of x
        → IsExtended st seen rest
    unfolding load_older
    row-IsExtended init x e c =
        let cut : history chat db ≡ init ++ x ∷ rest =
          h.whole ∙ ap (λ l. l ++ rest) e ∙ append_assoc init (x ∷ []) rest in
        let page = page_of (take page_size rest) in
        let next : page_older d st.selected_chat st.cursor (pos page_size) db ≡ (ok page, db) =
          rw (h.selected, c) (page_older-next d s chat named db w init x rest cut 49) in
        let nonzero : is_zero st.cursor ≡ false = rw c (is_zero-cursor_of chat w init x rest cut) in
        let merged = record st {
          loaded = true;
          messages = st.messages ++ page.0;
          cursor = page.1;
        } in
        let (groups, reloaded) = reload_reactions_lem d merged db in
        (
          record merged { reactions = groups },
          rw (is_selected, nonzero, next, reloaded) refl,
          record {
            selected = h.selected;
            whole = more_whole st seen rest h;
            shown = more_shown st seen rest (st.messages ++ page.0) h refl;
            place = page-IsPlace 49 seen rest;
          },
        )

  -- With a driver that works, a well-formed database and a chat with an id: from a window that
  -- shows the newest part of the chat's history, LoadOlder succeeds, adds the next page of the
  -- history behind it, returns the number of messages added, and leaves such a window again.
  pub load_older-IsWindow :
      (st : State) (seen rest : List MessageRow)
      → IsWindow chat db st seen rest
      → IsExtended st seen rest
  load_older-IsWindow st seen rest h = elim h.place [
    | at_start e c ↦ start-IsExtended st seen rest h e c
    | at_row init x e c ↦ row-IsExtended st seen rest h init x e c
    | at_end some_seen none_left c ↦ end-IsExtended st seen rest h some_seen none_left c
  ]
