-- ===== src/Ui/Layout/Keeps.antt =====
-- A frame changes the caller's state by its callbacks alone: what they keep, a frame keeps.
use wachat.Prelude.{
  ℕ, zero, suc, String, Bool, true, false, Bool-cases, Option, none, some, inl, inr, List, [], ◌∷◌,
  ◌==◌, text_eq, nat_eq, get_elem?, length, if◌then◌else◌, Runes, trim_space,
}
use wachat.Store.Search.{SearchHit}
use wachat.Ui.State.{ChatSummary}
use wachat.Ui.Composer.{KeyEvent}
use wachat.Ui.Layout.{
  ViewCallbacks, Reads, View, Input, fire, select_at, select_clicked, jump_to, jump_clicked,
  submit_queries, send_all, handle_chat_clicks, handle_header_clicks, layout_sidebar, hits_of,
  handle_composer, if_set_select, if_set_jump, if_set_search, if_set_send, layout_below,
  layout_conversation, layout_narrow, layout_wide, trigger_paging, is_narrow, layout,
}
use wachat.Ui.Draw.{Tree}

-- A callback that is set keeps `P`.
abbrev pub Kept {κ} : {S : Type 0} → (S → Type κ) → Option (S → S) → Type κ
Kept P none = Unit
Kept P (some f) = (s : _) → P s → P (f s)

abbrev pub KeptAt {κ} : {S A : Type 0} → (S → Type κ) → Option (A → S → S) → Type κ
KeptAt P none = Unit
KeptAt {A = A} P (some f) = (a : A) (s : _) → P s → P (f a s)

abbrev pub KeptSend {κ} : {S : Type 0} → (S → Type κ) → Option (String → Runes → S → S) → Type κ
KeptSend P none = Unit
KeptSend P (some f) = (chat : String) (body : Runes) (s : _) → P s → P (f chat body s)

pub record IsKept {κ} {S : Type 0} (P : S → Type κ) (cb : ViewCallbacks S) : Type κ where
  pub select_chat : KeptAt P cb.on_select_chat
  pub near_end : Kept P cb.on_near_end
  pub send : KeptSend P cb.on_send
  pub search : KeptAt P cb.on_search
  pub jump : KeptAt P cb.on_jump_to_message
  pub toggle_theme : Kept P cb.on_toggle_theme
  pub toggle_density : Kept P cb.on_toggle_density
  pub back : Kept P cb.on_back

module _ {κ} {S : Type 0} (P : S → Type κ) (reads : Reads S) (cb : ViewCallbacks S) where
  if-Keeps : (b : Bool) (s t : S) → P s → P t → P (if b then s else t)
  if-Keeps true s t h k = h
  if-Keeps false s t h k = k

  if-tree-Keeps : (b : Bool) (r t : Tree × View × S) → P r.2 → P t.2 → P (if b then r else t).2
  if-tree-Keeps true r t h k = h
  if-tree-Keeps false r t h k = k

  fire-Keeps : (f : Option (S → S)) → Kept P f → (b : Bool) (s : S) → P s → P (fire reads f b s)
  fire-Keeps none k b s h = h
  fire-Keeps (some f) k b s h = if-Keeps b (f s) s (k s h) h

  module _ (f : String → S → S) (k : KeptAt P (some f)) (clicked : ℕ → Bool) where
    select_at-Keeps : (c : Option ChatSummary) (s : S) → P s → P (select_at reads f c s)
    select_at-Keeps none s h = h
    select_at-Keeps (some c) s h = k c.jid s h

    select_clicked-Keeps : (n i : ℕ) (s : S) → P s → P (select_clicked reads f clicked n i s)
    unfolding select_clicked
    select_clicked-Keeps zero i s h = h
    select_clicked-Keeps (suc n) i s h =
        select_clicked-Keeps n (suc i) _
          (if-Keeps (clicked i) _ s (select_at-Keeps (get_elem? (reads.state s).chats i) s h) h)

  module _ (f : SearchHit → S → S) (k : KeptAt P (some f)) (clicked : ℕ → Bool) where
    jump_to-Keeps : (c : Option SearchHit) (s : S) → P s → P (jump_to reads f c s)
    jump_to-Keeps none s h = h
    jump_to-Keeps (some c) s h = k c s h

    jump_clicked-Keeps : (n i : ℕ) (s : S) → P s → P (jump_clicked reads f clicked n i s)
    unfolding jump_clicked
    jump_clicked-Keeps zero i s h = h
    jump_clicked-Keeps (suc n) i s h = jump_clicked-Keeps n (suc i) _ (
        if-Keeps (clicked i) _ s (jump_to-Keeps (get_elem? (hits_of reads (reads.results s)) i) s h)
          h)

  submit_queries-Keeps :
      (f : Runes → S → S)
      → KeptAt P (some f)
      → (es : List KeyEvent) (query : Runes) (s : S) → P s
      → P (submit_queries reads f es query s)
  unfolding submit_queries
  submit_queries-Keeps f k [] query s h = h
  submit_queries-Keeps f k (e ∷ es) query s h =
      submit_queries-Keeps f k es query _ (if-Keeps e.is_press _ s (k (trim_space query) s h) h)

  send_all-Keeps :
      (f : String → Runes → S → S)
      → KeptSend P (some f)
      → (bs : List Runes) (s : S) → P s
      → P (send_all reads f bs s)
  unfolding send_all
  send_all-Keeps f k [] s h = h
  send_all-Keeps f k (b ∷ bs) s h = send_all-Keeps f k bs _ (k (reads.state s).selected_chat b s h)

  if_set_select-Keeps :
      (f : Option (String → S → S))
      → KeptAt P f
      → (clicked : ℕ → Bool) (n : ℕ) (s : S) → P s
      → P (if_set_select reads f clicked n s)
  if_set_select-Keeps none k clicked n s h = h
  if_set_select-Keeps (some f) k clicked n s h = select_clicked-Keeps f k clicked n 0 s h

  if_set_jump-Keeps :
      (f : Option (SearchHit → S → S))
      → KeptAt P f
      → (clicked : ℕ → Bool) (n : ℕ) (s : S) → P s
      → P (if_set_jump reads f clicked n s)
  if_set_jump-Keeps none k clicked n s h = h
  if_set_jump-Keeps (some f) k clicked n s h = jump_clicked-Keeps f k clicked n 0 s h

  if_set_search-Keeps :
      (f : Option (Runes → S → S))
      → KeptAt P f
      → (keys : List KeyEvent) (query : Runes) (s : S) → P s
      → P (if_set_search reads f keys query s)
  if_set_search-Keeps none k keys query s h = h
  if_set_search-Keeps (some f) k keys query s h = submit_queries-Keeps f k keys query s h

  if_set_send-Keeps :
      (f : Option (String → Runes → S → S))
      → KeptSend P f
      → (bodies : List Runes) (s : S) → P s
      → P (if_set_send reads f bodies s)
  if_set_send-Keeps none k bodies s h = h
  if_set_send-Keeps (some f) k bodies s h = send_all-Keeps f k bodies s h

  module _ (kept : IsKept P cb) (ev : Input) where
    handle_header_clicks-Keeps : (s : S) → P s → P (handle_header_clicks reads cb ev s)
    unfolding handle_header_clicks
    handle_header_clicks-Keeps s h = fire-Keeps cb.on_back kept.back ev.back_clicked _ (
        fire-Keeps cb.on_toggle_density kept.toggle_density ev.density_clicked _
          (fire-Keeps cb.on_toggle_theme kept.toggle_theme ev.theme_clicked s h))

    layout_below-Keeps :
        (v : View) (results : Option (List SearchHit)) (s : S)
        → P s
        → P (layout_below reads cb ev v results s).2
    unfolding layout_below
    layout_below-Keeps v none s h = h
    layout_below-Keeps v (some hits) s h =
        if_set_jump-Keeps cb.on_jump_to_message kept.jump _ (length hits) s h

    layout_sidebar-Keeps : (v : View) (s : S) → P s → P (layout_sidebar reads cb ev v s).2
    unfolding layout_sidebar
    layout_sidebar-Keeps v s h =
        layout_below-Keeps v _ _
          (if_set_search-Keeps cb.on_search kept.search ev.search_keys v.search_text s h)

    layout_conversation-Keeps : (v : View) (s : S) → P s → P (layout_conversation reads cb ev v s).2
    unfolding layout_conversation handle_composer
    layout_conversation-Keeps v s h = elim (Bool-cases ((reads.state s).selected_chat == "")) [
      | inl e ↦ rw e h
      | inr e ↦ rw e (if_set_send-Keeps cb.on_send kept.send _ s h)
    ]

    layout_narrow-Keeps : (v : View) (s : S) → P s → P (layout_narrow reads cb ev v s).2
    unfolding layout_narrow
    layout_narrow-Keeps v s h =
        if-tree-Keeps ((reads.state s).selected_chat == "") (layout_sidebar reads cb ev v s)
          (layout_conversation reads cb ev v s) (layout_sidebar-Keeps v s h)
          (layout_conversation-Keeps v s h)

    trigger_paging-Keeps : (v : View) (s : S) → P s → P (trigger_paging reads cb ev v s).1
    unfolding trigger_paging
    trigger_paging-Keeps v s h = elim (Bool-cases ((reads.state s).selected_chat == "")) [
      | inl e ↦ rw e h
      | inr e ↦ rw e (fire-Keeps cb.on_near_end kept.near_end _ s h)
    ]

    layout_wide-Keeps : (v : View) (s : S) → P s → P (layout_wide reads cb ev v s).2
    layout_wide-Keeps v s h = trigger_paging-Keeps _ _ (
        layout_conversation-Keeps (layout_sidebar reads cb ev v s).1 _ (layout_sidebar-Keeps v s h))

    handle_chat_clicks-Keeps : (v : View) (s : S) → P s → P (handle_chat_clicks reads cb ev v s).1
    unfolding handle_chat_clicks
    handle_chat_clicks-Keeps v s h = if_set_select-Keeps cb.on_select_chat kept.select_chat _ _ s h

    -- What every callback that is set keeps of the caller's state, a whole frame keeps, whatever
    -- keys and clicks it handles.
    pub layout-Keeps : (v : View) (s : S) → P s → P (layout reads cb ev v s).2
    unfolding layout
    layout-Keeps v s h =
        let v1 = (handle_chat_clicks reads cb ev v s).0 in
        let s1 = (handle_chat_clicks reads cb ev v s).1 in
        let s2 = handle_header_clicks reads cb ev s1 in
        let h2 = handle_header_clicks-Keeps s1 (handle_chat_clicks-Keeps v s h) in
        if-tree-Keeps (is_narrow reads ev) (layout_narrow reads cb ev v1 s2)
          (layout_wide reads cb ev v1 s2) (layout_narrow-Keeps v1 s2 h2)
          (layout_wide-Keeps v1 s2 h2)
