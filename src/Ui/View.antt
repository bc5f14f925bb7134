-- ===== src/Ui/View.antt =====
-- internal/ui/view.go and the labels of chatrow.go: what the two panes show, and when older
-- messages are asked for.
pub mod Trigger
pub mod Images
use wachat.Prelude.{
  ℕ, zero, suc, ◌+◌, ◌-◌, ◌≡◌, String, Bool, true, false, not, ◌&&◌, ◌||◌, Option, none, some, List,
  [], ◌∷◌, ◌++◌, ◌==◌, nat_eq, text_eq, leb, ltb, find?, get_elem?, strip_suffix, if◌then◌else◌,
  length, Runes, runes,
}
use wachat.Prelude.Int.{ℤ, pos}
use wachat.Prelude.Tables.{at_key, is_some}
use wachat.Media.Cache.{DecodeFn, Cache, decode, release}
use wachat.Store.Schema.{Message, Reaction}
use wachat.Store.Reactions.{Group}
use wachat.Ui.State.{ChatSummary, State, TypingEntry, active_typers, name_for}
use wachat.Ui.Grouping.{GroupPosition, group_messages}
use wachat.Ui.Bubble.{last_digits}

abbrev pub narrow_window_dp : ℕ
narrow_window_dp = 760

abbrev pub near_end_threshold : ℕ
near_end_threshold = 5

-- layout.Position: the first visible row, and how many are visible.
pub record Position : Type 0 where
  pub first : ℕ
  pub count : ℕ

unfoldable pub is_near_oldest_loaded : Position → ℕ → ℕ → Bool
is_near_oldest_loaded p total threshold =
    if total == 0 || p.count == 0 then false else leb p.first threshold

-- Whether OnNearEnd is called, and the new `prevNearEnd`.
unfoldable pub check_paging_trigger : Bool → Position → ℕ → Bool → Bool × Bool
unfolding is_near_oldest_loaded
check_paging_trigger has_callback p total prev =
    let near = is_near_oldest_loaded p total near_end_threshold in
    if has_callback then (near && not prev, near) else (false, false)

-- A frame: the width of the window, where the list stands, and what is loaded of which chat.
pub record Frame : Type 0 where
  pub width_dp : ℕ
  pub position : Position
  pub total : ℕ
  pub selected_chat : String

-- Layout from the test of the width on: a narrow window is left to layoutNarrow, which asks for
-- nothing.
unfoldable pub end_of_frame : Bool → Frame → Bool → Bool × Bool
unfolding check_paging_trigger
end_of_frame has_callback f prev =
    if ltb f.width_dp narrow_window_dp
    then (false, prev)
    else if f.selected_chat == ""
    then (false, false)
    else check_paging_trigger has_callback f.position f.total prev

unfoldable pub is_from_me : Message → String → Bool
is_from_me m own_jid = if own_jid == "" then m.sender_jid == "" else m.sender_jid == own_jid

unfoldable pub display_name : ChatSummary → String
display_name c = if c.name == "" then c.jid else c.name

abbrev pub is_zero_time : ℤ → Bool
is_zero_time (pos zero) = true
is_zero_time (pos (suc n)) = false
is_zero_time (ℤ.negsuc n) = false

unfoldable pub decorate_name : ChatSummary → Runes
unfolding display_name
decorate_name c =
    (if c.pinned then runes "📌 " else [])
    ++ (if is_zero_time c.mute_until then [] else runes "🔇 ")
    ++ runes (display_name c)

unfoldable pub header_name : State → String
header_name st = elim (find? (at_key (λ c. c.jid) st.selected_chat) st.chats) [
  | none ↦ st.selected_chat
  | some c ↦ if c.name == "" then st.selected_chat else c.name
]

-- The first ASCII letter, in upper case.
unfoldable pub initial : Runes → Runes
initial [] = []
initial (c ∷ s) =
    let rest = initial s in
    if leb 97 c && leb c 122 then (c - 32) ∷ [] else if leb 65 c && leb c 90 then c ∷ [] else rest

-- A count above 99 is "99+", so the three bytes of the buffer are enough.
unfoldable pub format_count : ℕ → Runes
unfolding last_digits
format_count n = if ltb 99 n then runes "99+" else if n == 0 then runes "0" else last_digits 3 n []

-- The separators from the third name on: the last one has "and".
unfoldable pub join_rest : List String → Runes
join_rest [] = []
join_rest (s ∷ []) = runes ", and " ++ runes s
join_rest (s ∷ t ∷ rest) = runes ", " ++ runes s ++ join_rest (t ∷ rest)

unfoldable pub join_names : List String → Runes
unfolding join_rest
join_names [] = []
join_names (s ∷ []) = runes s
join_names (s ∷ t ∷ []) = runes s ++ runes " and " ++ runes t
join_names (s ∷ t ∷ u ∷ rest) = runes s ++ join_rest (t ∷ u ∷ rest)

-- At most `room` names, and an ellipsis where there are more.
unfoldable pub typing_names : State → ℕ → List TypingEntry → List String
typing_names st room [] = []
typing_names st zero (e ∷ es) = "…" ∷ []
typing_names st (suc room) (e ∷ es) =
    (if name_for e.sender_jid st == "" then e.sender_jid else name_for e.sender_jid st)
    ∷ typing_names st room es

-- The line above the composer; `none` is that there is none.
unfoldable pub typing_line : State → ℕ → Option Runes
unfolding typing_names join_names
typing_line st now_ms =
    let typers = active_typers st.selected_chat now_ms st in
    if length typers == 0
    then none
    else some (
        join_names (typing_names st 3 typers)
        ++ runes " "
        ++ runes (if ltb 1 (length typers) then "are typing…" else "is typing…"))

-- A row of the message pane: the message, its place in its group, and the label above it.
pub record Row : Type 0 where
  pub message : Message
  pub group : GroupPosition
  pub from_me : Bool
  pub sender_label : String
  pub reactions : List Reaction

unfoldable pub sender_label : Bool → State → Message → String
unfolding is_from_me
sender_label is_group st m =
    if is_group && not (is_from_me m st.own_jid) && not (m.sender_jid == "")
    then if name_for m.sender_jid st == "" then m.sender_jid else name_for m.sender_jid st
    else ""

-- `st.Reactions[m.WAID]`; a nil map has nothing.
abbrev pub reactions_of : String → Option (List Group) → List Reaction
reactions_of w none = []
reactions_of w (some groups) = elim (find? (at_key (λ g. g.target_waid) w) groups) [
  | none ↦ []
  | some g ↦ g.items
]

unfoldable pub is_group : String → Bool
unfolding strip_suffix
is_group chat = is_some (strip_suffix (runes "@g.us") (runes chat))

-- Five minutes.
abbrev pub default_group_window : ℕ
default_group_window = 300000

-- Row `i` of the list shows message `count - 1 - i`.
unfoldable pub row_at : State → ℕ → Option Row
unfolding sender_label is_from_me is_group
row_at st i =
    let idx = length st.messages - 1 - i in
    elim (get_elem? st.messages idx) [
      | none ↦ none
      | some m ↦ elim (get_elem? (group_messages st.messages default_group_window) idx) [
        | none ↦ none
        | some group ↦ some (record {
          message = m;
          group = group;
          from_me = is_from_me m st.own_jid;
          sender_label = sender_label (is_group st.selected_chat) st m;
          reactions = reactions_of m.wa_id st.reactions;
        })
      ]
    ]

-- An image is released at once.
abbrev pub balance :
    {Image : Type 0} → String → Option Image × Cache Image → Option Image × Cache Image
balance path (none, c) = (none, c)
balance path (some i, c) = (some i, release path c)

-- The image under a path: one Decode, and one Release where it succeeds.
unfoldable pub thumbnail_for :
    {Image : Type 0} → DecodeFn Image → String → Cache Image → Option Image × Cache Image
unfolding decode release
thumbnail_for answer path c = if path == "" then (none, c) else balance path (decode answer path c)
