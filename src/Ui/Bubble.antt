-- ===== src/Ui/Bubble.antt =====
-- internal/ui/bubble.go: what a bubble shows, without its colours and sizes.
pub mod Tallies
pub mod Shown
use wachat.Prelude.{
  ℕ, zero, suc, ◌+◌, ◌*◌, ◌/◌, ◌%◌, ◌^◌, String, Bool, true, false, not, ◌&&◌, ◌||◌, Option, none,
  some, List, [], ◌∷◌, ◌++◌, ◌==◌, nat_eq, text_eq, ltb, if◌then◌else◌, Runes, runes, utf8, length,
  take,
}
use wachat.Prelude.Order.{less}
use wachat.Prelude.Sort.{sort_by}
use wachat.Store.Schema.{Message, Reaction}
use wachat.Store.Messages.{
  status_pending, status_sent, status_delivered, status_read, status_played,
}
use wachat.Ui.Grouping.{GroupPosition, solo, head, middle, tail}

pub record Tally : Type 0 where
  pub emoji : String
  pub count : ℕ

-- `counts[r.Emoji]++`
unfoldable pub add_one : String → List Tally → List Tally
add_one e [] = record { emoji = e; count = 1 } ∷ []
add_one e (t ∷ ts) =
    let rest = add_one e ts in
    if t.emoji == e then record t { count = t.count + 1 } ∷ ts else t ∷ rest

unfoldable pub count_all : List Reaction → List Tally → List Tally
unfolding add_one
count_all [] counts = counts
count_all (r ∷ rs) counts = count_all rs (if r.emoji == "" then counts else add_one r.emoji counts)

-- Larger counts first, then the emoji in order.
unfoldable pub larger_first : Tally → Tally → Bool
larger_first a b =
    if a.count == b.count then less (runes a.emoji) (runes b.emoji) else ltb b.count a.count

-- The order in which Go walks the map does not show: the emojis differ, so the sort decides it.
unfoldable pub summarize_reactions : List Reaction → List Tally
unfolding count_all larger_first
summarize_reactions rs = sort_by larger_first (count_all rs [])

-- The loop over a buffer of `room` bytes, which stops when it is full.
unfoldable pub last_digits : ℕ → ℕ → Runes → Runes
last_digits zero n acc = acc
last_digits (suc room) n acc =
    let rest = last_digits room (n / 10) ((48 + n % 10) ∷ acc) in if n == 0 then acc else rest

unfoldable pub reaction_count_text : ℕ → Runes
reaction_count_text n = if n == 0 then runes "0" else last_digits 4 n []

-- The text of a chip.
unfoldable pub chip_text : Tally → Runes
chip_text t =
    if ltb 1 t.count
    then runes t.emoji ++ runes " " ++ reaction_count_text t.count
    else runes t.emoji

unfoldable pub media_type_glyph : String → String × String
media_type_glyph t =
    if t == "image"
    then ("📷", "Photo")
    else if t == "video"
    then ("🎬", "Video")
    else if t == "audio"
    then ("🎙", "Voice note")
    else if t == "document"
    then ("📄", "Document")
    else if t == "sticker"
    then ("🎴", "Sticker")
    else ("📎", "Attachment")

-- The text, and whether it is in italics.
unfoldable pub bubble_body_text : Message → Runes × Bool
bubble_body_text m =
    if m.revoked
    then (runes "🚫 message deleted", true)
    else if m.edited
    then if m.body == ""
      then (runes "(edited)", true)
      else (runes m.body ++ runes "  (edited)", false)
    else (runes m.body, false)

-- The glyph, and whether it is in the accent color.
unfoldable pub receipt_glyph : String → String × Bool
receipt_glyph status =
    if status == status_pending
    then ("⏱", false)
    else if status == status_sent
    then ("✓", false)
    else if status == status_delivered
    then ("✓✓", false)
    else if status == status_read || status == status_played
    then ("✓✓", true)
    else ("", false)

-- The row at the bottom: the time, a star, a tick.
pub data Mark : Type 0 where
  time : ℕ → Mark
  star : Mark
  tick : String → Bool → Mark

unfoldable pub bubble_meta : Message → Bool → List Mark
unfolding receipt_glyph
bubble_meta m from_me =
    let (glyph, accent) = receipt_glyph m.status in
    time m.ts ∷ (if m.starred then star ∷ [] else [])
    ++ (if from_me && not (glyph == "") then tick glyph accent ∷ [] else [])

-- The decoded image, or a pill with a glyph and a label.
pub data Media (Image : Type 0) : Type 0 where
  thumbnail : Image → Media Image
  pill : String → String → Media Image

unfoldable pub media_block : {Image : Type 0} → Message → Option Image → Media Image
unfolding media_type_glyph
media_block m (some image) = thumbnail image
media_block m none = let (glyph, label) = media_type_glyph m.media_type in pill glyph label

-- The bytes of a URL: the host that net/url finds in it, or else its first 60 bytes.
unfoldable pub link_host : (List ℕ → Option (List ℕ)) → List ℕ → List ℕ
link_host host_of [] = []
link_host host_of (b ∷ u) = elim (host_of (b ∷ u)) [
  | some h ↦ h
  | none ↦ if ltb 60 (length (b ∷ u)) then take 60 (b ∷ u) ++ utf8 (runes "…") else b ∷ u
]

-- The card of a link: its lines.
pub data CardLine : Type 0 where
  title : String → CardLine
  description : String → CardLine
  host : List ℕ → CardLine

abbrev pub unless_empty : {A : Type 0} → String → A → List A
unless_empty s x = if s == "" then [] else x ∷ []

abbrev pub host_line : List ℕ → List CardLine
host_line [] = []
host_line (b ∷ h) = host (b ∷ h) ∷ []

unfoldable pub link_preview : (List ℕ → Option (List ℕ)) → Message → List CardLine
unfolding link_host
link_preview host_of m =
    unless_empty m.link_title (title m.link_title)
    ++ unless_empty m.link_desc (description m.link_desc)
    ++ host_line (link_host host_of (utf8 (runes m.link_url)))

-- The children of a bubble, top to bottom.
pub data Section (Image : Type 0) : Type 0 where
  sender : String → Section Image
  quoted : String → String → Section Image
  media : Media Image → Section Image
  link : List CardLine → Section Image
  body : Runes → Bool → Section Image
  meta : List Mark → Section Image
  reactions : List Tally → Section Image

-- `senderText := m.QuotedSender; if senderText == "" { senderText = "Quoted" }`
unfoldable pub quoted_block : {Image : Type 0} → Message → Section Image
quoted_block m = quoted (if m.quoted_sender == "" then "Quoted" else m.quoted_sender) m.quoted_body

abbrev pub only : {A : Type 0} → Bool → A → List A
only b x = if b then x ∷ [] else []

abbrev pub is_first : GroupPosition → Bool
is_first head = true
is_first solo = true
is_first middle = false
is_first tail = false

abbrev pub has_reactions : List Reaction → Bool
has_reactions [] = false
has_reactions (r ∷ rs) = true

abbrev pub body_section : {Image : Type 0} → Runes × Bool → List (Section Image)
body_section ([], italic) = []
body_section (c ∷ cs, italic) = body (c ∷ cs) italic ∷ []

unfoldable pub bubble_sections :
    {Image : Type 0}
    → (List ℕ → Option (List ℕ))
    → Message
    → GroupPosition
    → Bool
    → String
    → List Reaction
    → Option Image
    → List (Section Image)
unfolding quoted_block media_block link_preview bubble_body_text bubble_meta summarize_reactions
bubble_sections host_of m group from_me sender_label rs image =
    only (not (sender_label == "") && is_first group) (sender sender_label)
    ++ only (not (m.quoted_body == "") || not (m.quoted_waid == "")) (quoted_block m)
    ++ only (not (m.media_type == "")) (media (media_block m image))
    ++ only (m.media_type == "" && (not (m.link_url == "") || not (m.link_title == "")))
        (link (link_preview host_of m))
    ++ body_section (bubble_body_text m)
    ++ meta (bubble_meta m from_me) ∷ only (has_reactions rs) (reactions (summarize_reactions rs))
