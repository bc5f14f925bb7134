-- ===== src/Tests/Bubble.antt =====
-- A deleted photo, and the reactions on it.
use wachat.Prelude.{
  ◌≡◌, ◌%◌, refl, String, ℕ, Bool, runes, true, false, not, ◌==◌, text_eq, Option, none, List, [],
  ◌∷◌, any,
}
use wachat.Prelude.Sort.{sort_by, insert_by}
use wachat.Store.Schema.{Message, Reaction}
use wachat.Wa.Format.Digits.{reads}
use wachat.Ui.Grouping.{solo}
use wachat.Ui.Bubble.{
  Tally, bubble_sections, add_one, count_all, larger_first, summarize_reactions,
  reaction_count_text,
}
use wachat.Ui.Bubble.Shown.{is_media, revoked_hides_text, reaction_count_text_lem}
use wachat.Prelude.Int.{pos}
use wachat.Ui.State.{ChatSummary}
use wachat.Ui.Bubble.{last_digits}
use wachat.Ui.View.{decorate_name, display_name}
use wachat.Ui.Rows.{chat_subtitle, human_time}
use wachat.Tests.Data.{hello}

abbrev deleted : Message
deleted = record hello { revoked = true; media_type = "image" }

abbrev reaction : String → String → Reaction
reaction sender emoji = record { target_waid = "w1"; sender_jid = sender; emoji = emoji; ts = 1 }

abbrev liked : List Reaction
liked = reaction "bob" "+" ∷ reaction "carol" "" ∷ reaction "dave" "!" ∷ reaction "erin" "+" ∷ []

abbrev whole_link : List ℕ → Option (List ℕ)
whole_link u = none

revoked_hides_text_example :
    ((text : String) (edited : Bool)
      → bubble_sections {Image = String} whole_link
          (record deleted { body = text; edited = edited })
          solo
          true
          ""
          liked
          none
        ≡ bubble_sections {Image = String} whole_link deleted solo true "" liked none)
    × (any is_media (bubble_sections {Image = String} whole_link deleted solo true "" liked none)
        ≡ not (deleted.media_type == ""))
revoked_hides_text_example =
    revoked_hides_text {Image = String} whole_link deleted solo true "" liked none refl

reaction_count_text_lem_example : reads (reaction_count_text 123456) 0 ≡ 123456 % 10000
reaction_count_text_lem_example = reaction_count_text_lem 123456

abbrev tally : List Tally
tally = record { emoji = "+"; count = 2 } ∷ record { emoji = "!"; count = 1 } ∷ []

summary_of_liked : summarize_reactions liked ≡ tally
unfolding summarize_reactions add_one count_all larger_first sort_by insert_by
summary_of_liked = refl

abbrev three_unread : ChatSummary
three_unread = record {
  jid = "alice";
  name = "";
  last_ts = 1000;
  unread = 3;
  pinned = true;
  archived = false;
  mute_until = pos 0;
}

-- Two minutes later.
subtitle_unread : chat_subtitle (λ ts. []) 121000 three_unread ≡ runes "2m ago · 3 unread"
unfolding chat_subtitle human_time last_digits
subtitle_unread = refl

pinned_name : decorate_name three_unread ≡ runes "📌 alice"
unfolding decorate_name display_name
pinned_name = refl
