-- ===== src/Store/Search/Ranked.antt =====
-- What a search hands to the full-text extension, and which hits it returns.
use wachat.Prelude.{
  none, text_eq, ◌<◌, ◌≤◌, ◌⊎◌, ◌≡◌, ◌≢◌, some, List, [], ◌∷◌, ◌++◌, map, ◌==◌, nat_eq, find?,
  length, All, if◌then◌else◌, Runes,
}
use wachat.Prelude.Tables.{at_key}
use wachat.Store.Schema.{Db, text_or_empty}
use wachat.Store.Search.{SearchHit, Joined}

-- A hit of this rank and time is to be shown before the other: its rank is less, or the ranks are
-- equal and it is not older.
abbrev pub IsBefore : Joined → Joined → Type 0
IsBefore x y = (x.found.rank < y.found.rank) ⊎ ((x.found.rank ≡ y.found.rank) × y.row.ts ≤ x.row.ts)

-- The hit of a stored message that matched.
abbrev pub hit_of : Db → Joined → SearchHit
hit_of db j = record {
  chat_jid = j.row.chat_jid;
  chat_name = elim (find? (λ c. c.jid == j.row.chat_jid) db.chats) [ none ↦ "" | some c ↦ c.name ];
  message_id = j.row.id;
  wa_id = j.row.wa_id;
  ts = j.row.ts;
  sender_jid = text_or_empty j.row.sender_jid;
  snippet = j.found.snippet;
}

abbrev no_quotes : Runes → Runes
no_quotes q = map (λ c. if c == 34 then 39 else c) q

-- One phrase for a text of this length: a double quote at each end and none between.
pub record IsPhrase (phrase q : Runes) : Type 0 where
  pub inner : Runes
  pub quoted : phrase ≡ 34 ∷ inner ++ 34 ∷ []
  pub no_quote : All (λ c. c ≢ 34) inner
  pub same_length : length inner ≡ length q

-- A joined row is the stored message with the rowid that matched.
abbrev pub IsStored : Db → Joined → Type 0
IsStored db j = find? (at_key (λ r. r.id) j.found.rowid) db.messages ≡ some j.row
