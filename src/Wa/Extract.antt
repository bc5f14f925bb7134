-- ===== src/Wa/Extract.antt =====
-- internal/wa/history.go, media.go and handler.go: texts, quotes and attachments of a message.
use wachat.Prelude.{
  ℕ, String, Bool, Option, none, some, List, [], ◌∷◌, ◌==◌, text_eq, nat_eq, if◌then◌else◌,
}
use wachat.Wa.Proto.{Proto, Attachment, MessageKey, MessageReceived}

pub record MessageEvent : Type 0 where
  pub wa_id : String
  pub chat_jid : String
  pub sender_jid : String
  pub ts : ℕ
  pub body : String
  pub from_me : Bool
  pub quoted_waid : String
  pub quoted_body : String
  pub quoted_sender : String
  pub media_path : String
  pub media_type : String
  pub duration_secs : ℕ
  pub file_size : ℕ
  pub file_name : String
  pub link_url : String
  pub link_title : String
  pub link_desc : String

pub record MediaInfo : Type 0 where
  pub media_type : String
  pub caption : String
  pub thumbnail_jpeg : List ℕ
  pub duration_secs : ℕ
  pub file_size : ℕ
  pub file_name : String

abbrev pub no_media : MediaInfo
no_media = record {
  media_type = "";
  caption = "";
  thumbnail_jpeg = [];
  duration_secs = 0;
  file_size = 0;
  file_name = "";
}

abbrev pub media_type_image : String
media_type_image = "image"

abbrev pub media_type_video : String
media_type_video = "video"

abbrev pub media_type_audio : String
media_type_audio = "audio"

abbrev pub media_type_document : String
media_type_document = "document"

abbrev pub media_type_sticker : String
media_type_sticker = "sticker"

unfoldable pub sender_from_key : MessageKey → String → String → String
sender_from_key key chat_jid own_jid =
    if key.from_me then own_jid else if key.participant == "" then chat_jid else key.participant

module _ (p : Proto) where
  unfoldable pub extract_body : Option p.Message → String
  extract_body none = ""
  extract_body (some m) =
      if p.conversation m == ""
      then elim (p.extended_text m) [ none ↦ "" | some e ↦ p.text e ]
      else p.conversation m

  -- (waID, body, sender)
  unfoldable pub extract_quoted : Option p.Message → String × String × String
  unfolding extract_body
  extract_quoted none = ("", "", "")
  extract_quoted (some m) = elim (p.extended_text m) [
    | none ↦ ("", "", "")
    | some ext ↦ elim (p.context_info ext) [
      | none ↦ ("", "", "")
      | some ctx ↦ elim (p.quoted_message ctx) [
        | none ↦ ("", "", "")
        | some q ↦ (p.stanza_id ctx, extract_body (some q), p.participant ctx)
      ]
    ]
  ]

  abbrev pub picture : String → Attachment → MediaInfo
  picture kind a = record no_media {
    media_type = kind;
    caption = a.caption;
    thumbnail_jpeg = a.jpeg_thumbnail;
  }

  abbrev pub document_name : Attachment → String
  document_name a = if a.file_name == "" then a.title else a.file_name

  abbrev pub file : Attachment → MediaInfo
  file a = record {
    media_type = media_type_document;
    caption = document_name a;
    thumbnail_jpeg = a.jpeg_thumbnail;
    duration_secs = 0;
    file_size = a.file_length;
    file_name = document_name a;
  }

  abbrev pub sound : Attachment → MediaInfo
  sound a = record no_media {
    media_type = media_type_audio;
    duration_secs = a.seconds;
    file_size = a.file_length;
  }

  -- The first kind of attachment that the message has.
  unfoldable pub extract_media : Option p.Message → MediaInfo
  extract_media none = no_media
  extract_media (some m) = elim (p.image m) [
    | some a ↦ picture media_type_image a
    | none ↦ elim (p.video m) [
      | some a ↦ picture media_type_video a
      | none ↦ elim (p.audio m) [
        | some a ↦ sound a
        | none ↦ elim (p.document m) [
          | some a ↦ file a
          | none ↦ elim (p.sticker m) [
            | some a ↦ record no_media { media_type = media_type_sticker }
            | none ↦ no_media
          ]
        ]
      ]
    ]
  ]

  -- writeThumbnail, over the file system: the answer is the path of a file that is written, or none
  -- where that fails. Empty input and an empty id write nothing.
  unfoldable pub write_thumbnail :
      (String → List ℕ → Option String) → String → List ℕ → Option String
  write_thumbnail write wa_id [] = some ""
  write_thumbnail write wa_id (b ∷ bs) = if wa_id == "" then some "" else write wa_id (b ∷ bs)

  abbrev pub add_media : (String → List ℕ → Option String) → MediaInfo → MessageEvent → MessageEvent
  add_media write mi ev = record ev {
    media_type = mi.media_type;
    duration_secs = mi.duration_secs;
    file_size = mi.file_size;
    file_name = mi.file_name;
    body = if mi.caption == "" then ev.body else mi.caption;
    media_path = elim (write_thumbnail write ev.wa_id mi.thumbnail_jpeg) [
      | none ↦ ev.media_path
      | some path ↦ path
    ];
  }

  abbrev pub add_link : Option p.Message → MessageEvent → MessageEvent
  add_link none ev = ev
  add_link (some m) ev = elim (p.extended_text m) [
    | none ↦ ev
    | some ext ↦ record ev {
      link_url = p.matched_text ext;
      link_title = p.link_title ext;
      link_desc = p.description ext;
    }
  ]

  unfoldable pub from_wm_message :
      (String → List ℕ → Option String) → MessageReceived p → MessageEvent
  unfolding extract_quoted extract_body extract_media write_thumbnail
  from_wm_message write e =
      let (quoted_waid, quoted_body, quoted_sender) = extract_quoted e.message in
      let ev : MessageEvent = record {
        wa_id = e.info.id;
        chat_jid = e.info.chat;
        sender_jid = e.info.sender;
        ts = e.info.timestamp_ms;
        body = extract_body e.message;
        from_me = e.info.is_from_me;
        quoted_waid = quoted_waid;
        quoted_body = quoted_body;
        quoted_sender = quoted_sender;
        media_path = "";
        media_type = "";
        duration_secs = 0;
        file_size = 0;
        file_name = "";
        link_url = "";
        link_title = "";
        link_desc = "";
      } in
      let mi = extract_media e.message in
      add_link e.message (if mi.media_type == "" then ev else add_media write mi ev)
