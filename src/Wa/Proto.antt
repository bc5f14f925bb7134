-- ===== src/Wa/Proto.antt =====
-- What internal/wa reads of whatsmeow and its protobuf messages, behind their getters, as
-- parameters.
use wachat.Prelude.{ℕ, String, Bool, Option, List}
use wachat.Prelude.Int.{ℤ}

-- The getters that the code calls on an attachment of any kind.
pub record Attachment : Type 0 where
  pub caption : String
  pub jpeg_thumbnail : List ℕ
  pub seconds : ℕ
  pub file_length : ℕ
  pub file_name : String
  pub title : String

-- The types of messages, and their getters; `none` is a nil pointer.
pub record Proto : Type 1 where
  pub Message : Type 0
  pub ExtendedText : Type 0
  pub ContextInfo : Type 0
  pub conversation : Message → String
  pub extended_text : Message → Option ExtendedText
  pub text : ExtendedText → String
  pub matched_text : ExtendedText → String
  pub link_title : ExtendedText → String
  pub description : ExtendedText → String
  pub context_info : ExtendedText → Option ContextInfo
  pub quoted_message : ContextInfo → Option Message
  pub stanza_id : ContextInfo → String
  pub participant : ContextInfo → String
  pub image : Message → Option Attachment
  pub video : Message → Option Attachment
  pub audio : Message → Option Attachment
  pub document : Message → Option Attachment
  pub sticker : Message → Option Attachment

pub record MessageKey : Type 0 where
  pub id : String
  pub from_me : Bool
  pub participant : String

-- waE2E.ProtocolMessage: what the switch tells apart.
pub data ProtocolKind : Type 0 where
  revoke message_edit other_kind : ProtocolKind

-- types.ReceiptType
pub data ReceiptType : Type 0 where
  delivered read read_self played played_self other_receipt : ReceiptType

-- types.MessageInfo
pub record Info : Type 0 where
  pub id : String
  pub chat : String
  pub sender : String
  pub timestamp_ms : ℕ
  pub is_from_me : Bool

pub record ReactionMessage : Type 0 where
  pub key : Option MessageKey
  pub text : String
  pub sender_timestamp_ms : ℕ

-- A mute action; the end is in unix seconds and may be negative.
pub record MuteAction : Type 0 where
  pub muted : Bool
  pub mute_end_timestamp : ℤ

module _ (p : Proto) where
  pub record ProtocolMessage : Type 0 where
    pub key : Option MessageKey
    pub kind : ProtocolKind
    pub edited_message : Option p.Message

  pub record WebMessage : Type 0 where
    pub key : Option MessageKey
    pub message : Option p.Message
    pub timestamp : ℕ

  pub record Conversation : Type 0 where
    pub id : String
    pub name : String
    pub messages : List (Option WebMessage)

  pub record Pushname : Type 0 where
    pub id : String
    pub pushname : String

  pub record HistorySync : Type 0 where
    pub pushnames : List Pushname
    pub conversations : List Conversation

  pub record MessageReceived : Type 0 where
    pub info : Info
    pub message : Option p.Message
    pub protocol : Option ProtocolMessage
    pub reaction : Option ReactionMessage
