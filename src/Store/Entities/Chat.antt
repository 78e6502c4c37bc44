-- ===== src/Store/Entities/Chat.antt =====
-- apps/api/src/chat/schemas/*.schema.ts and the enumerations of packages/contracts/src/chat.ts.
use appforfixiyi.Common.{ℕ, Option, List, Text}

pub data ContactPolicy : Type 0 where
  protected unlocked : ContactPolicy

pub data ChatParticipantRole : Type 0 where
  client provider : ChatParticipantRole

pub record Conversation : Type 0 where
  pub id : ℕ
  pub request_id : ℕ
  pub client_user_id : ℕ
  pub provider_user_id : ℕ
  pub provider_id : ℕ
  pub contact_policy : ContactPolicy
  pub contact_unlocked_at : Option ℕ
  pub last_message_seq : ℕ
  pub last_message_at : Option ℕ
  pub client_delivered_seq : ℕ
  pub client_read_seq : ℕ
  pub provider_delivered_seq : ℕ
  pub provider_read_seq : ℕ

pub data ContactRedactionType : Type 0 where
  phone email url handle off_platform : ContactRedactionType

pub record MessageReaction : Type 0 where
  pub user_id : ℕ
  pub emoji : ℕ

pub record Message : Type 0 where
  pub id : ℕ
  pub conversation_id : ℕ
  pub seq : ℕ
  pub sender_user_id : ℕ
  pub client_message_id : ℕ
  pub body : Text
  pub attachment_media_ids : List ℕ
  pub reply_to_message_id : Option ℕ
  pub reactions : List MessageReaction
  pub redactions : List ContactRedactionType
  pub version : ℕ
  pub edited_at : Option ℕ
  pub deleted_at : Option ℕ
  pub created_at : ℕ

-- What chat-events.publisher.ts pushes to a user's sockets. In place of the view of a message that
-- the user gets, an event carries the stored message.
pub data ChatEvent : Type 0 where
  message_created message_updated : (user : ℕ) → Message → ChatEvent
  receipts_updated : (recipient conversation user delivered_seq read_seq : ℕ) → ChatEvent
