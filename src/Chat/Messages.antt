-- ===== src/Chat/Messages.antt =====
-- apps/api/src/chat/message.service.ts and message-view.ts: the messages of a conversation. `now` is
-- the instant of the call.
pub mod Sending
pub mod Replay
use appforfixiyi.Common.{
  ℕ, zero, suc, ◌+◌, ◌-◌, ◌*◌, Bool, true, false, not, ◌&&◌, ◌||◌, Option, none, some, List, [],
  ◌∷◌, ◌++◌, length, map, take, find?, any, filter, ◌==◌, ltb, leb, if◌then◌else◌, ok, err, Exec,
  Failure, pure, gets, modify, throw, guard, require_some, continue, ◌>>=◌, ◌>>◌, get_or, is_some,
  contains, distinct, not_found, forbidden, domain, duplicate_key, bad_request, conflict, Text,
  trim, media_not_in_conversation, reply_target_not_found, message_deleted,
  message_edit_window_closed, message_delete_window_closed, Code, reverse,
}
use appforfixiyi.Store.Database.{Db}
use appforfixiyi.Store.Entities.Requests.{Media, ContentType, conversation}
use appforfixiyi.Store.Entities.Chat.{
  Conversation, ContactPolicy, ChatParticipantRole, client, provider, ContactRedactionType, Message,
  MessageReaction, ChatEvent, message_created, message_updated, receipts_updated,
}
use appforfixiyi.Storage.{Bucket}
use appforfixiyi.Media.{
  CreateUploadSessionOutput, MediaDisplay, create_upload_session, require_owned, finalize, is_for,
  require_attachable, describe_for_display,
}
use appforfixiyi.Requests.Attachments.{TargetUploadInput}
use appforfixiyi.Matching.Platform.{Platform}
use appforfixiyi.Matching.Dispatch.{Store}
use appforfixiyi.Chat.Contacts.{Scanner, RedactionResult, protect}
use appforfixiyi.Chat.Conversations.{
  Participation, role_of, counterpart_of, delivered_of, read_of, require_participant,
  assert_can_send, allocate_seq, advance_watermarks, Receipt,
}

abbrev pub search_result_limit : ℕ
search_result_limit = 50

abbrev pub message_edit_window_seconds : ℕ
message_edit_window_seconds = 900

abbrev pub message_delete_window_seconds : ℕ
message_delete_window_seconds = 86400

abbrev pub reply_excerpt_length : ℕ
reply_excerpt_length = 120

-- `escapeRegex`: a backslash before each unit that has a meaning in a pattern.
abbrev pub is_special : ℕ → Bool
is_special c =
    c == b'.'
    || c == b'*'
    || c == b'+'
    || c == b'?'
    || c == b'^'
    || c == b'$'
    || c == b'{'
    || c == b'}'
    || c == b'('
    || c == b')'
    || c == b'|'
    || c == b'['
    || c == b']'
    || c == 92

abbrev pub escape_regex : Text → Text
escape_regex [] = []
escape_regex (c ∷ cs) = let rest = c ∷ escape_regex cs in if is_special c then 92 ∷ rest else rest

pub record SendMessageInput : Type 0 where
  pub client_message_id : ℕ
  pub body : Text
  pub attachment_media_ids : List ℕ
  pub reply_to_message_id : Option ℕ

pub record MessageListQuery : Type 0 where
  pub before : Option ℕ
  pub after : Option ℕ
  pub limit : ℕ

pub data MessageDeliveryStatus : Type 0 where
  sent delivered read : MessageDeliveryStatus

pub record ReplyPreview : Type 0 where
  pub id : ℕ
  pub sender_user_id : ℕ
  pub excerpt : Option Text
  pub deleted : Bool

-- The DTO `Message`: the stored message, and what depends on the viewer or is hidden once deleted.
pub record MessageView : Type 0 where
  pub doc : Message
  pub body : Option Text
  pub attachments : List MediaDisplay
  pub reply_to : Option ReplyPreview
  pub reactions : List MessageReaction
  pub delivery_status : Option MessageDeliveryStatus
  pub editable_until : Option ℕ
  pub deletable_until : Option ℕ

pub record MessagePage : Type 0 where
  pub messages : List MessageView
  pub has_more : Bool

pub record MessageViewContext : Type 0 where
  pub viewer_id : ℕ
  pub conversation : Conversation
  pub attachments : List MediaDisplay
  pub replies : List Message
  pub now : ℕ

abbrev pub other_role : ChatParticipantRole → ChatParticipantRole
other_role client = provider
other_role provider = client

abbrev pub status_for : Conversation → (seq : ℕ) → ChatParticipantRole → MessageDeliveryStatus
status_for c seq role =
    if leb seq (read_of c (other_role role))
    then read
    else if leb seq (delivered_of c (other_role role))
    then delivered
    else sent

unfoldable pub delivery_status_for : Message → MessageViewContext → Option MessageDeliveryStatus
delivery_status_for m x =
    if m.sender_user_id == x.viewer_id
    then elim (role_of x.conversation x.viewer_id) [
      | none ↦ none
      | some r ↦ some (status_for x.conversation m.seq r)
    ]
    else none

unfoldable pub window_end : Message → MessageViewContext → (window_seconds : ℕ) → Option ℕ
window_end m x w =
    if not (m.sender_user_id == x.viewer_id) || is_some m.deleted_at
    then none
    else if ltb x.now (m.created_at + w * 1000)
    then some (m.created_at + w * 1000)
    else none

abbrev pub preview : Option Message → Option ReplyPreview
preview none = none
preview (some t) = some (record {
  id = t.id;
  sender_user_id = t.sender_user_id;
  excerpt = if is_some t.deleted_at then none else some (take reply_excerpt_length t.body);
  deleted = is_some t.deleted_at;
})

abbrev pub reply_preview_for : Message → MessageViewContext → Option ReplyPreview
reply_preview_for m x = elim m.reply_to_message_id [
  | none ↦ none
  | some i ↦ preview (find? (λ t. t.id == i) x.replies)
]

abbrev pub displays_of : List ℕ → List MediaDisplay → List MediaDisplay
displays_of [] ds = []
displays_of (i ∷ is) ds = elim (find? (λ d. d.doc.id == i) ds) [
  | none ↦ displays_of is ds
  | some d ↦ d ∷ displays_of is ds
]

unfoldable pub to_message_view : MessageViewContext → Message → MessageView
to_message_view x m = record {
  doc = m;
  body = if is_some m.deleted_at then none else some m.body;
  attachments =
      if is_some m.deleted_at then [] else displays_of m.attachment_media_ids x.attachments;
  reply_to = if is_some m.deleted_at then none else reply_preview_for m x;
  reactions = if is_some m.deleted_at then [] else m.reactions;
  delivery_status = delivery_status_for m x;
  editable_until = window_end m x message_edit_window_seconds;
  deletable_until = window_end m x message_delete_window_seconds;
}

abbrev pub message_by_id : ℕ → Message → Bool
message_by_id i m = m.id == i

abbrev pub is_in : (conversation id : ℕ) → Message → Bool
is_in c i m = m.id == i && m.conversation_id == c

-- The key of idempotency.
abbrev pub is_sent_as : (conversation sender client_id : ℕ) → Message → Bool
is_sent_as c user key m =
    m.conversation_id == c && m.sender_user_id == user && m.client_message_id == key

-- The unique indexes: `_id`, the number in the conversation, and the key of idempotency.
abbrev pub message_clashes : Message → Message → Bool
message_clashes a b =
    a.id == b.id
    || (a.conversation_id == b.conversation_id && a.seq == b.seq)
    || is_sent_as a.conversation_id a.sender_user_id a.client_message_id b

abbrev pub new_message :
    (fresh now : ℕ) → Conversation → (sender : ℕ) → RedactionResult → SendMessageInput → Message
new_message fresh now c sender r i = record {
  id = fresh;
  conversation_id = c.id;
  seq = c.last_message_seq;
  sender_user_id = sender;
  client_message_id = i.client_message_id;
  body = r.text;
  attachment_media_ids = distinct i.attachment_media_ids;
  reply_to_message_id = i.reply_to_message_id;
  reactions = [];
  redactions = r.redactions;
  version = 1;
  edited_at = none;
  deleted_at = none;
  created_at = now;
}

abbrev pub edited : (now : ℕ) → RedactionResult → Message → Message
edited now r m = record m {
  body = r.text;
  redactions = m.redactions ++ r.redactions;
  edited_at = some now;
  version = m.version + 1;
}

abbrev pub deleted : (now : ℕ) → Message → Message
deleted now m = record m { deleted_at = some now; version = m.version + 1 }

abbrev pub others : (user : ℕ) → List MessageReaction → List MessageReaction
others user rs = filter (λ r. not (r.user_id == user)) rs

abbrev pub reacted : (user : ℕ) → Option ℕ → Message → Message
reacted user none m = record m { reactions = others user m.reactions; version = m.version + 1 }
reacted user (some e) m = record m {
  reactions = others user m.reactions ++ record { user_id = user; emoji = e } ∷ [];
  version = m.version + 1;
}

abbrev pub matches_cursor : MessageListQuery → Message → Bool
matches_cursor q m = elim q.after [
  | some a ↦ ltb a m.seq
  | none ↦ elim q.before [ none ↦ true | some b ↦ ltb m.seq b ]
]

abbrev pub seq_before : Message → Message → Bool
seq_before a b = leb a.seq b.seq

abbrev pub seq_after : Message → Message → Bool
seq_after a b = leb b.seq a.seq

abbrev pub reply_ids : List Message → List ℕ
reply_ids [] = []
reply_ids (m ∷ ms) = elim m.reply_to_message_id [ none ↦ reply_ids ms | some i ↦ i ∷ reply_ids ms ]

abbrev pub media_ids : List Message → List ℕ
media_ids [] = []
media_ids (m ∷ ms) = m.attachment_media_ids ++ media_ids ms

pub record ReceiptsEvent : Type 0 where
  pub delivered_seq : ℕ
  pub read_seq : ℕ

-- Each side is sent its own view of the message.
abbrev pub to_both : (ℕ → Message → ChatEvent) → Conversation → Message → List ChatEvent
to_both event c m = event c.client_user_id m ∷ event c.provider_user_id m ∷ []

module _ (p : Platform) (scanner : Scanner) (bucket : Bucket) where
  unfoldable pub find_by_ids : List ℕ → Store p → List Message
  find_by_ids ids s = p.mongo.find (λ m. contains m.id (distinct ids)) s.messages

  unfoldable pub view_many :
      (now : ℕ) → List Message → (viewer : ℕ) → Conversation → Store p → List MessageView
  view_many now ms viewer c s =
      map
        (to_message_view (record {
          viewer_id = viewer;
          conversation = c;
          attachments = describe_for_display p.mongo bucket now (media_ids ms) s;
          replies = find_by_ids (reply_ids ms) s;
          now = now;
        }))
        ms

  abbrev pub head_view : List MessageView → Exec (Store p) MessageView
  head_view [] = throw not_found
  head_view (v ∷ vs) = pure v

  unfoldable pub view_one :
      (now : ℕ) → Message → (viewer : ℕ) → Conversation → Exec (Store p) MessageView
  view_one now m viewer c = do views ← gets (view_many now (m ∷ []) viewer c); head_view views

  unfoldable pub publish : List ChatEvent → Exec (Store p) (Unit {0})
  publish es = modify (λ s. record s { events = s.events ++ es })

  unfoldable pub require_message_in : (conversation id : ℕ) → Exec (Store p) Message
  require_message_in c id = do
    found ← gets (λ s. p.mongo.find_one (is_in c id) s.messages)
    require_some found not_found

  unfoldable pub require_own_message :
      (conversation id user : ℕ) → Exec (Store p) (Participation × Message)
  require_own_message c id user = do
    q ← require_participant p c user
    m ← require_message_in c id
    guard (m.sender_user_id == user) forbidden
    guard (not (is_some m.deleted_at)) (domain conflict message_deleted)
    pure (q, m)

  abbrev pub assert_within_window :
      (now : ℕ) → Message → (window_seconds : ℕ) → Code → Exec (Store p) (Unit {0})
  assert_within_window now m w code =
      guard (leb (now - m.created_at) (w * 1000)) (domain conflict code)

  unfoldable pub save : ℕ → (Message → Message) → Exec (Store p) (Unit {0})
  save id f =
      modify (λ s. record s { messages = p.mongo.update_one (message_by_id id) f s.messages })

  unfoldable pub publish_update :
      (now : ℕ) → Message → Participation → (user : ℕ) → Exec (Store p) MessageView
  publish_update now m q user = do
    publish (to_both message_updated q.conversation m)
    view_one now m user q.conversation

  unfoldable pub require_reply_target : (conversation : ℕ) → Option ℕ → Exec (Store p) (Unit {0})
  require_reply_target c none = pure tt
  require_reply_target c (some i) = do
    target ← gets (λ s. p.mongo.find_one (is_in c i) s.messages)
    guard (is_some target) (domain bad_request reply_target_not_found)

  -- `create`, and on a duplicate key the message that was sent under the same key.
  abbrev pub stored_or_winner :
      Message → Option (List Message) → Option Message → Exec (Store p) Message
  stored_or_winner m (some ms) winner s = (ok m, record s { messages = ms })
  stored_or_winner m none (some w) s = (ok w, s)
  stored_or_winner m none none s = (err duplicate_key, s)

  unfoldable pub find_sent : (conversation sender client_id : ℕ) → Store p → Option Message
  find_sent c user key s = p.mongo.find_one (is_sent_as c user key) s.messages

  unfoldable pub insert_once : Message → Exec (Store p) Message
  insert_once m = do
    made ← gets (λ s. p.mongo.create message_clashes m s.messages)
    winner ← gets (find_sent m.conversation_id m.sender_user_id m.client_message_id)
    stored_or_winner m made winner

  -- What `send` does where no message was sent under the key.
  unfoldable pub send_new :
      (now fresh user : ℕ) → Conversation → SendMessageInput → Exec (Store p) MessageView
  send_new now fresh user c i = do
    assert_can_send p now c
    require_reply_target c.id i.reply_to_message_id
    require_attachable p.mongo i.attachment_media_ids user conversation c.id
    let r = protect scanner (trim i.body) c.contact_policy
    numbered ← allocate_seq p c.id now
    stored ← insert_once (new_message fresh now numbered user r i)
    publish (to_both message_created numbered stored)
    view_one now stored user numbered

  unfoldable pub send_found :
      (now fresh user : ℕ)
      → Conversation
      → SendMessageInput
      → Option Message
      → Exec (Store p) MessageView
  send_found now fresh user c i (some m) = view_one now m user c
  send_found now fresh user c i none = send_new now fresh user c i

  unfoldable pub send : (now fresh id user : ℕ) → SendMessageInput → Exec (Store p) MessageView
  unfolding send_found
  send now fresh id user i = do
    q ← require_participant p id user
    replay ← gets (find_sent id user i.client_message_id)
    send_found now fresh user q.conversation i replay

  unfoldable pub fetch_page : (id : ℕ) → MessageListQuery → Store p → List Message
  fetch_page id q s = take (q.limit + 1) (
      p.mongo.sort (if is_some q.after then seq_before else seq_after)
        (p.mongo.find (λ m. m.conversation_id == id && matches_cursor q m) s.messages))

  unfoldable pub list : (now id user : ℕ) → MessageListQuery → Exec (Store p) MessagePage
  list now id user q = do
    t ← require_participant p id user
    docs ← gets (fetch_page id q)
    let page = take q.limit docs
    views ←
        gets (view_many now (if is_some q.after then page else reverse page) user t.conversation)
    pure (record { messages = views; has_more = ltb q.limit (length docs) })

  unfoldable pub search : (now id user : ℕ) → Text → Exec (Store p) (List MessageView)
  search now id user q = do
    t ← require_participant p id user
    docs ← gets (λ s. take search_result_limit (
        p.mongo.sort seq_after (
          p.mongo.find
            (λ m.
              m.conversation_id == id
              && not (is_some m.deleted_at)
              && scanner.body_matches (escape_regex q) m.body)
            s.messages)))
    gets (view_many now docs user t.conversation)

  unfoldable pub edit : (now conversation id user : ℕ) → Text → Exec (Store p) MessageView
  edit now c id user body = do
    own ← require_own_message c id user
    assert_within_window now own.1 message_edit_window_seconds message_edit_window_closed
    assert_can_send p now own.0.conversation
    let r = protect scanner body own.0.conversation.contact_policy
    save own.1.id (edited now r)
    publish_update now (edited now r own.1) own.0 user

  unfoldable pub remove : (now conversation id user : ℕ) → Exec (Store p) MessageView
  remove now c id user = do
    own ← require_own_message c id user
    assert_within_window now own.1 message_delete_window_seconds message_delete_window_closed
    save own.1.id (deleted now)
    publish_update now (deleted now own.1) own.0 user

  unfoldable pub set_reaction :
      (now conversation id user : ℕ) → Option ℕ → Exec (Store p) MessageView
  set_reaction now c id user emoji = do
    q ← require_participant p c user
    m ← require_message_in c id
    guard (not (is_some m.deleted_at)) (domain conflict message_deleted)
    assert_can_send p now q.conversation
    save m.id (reacted user emoji)
    publish_update now (reacted user emoji m) q user

  -- Only a watermark that moved is pushed.
  unfoldable pub advance_receipts : (id user : ℕ) → Receipt → Exec (Store p) ReceiptsEvent
  advance_receipts id user up = do
    q ← require_participant p id user
    let c = q.conversation
    updated ← advance_watermarks p c q.role up
    let d = delivered_of updated q.role
    let r = read_of updated q.role
    (if d == delivered_of c q.role && r == read_of c q.role
        then pure tt
        else publish (
            receipts_updated (counterpart_of updated q.role) id user d r
            ∷ receipts_updated user id user d r
            ∷ []))
    pure (record { delivered_seq = d; read_seq = r })

  unfoldable pub mark_delivered : (id user up_to_seq : ℕ) → Exec (Store p) ReceiptsEvent
  mark_delivered id user n = advance_receipts id user (record { delivered = n; read = none })

  unfoldable pub mark_read : (id user up_to_seq : ℕ) → Exec (Store p) ReceiptsEvent
  mark_read id user n = advance_receipts id user (record { delivered = n; read = some n })

  -- The name that is stored, and what was found in it, stand beside the session.
  unfoldable pub create_attachment_upload_session :
      (now fresh id user : ℕ)
      → TargetUploadInput
      → Exec (Store p) (CreateUploadSessionOutput × RedactionResult)
  create_attachment_upload_session now fresh id user i = do
    q ← require_participant p id user
    assert_can_send p now q.conversation
    let r = protect scanner i.file_name q.conversation.contact_policy
    session ← create_upload_session p.mongo bucket fresh user (record {
      target_type = conversation;
      target_id = id;
      file_name = r.text;
      content_type = i.content_type;
      size_bytes = i.size_bytes;
    })
    pure (session, r)

  unfoldable pub finalize_attachment : (id user media_id : ℕ) → Exec (Store p) Media
  finalize_attachment id user media_id = do
    require_participant p id user
    m ← require_owned p.mongo media_id user
    guard (is_for conversation id m) (domain bad_request media_not_in_conversation)
    finalize p.mongo bucket media_id user
