-- ===== src/Tests/Chat.antt =====
-- A conversation about the request that the provider of `contacted` was dispatched to.
use appforfixiyi.Common.{
  ℕ, ◌≡◌, refl, sort, true, false, none, some, List, [], ◌∷◌, ok, find?, arith, codes, trim,
  is_some,
}
use appforfixiyi.Store.Database.{Db}
use appforfixiyi.Store.Entities.Chat.{
  Conversation, protected, client, provider, phone, off_platform, Message,
}
use appforfixiyi.Matching.Platform.{test_platform}
use appforfixiyi.Matching.Service.{find_candidacy}
use appforfixiyi.Requests.Attachments.{find_summaries}
use appforfixiyi.Chat.Contacts.{
  Scanner, Detection, ranged, protect, redact_contacts, detect_contacts, mask_detections,
  merge_ranges, merge_into, mask_ranges,
}
use appforfixiyi.Chat.Contacts.Slices.{masked_by}
use appforfixiyi.Chat.Contacts.Merging.{covers}
use appforfixiyi.Chat.Contacts.Masking.{mask_detections-masked_by}
use appforfixiyi.Chat.Conversations.{
  by_id, role_of, Receipt, can_send, assert_can_send, require_participant, advance_watermarks,
  compute_can_send, allocate_seq, update_conversation,
}
use appforfixiyi.Chat.Conversations.Sequence.{
  allocate_step, advance_step, unlock_step, CountsFrom, numbers, numbers-CountsFrom,
}
use appforfixiyi.Chat.Conversations.Receipts.{IsReceipted, Advances, advance_watermarks-Advances}
use appforfixiyi.Chat.Messages.{
  SendMessageInput, MessageView, MessageDeliveryStatus, send, send_new, send_found, find_sent,
  insert_once, publish, view_one, view_many, to_message_view, delivery_status_for, window_end,
  require_reply_target, find_by_ids,
}
use appforfixiyi.Chat.Messages.Sending.{message_of, with_message, send-with_message}
use appforfixiyi.Chat.Messages.Replay.{send-again}
use appforfixiyi.Media.{require_attachable, describe_for_display}
use appforfixiyi.Tests.{sample}
use appforfixiyi.Tests.Verification.{full_bucket}

abbrev talk : Conversation
talk = record {
  id = 90;
  request_id = 11;
  client_user_id = 7;
  provider_user_id = 23;
  provider_id = 22;
  contact_policy = protected;
  contact_unlocked_at = none;
  last_message_seq = 4;
  last_message_at = some 40;
  client_delivered_seq = 4;
  client_read_seq = 3;
  provider_delivered_seq = 2;
  provider_read_seq = 2;
}

abbrev chatting : Db ℕ
chatting = record sample { conversations = talk ∷ [] }

numbers-CountsFrom_example : CountsFrom 4 (
    numbers test_platform 90
      (allocate_step 90 50
        ∷ advance_step talk client (record { delivered = 9; read = some 9 })
        ∷ allocate_step 90 51
        ∷ unlock_step 52 talk
        ∷ allocate_step 90 53
        ∷ [])
      chatting)
numbers-CountsFrom_example =
    numbers-CountsFrom test_platform 90
      (allocate_step 90 50
        ∷ advance_step talk client (record { delivered = 9; read = some 9 })
        ∷ allocate_step 90 51
        ∷ unlock_step 52 talk
        ∷ allocate_step 90 53
        ∷ [])
      chatting {c = talk} refl

abbrev seen : Receipt
seen = record { delivered = 3; read = some 9 }

advance_watermarks-Advances_example :
    let s₁ = (advance_watermarks test_platform talk provider seen chatting).1 in
    (d : Conversation) × ((advance_watermarks test_platform talk provider seen chatting).0 ≡ ok d)
    × (find? (by_id 90) s₁.conversations ≡ some d)
    × Advances provider 4 seen talk d
    × IsReceipted d
    × ((advance_watermarks test_platform talk provider seen s₁).0 ≡ ok d)
    × (find? (by_id 90) (advance_watermarks test_platform talk provider seen s₁).1.conversations
        ≡ some d)
advance_watermarks-Advances_example =
    advance_watermarks-Advances test_platform talk provider seen chatting {c = talk} refl
      (omega arith)
      (record {
        client_read = omega arith;
        client_delivered = omega arith;
        provider_read = omega arith;
        provider_delivered = omega arith;
      })

abbrev found : List Detection
found =
    ranged phone 3 7
    ∷ ranged phone 1 3
    ∷ record { type = off_platform; start = none; end = none }
    ∷ ranged phone 9 10
    ∷ []

mask_detections-masked_by_example :
    mask_detections found (codes "a06 1234b5c")
    ≡ masked_by (covers ((3, 7) ∷ (1, 3) ∷ (9, 10) ∷ [])) 0 false (codes "a06 1234b5c")
mask_detections-masked_by_example =
    mask_detections-masked_by found (codes "a06 1234b5c")
      ((omega arith, omega arith), ((omega arith, omega arith), ((omega arith, omega arith), tt)))

-- Nothing is found in a text by this one.
abbrev blind : Scanner
blind = record {
  match_all = λ p t. [];
  is_phone_number = λ t. true;
  expand_numbers = λ t. record { text = t; starts = []; ends = [] };
  body_matches = λ p t. true;
}

abbrev hello : SendMessageInput
hello = record {
  client_message_id = 77;
  body = codes " hello ";
  attachment_media_ids = [];
  reply_to_message_id = none;
}

abbrev stored : Message
stored = record {
  id = 91;
  conversation_id = 90;
  seq = 5;
  sender_user_id = 23;
  client_message_id = 77;
  body = codes "hello";
  attachment_media_ids = [];
  reply_to_message_id = none;
  reactions = [];
  redactions = [];
  version = 1;
  edited_at = none;
  deleted_at = none;
  created_at = 60;
}

abbrev answer : MessageView
answer = record {
  doc = stored;
  body = some (codes "hello");
  attachments = [];
  reply_to = none;
  reactions = [];
  delivery_status = some MessageDeliveryStatus.sent;
  editable_until = some 900060;
  deletable_until = some 86400060;
}

nothing_sent : find_sent test_platform blind full_bucket 90 23 77 chatting ≡ none
unfolding find_sent
nothing_sent = refl

hello_sent : (send test_platform blind full_bucket 60 91 90 23 hello chatting).0 ≡ ok answer
unfolding send send_found send_new find_sent insert_once publish view_one view_many to_message_view
    delivery_status_for window_end require_reply_target find_by_ids require_participant
    assert_can_send compute_can_send find_candidacy find_summaries allocate_seq update_conversation
    protect redact_contacts detect_contacts mask_detections merge_ranges merge_into mask_ranges trim
    require_attachable describe_for_display sort
hello_sent = refl

send-with_message_example :
    (answer.doc ≡ message_of test_platform blind full_bucket 60 91 23 talk hello)
    × (answer.doc.seq ≡ 5)
    × (answer.doc.body ≡ (protect blind (trim (codes " hello ")) protected).text)
    × ((send test_platform blind full_bucket 60 91 90 23 hello chatting).1
        ≡ with_message test_platform blind full_bucket 60 91 23 talk hello chatting)
    × (can_send test_platform 60 talk chatting ≡ true)
    × (is_some (role_of talk 23) ≡ true)
send-with_message_example =
    send-with_message test_platform blind full_bucket 60 91 90 23 hello chatting {c = talk}
      {v = answer} refl nothing_sent hello_sent

send-again_example :
    let s₁ = (send test_platform blind full_bucket 60 91 90 23 hello chatting).1 in
    (w : MessageView) × (send test_platform blind full_bucket 70 95 90 23 hello
        (record s₁ { requests = [] })
      ≡ (ok w, record s₁ { requests = [] }))
    × (w.doc ≡ stored)
send-again_example =
    send-again test_platform blind full_bucket 60 91 90 23 hello chatting {c = talk} {v = answer} 70
      95 hello
      (record (send test_platform blind full_bucket 60 91 90 23 hello chatting).1 { requests = [] })
      refl hello_sent refl refl refl
