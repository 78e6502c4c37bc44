-- ===== src/Chat/Conversations/Receipts.antt =====
-- Receipts are watermarks that only move forward: `advanceWatermarks` of
-- apps/api/src/chat/conversation.service.ts.
use appforfixiyi.Common.{
  ℕ, ◌≤◌, ◌≡◌, refl, none, some, arith, ==_refl, ok, find?, find-update, min, ap, ◌∙◌,
}
use appforfixiyi.Store.Entities.Chat.{Conversation, ChatParticipantRole, client, provider}
use appforfixiyi.Matching.Platform.{Platform}
use appforfixiyi.Matching.Dispatch.{Store}
use appforfixiyi.Chat.Conversations.{
  by_id, raise, Receipt, delivered_of, read_of, delivered_up_to, read_up_to, update_conversation,
  advance_watermarks,
}
use appforfixiyi.Chat.Conversations.Sequence.{raise-id}

-- Each side has read at most what it was delivered, and was delivered at most what was sent.
pub record IsReceipted (c : Conversation) : Type 0 where
  pub client_read : c.client_read_seq ≤ c.client_delivered_seq
  pub client_delivered : c.client_delivered_seq ≤ c.last_message_seq
  pub provider_read : c.provider_read_seq ≤ c.provider_delivered_seq
  pub provider_delivered : c.provider_delivered_seq ≤ c.last_message_seq

abbrev pub other : ChatParticipantRole → ChatParticipantRole
other client = provider
other provider = client

-- The receipt `up` of one side, which read the conversation when its last number was `last`.
pub record Advances (role : ChatParticipantRole) (last : ℕ) (up : Receipt) (c d : Conversation)
    : Type 0 where
  pub same_last : d.last_message_seq ≡ c.last_message_seq
  pub delivered_not_back : delivered_of c role ≤ delivered_of d role
  pub read_not_back : read_of c role ≤ read_of d role
  pub other_delivered : delivered_of d (other role) ≡ delivered_of c (other role)
  pub other_read : read_of d (other role) ≡ read_of c (other role)
  pub delivered_reached : min up.delivered last ≤ delivered_of d role
  pub read_reached : (r : ℕ) → up.read ≡ some r → min r last ≤ read_of d role
  pub read_kept : up.read ≡ none → read_of d role ≡ read_of c role

abbrev pub received : ChatParticipantRole → (last : ℕ) → Receipt → Conversation → Conversation
received role last up c = raise role (delivered_up_to last up) (read_up_to last up.read) c

received-IsReceipted :
    (role : ChatParticipantRole) (last : ℕ) (up : Receipt) (c : Conversation)
    → last ≤ c.last_message_seq
    → IsReceipted c
    → IsReceipted (received role last up c)
received-IsReceipted client last up c h v = record {
  client_read = ground arith;
  client_delivered = ground arith;
  provider_read = ground arith;
  provider_delivered = ground arith;
}
received-IsReceipted provider last up c h v = record {
  client_read = ground arith;
  client_delivered = ground arith;
  provider_read = ground arith;
  provider_delivered = ground arith;
}

received-Advances :
    (role : ChatParticipantRole) (last : ℕ) (up : Receipt) (c : Conversation)
    → Advances role last up c (received role last up c)
received-Advances client last up c = record {
  same_last = refl;
  delivered_not_back = omega arith;
  read_not_back = ground arith;
  other_delivered = refl;
  other_read = refl;
  delivered_reached = ground arith;
  read_reached = λ r e. ground arith;
  read_kept = λ e. ground arith;
}
received-Advances provider last up c = record {
  same_last = refl;
  delivered_not_back = omega arith;
  read_not_back = ground arith;
  other_delivered = refl;
  other_read = refl;
  delivered_reached = ground arith;
  read_reached = λ r e. ground arith;
  read_kept = λ e. ground arith;
}

received_again :
    (role : ChatParticipantRole) (last : ℕ) (up : Receipt) (c : Conversation)
    → received role last up (received role last up c) ≡ received role last up c
received_again client last up c = ground arith
received_again provider last up c = ground arith

module _ (p : Platform) (k : Conversation) (role : ChatParticipantRole) (up : Receipt) where
  advanced :
      (s : Store p) {c : Conversation}
      → find? (by_id k.id) s.conversations ≡ some c
      → ((advance_watermarks p k role up s).0 ≡ ok (received role k.last_message_seq up c))
        × (find? (by_id k.id) (advance_watermarks p k role up s).1.conversations
            ≡ some (received role k.last_message_seq up c))
  unfolding advance_watermarks update_conversation
  advanced s {c} h = (
    rw (p.mongo.find_one_lem, h),
    rw (
      p.mongo.find_one_lem,
      h,
      p.mongo.update_one_lem,
      find-update {A = Conversation} (λ d. d.id)
          (raise role (delivered_up_to k.last_message_seq up)
            (read_up_to k.last_message_seq up.read))
          (raise-id role _ _) k.id k.id s.conversations,
      ==_refl,
      h,
    ),
  )

  -- A receipt for a stored conversation, `k` being the conversation as it was read at some time
  -- before: the call succeeds with what is then stored. The watermarks of the side have not moved
  -- back, and reach what was acknowledged or the last number of `k`, whichever is less (without a
  -- number read, only the delivery moves); those of the other side and the last number stay. If before each side had read at most what it
  -- was delivered, and that was at most what was sent, so it is afterwards. The same receipt again changes nothing.
  pub advance_watermarks-Advances :
      (s : Store p) {c : Conversation}
      → find? (by_id k.id) s.conversations ≡ some c
      → k.last_message_seq ≤ c.last_message_seq
      → IsReceipted c
      → let s₁ = (advance_watermarks p k role up s).1 in
        (d : Conversation) × ((advance_watermarks p k role up s).0 ≡ ok d)
        × (find? (by_id k.id) s₁.conversations ≡ some d)
        × Advances role k.last_message_seq up c d
        × IsReceipted d
        × ((advance_watermarks p k role up s₁).0 ≡ ok d)
        × (find? (by_id k.id) (advance_watermarks p k role up s₁).1.conversations ≡ some d)
  advance_watermarks-Advances s {c} h le v =
      let (result, found) = advanced s h in
      let (result', found') = advanced (advance_watermarks p k role up s).1 found in
      (
        received role k.last_message_seq up c,
        result,
        found,
        received-Advances role k.last_message_seq up c,
        received-IsReceipted role k.last_message_seq up c le v,
        result' ∙ ap ok (received_again role k.last_message_seq up c),
        found' ∙ ap some (received_again role k.last_message_seq up c),
      )
