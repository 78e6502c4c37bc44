-- ===== src/Chat/Messages/Sending.antt =====
-- What sending a message stores: `send` of
-- apps/api/src/chat/message.service.ts.
use appforfixiyi.Common.{
  ℕ, ◌+◌, ◌≡◌, refl, sym, ap, subst, true, Option, none, some, List, [], ◌∷◌, ◌++◌, inl, inr, ◌==◌,
  Bool-cases, Option-cases, find?, key_of_find, any, update_first, ok, err, Failure, Exec, ◌⊎◌,
  domain, conflict, conversation_closed, bad_request, forbidden, reply_target_not_found,
  media_not_attachable, duplicate_key, length, distinct, trim, is_some,
}
use appforfixiyi.Store.Entities.Requests.{conversation}
use appforfixiyi.Store.Entities.Chat.{Conversation, ChatParticipantRole, Message, message_created}
use appforfixiyi.Storage.{Bucket}
use appforfixiyi.Media.{require_attachable, is_attachable}
use appforfixiyi.Matching.Platform.{Platform}
use appforfixiyi.Matching.Dispatch.{Store}
use appforfixiyi.Chat.Contacts.{Scanner, protect}
use appforfixiyi.Chat.Conversations.{
  by_id, role_of, bumped, can_send, assert_can_send, require_participant, allocate_seq,
  update_conversation,
}
use appforfixiyi.Chat.Messages.{
  SendMessageInput, MessageView, is_in, message_clashes, new_message, to_both, require_reply_target,
  find_sent, insert_once, publish, view_one, view_many, to_message_view, send_new, send_found, send,
}

module _ (p : Platform) (scanner : Scanner) (bucket : Bucket) where
  -- The checks of `send` pass or throw, and write nothing.
  abbrev IsCheck : Exec (Store p) (Unit {0}) → Store p → Type 0
  IsCheck m s = (m s ≡ (ok tt, s)) ⊎ ((e : Failure) × (m s ≡ (err e, s)))

  assert_can_send-cases :
      (now : ℕ) (c : Conversation) (s : Store p)
      → ((assert_can_send p now c s ≡ (ok tt, s)) × (can_send p now c s ≡ true))
        ⊎ ((e : Failure) × (assert_can_send p now c s ≡ (err e, s)))
  unfolding assert_can_send
  assert_can_send-cases now c s = elim (Bool-cases (can_send p now c s)) [
    | inl e ↦ inl (rw e, e)
    | inr e ↦ inr (domain conflict conversation_closed, rw e)
  ]

  require_reply_target-IsCheck :
      (c : ℕ) (i : Option ℕ) (s : Store p) → IsCheck (require_reply_target p scanner bucket c i) s
  unfolding require_reply_target
  require_reply_target-IsCheck c none s = inl refl
  require_reply_target-IsCheck c (some i) s =
      elim (Option-cases (p.mongo.find_one (is_in c i) s.messages)) [
        | inl e ↦ inr (domain bad_request reply_target_not_found, rw e)
        | inr (m, e) ↦ inl (rw e)
      ]

  require_attachable-IsCheck :
      (is : List ℕ) (owner target : ℕ) (s : Store p)
      → IsCheck (require_attachable p.mongo is owner conversation target) s
  unfolding require_attachable
  require_attachable-IsCheck [] owner target s = inl refl
  require_attachable-IsCheck (i ∷ is) owner target s =
      let test =
        length (p.mongo.find (is_attachable (i ∷ is) owner conversation target) s.media)
        == length (distinct (i ∷ is)) in
      elim (Bool-cases test) [
        | inl e ↦ inl (rw e)
        | inr e ↦ inr (domain bad_request media_not_attachable, rw e)
      ]

  insert_once-new :
      (m : Message) (s : Store p)
      → find_sent p scanner bucket m.conversation_id m.sender_user_id m.client_message_id s ≡ none
      → (insert_once p scanner bucket m s ≡ (ok m, record s { messages = s.messages ++ m ∷ [] }))
        ⊎ ((e : Failure) × (insert_once p scanner bucket m s ≡ (err e, s)))
  unfolding insert_once
  insert_once-new m s new = elim (Bool-cases (any (message_clashes m) s.messages)) [
    | inr free ↦ inl (rw (p.mongo.create_lem, free))
    | inl taken ↦ inr (duplicate_key, rw (p.mongo.create_lem, taken, new))
  ]

  allocate_seq-found :
      (now : ℕ) (c : Conversation) (s : Store p)
      → find? (by_id c.id) s.conversations ≡ some c
      → allocate_seq p c.id now s ≡ (
        ok (bumped now c),
        record s { conversations = update_first (by_id c.id) (bumped now) s.conversations },
      )
  unfolding allocate_seq update_conversation
  allocate_seq-found now c s h = rw (p.mongo.find_one_lem, h, p.mongo.update_one_lem)

  pub view_one-doc :
      (now : ℕ) (m : Message) (user : ℕ) (c : Conversation) (s : Store p)
      → (v : MessageView) × (view_one p scanner bucket now m user c s ≡ (ok v, s)) × (v.doc ≡ m)
  unfolding view_one view_many to_message_view
  view_one-doc now m user c s = (_, refl, refl)

  -- `find_sent` reads the messages only.
  sent_before :
      (c user key : ℕ) (s : Store p) (cs : List Conversation)
      → find_sent p scanner bucket c user key s ≡ none
      → find_sent p scanner bucket c user key (record s { conversations = cs }) ≡ none
  unfolding find_sent
  sent_before c user key s cs h = h

  pub doc_of : {v w : MessageView} {m : Message} → ok w ≡ ok v → w.doc ≡ m → v.doc ≡ m
  doc_of h e = cc

  pub clash : {e : Failure} {v : MessageView} → err e ≡ ok v → ⊥
  clash h = cc

  -- The message that `send` makes of its input.
  abbrev pub message_of : (now fresh user : ℕ) → Conversation → SendMessageInput → Message
  message_of now fresh user c i =
      new_message fresh now (bumped now c) user (protect scanner (trim i.body) c.contact_policy) i

  -- The store once it is stored.
  abbrev pub with_message :
      (now fresh user : ℕ) → Conversation → SendMessageInput → Store p → Store p
  with_message now fresh user c i s = record s {
    conversations = update_first (by_id c.id) (bumped now) s.conversations;
    messages = s.messages ++ message_of now fresh user c i ∷ [];
    events = s.events ++ to_both message_created (bumped now c) (message_of now fresh user c i);
  }

  send_new-ok :
      (now fresh user : ℕ) (c : Conversation) (i : SendMessageInput) (s : Store p) {v : MessageView}
      → find? (by_id c.id) s.conversations ≡ some c
      → find_sent p scanner bucket c.id user i.client_message_id s ≡ none
      → (send_new p scanner bucket now fresh user c i s).0 ≡ ok v
      → (v.doc ≡ message_of now fresh user c i)
        × ((send_new p scanner bucket now fresh user c i s).1 ≡ with_message now fresh user c i s)
        × (can_send p now c s ≡ true)
  unfolding send_new publish
  send_new-ok now fresh user c i s {v} h new r = elim (assert_can_send-cases now c s) [
    | inr (x, e) ↦ absurd (clash (rw e at r))
    | inl (e, open') ↦ elim (require_reply_target-IsCheck c.id i.reply_to_message_id s) [
      | inr (x, f) ↦ absurd (clash (rw (e, f) at r))
      | inl f ↦ elim (require_attachable-IsCheck i.attachment_media_ids user c.id s) [
        | inr (x, g) ↦ absurd (clash (rw (e, f, g) at r))
        | inl g ↦
            let m = message_of now fresh user c i in
            let cs = update_first (by_id c.id) (bumped now) s.conversations in
            let a = allocate_seq-found now c s h in
            elim (insert_once-new m (record s { conversations = cs })
              (sent_before c.id user i.client_message_id s cs new)) [
                | inr (x, n) ↦ absurd (clash (rw (e, f, g, a, n) at r))
                | inl n ↦
                    let (w, seen, doc) =
                      view_one-doc now m user (bumped now c) (with_message now fresh user c i s) in
                    rw (e, f, g, a, n, seen)
                      (doc_of (rw (e, f, g, a, n, seen) at r) doc, refl, open')
              ]
      ]
    ]
  ]

  pub participant-cases :
      (id user : ℕ) (s : Store p) {c : Conversation}
      → find? (by_id id) s.conversations ≡ some c
      → ((r : ChatParticipantRole) × (require_participant p id user s
            ≡ (ok (record { conversation = c; role = r }), s))
          × (role_of c user ≡ some r))
        ⊎ (require_participant p id user s ≡ (err forbidden, s))
  unfolding require_participant
  participant-cases id user s {c} h = elim (Option-cases (role_of c user)) [
    | inl e ↦ inr (rw (p.mongo.find_one_lem, h, e))
    | inr (r, e) ↦ inl (r, rw (p.mongo.find_one_lem, h, e), e)
  ]

  pub participant_again :
      (id user : ℕ) (s : Store p) {c : Conversation} {r : ChatParticipantRole}
      → find? (by_id id) s.conversations ≡ some c
      → role_of c user ≡ some r
      → require_participant p id user s ≡ (ok (record { conversation = c; role = r }), s)
  unfolding require_participant
  participant_again id user s h e = rw (p.mongo.find_one_lem, h, e)

  -- A call of `send` that succeeds, where the sender has sent no message under that key in the
  -- conversation: the sender is one of its two sides and the conversation accepts messages. Exactly
  -- one message is stored, after the others, and both sides are told of it: it has the number after
  -- the last one, which becomes the last one, and its body is the trimmed text, protected as the
  -- policy of the conversation says. Nothing else is written.
  pub send-with_message :
      (now fresh id user : ℕ) (i : SendMessageInput) (s : Store p) {c : Conversation}
      {v : MessageView}
      → find? (by_id id) s.conversations ≡ some c
      → find_sent p scanner bucket id user i.client_message_id s ≡ none
      → (send p scanner bucket now fresh id user i s).0 ≡ ok v
      → (v.doc ≡ message_of now fresh user c i)
        × (v.doc.seq ≡ c.last_message_seq + 1)
        × (v.doc.body ≡ (protect scanner (trim i.body) c.contact_policy).text)
        × ((send p scanner bucket now fresh id user i s).1 ≡ with_message now fresh user c i s)
        × (can_send p now c s ≡ true)
        × (is_some (role_of c user) ≡ true)
  unfolding send send_found
  send-with_message now fresh id user i s {c} {v} h new r = elim (participant-cases id user s h) [
    | inr e ↦ absurd (clash (rw e at r))
    | inl (role, e, is_side) ↦
        let same : c.id ≡ id = key_of_find {A = Conversation} (λ d. d.id) id s.conversations h in
        let (doc, state, open') =
          send_new-ok now fresh user c i s
            (subst (λ k. find? (by_id k) s.conversations ≡ some c) (sym same) h)
            (subst (λ k. find_sent p scanner bucket k user i.client_message_id s ≡ none) (sym same)
              new)
            (rw (e, new) at r) in
        (doc, ap (λ m. m.seq) doc, ap (λ m. m.body) doc, rw (e, new) state, open', rw is_side)
  ]
