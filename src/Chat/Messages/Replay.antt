-- ===== src/Chat/Messages/Replay.antt =====
-- A message that is sent again under its key is not stored again: `send` of
-- apps/api/src/chat/message.service.ts.
use appforfixiyi.Common.{
  ℕ, ◌≡◌, refl, sym, ◌∙◌, ap, subst, Bool, true, none, some, List, [], ◌∷◌, ◌++◌, inl, inr, ==_refl,
  ==_iff, Bool-cases, Option-cases, find?, find-update, key_of_find, ok,
}
use appforfixiyi.Store.Entities.Chat.{Conversation, ChatParticipantRole, Message}
use appforfixiyi.Storage.{Bucket}
use appforfixiyi.Matching.Platform.{Platform}
use appforfixiyi.Matching.Dispatch.{Store}
use appforfixiyi.Chat.Contacts.{Scanner}
use appforfixiyi.Chat.Conversations.{by_id, role_of, bumped}
use appforfixiyi.Chat.Messages.{
  SendMessageInput, MessageView, is_sent_as, find_sent, send_found, send,
}
use appforfixiyi.Chat.Messages.Sending.{
  view_one-doc, doc_of, clash, participant-cases, participant_again, message_of, with_message,
  send-with_message,
}

found_last {ℓ} :
    {A : Type ℓ} (q : A → Bool) (xs : List A) (x : A)
    → find? q xs ≡ none
    → q x ≡ true
    → find? q (xs ++ x ∷ []) ≡ some x
found_last q [] x h e = rw e
found_last q (y ∷ ys) x h e = elim (Bool-cases (q y)) [
  | inl t ↦ absurd (clash (rw t at h))
  | inr t ↦ rw t (found_last q ys x (rw t at h) e)
]
  where
    clash : some y ≡ none → ⊥
    clash e = cc

module _ (p : Platform) (scanner : Scanner) (bucket : Bucket) where
  found_again :
      (now fresh user : ℕ) (c : Conversation) (i : SendMessageInput) (s : Store p)
      → find_sent p scanner bucket c.id user i.client_message_id s ≡ none
      → find_sent p scanner bucket c.id user i.client_message_id
          (with_message p scanner bucket now fresh user c i s)
        ≡ some (message_of p scanner bucket now fresh user c i)
  unfolding find_sent
  found_again now fresh user c i s new =
      p.mongo.find_one_lem _ _
      ∙ found_last (is_sent_as c.id user i.client_message_id) s.messages
          (message_of p scanner bucket now fresh user c i)
          (sym (p.mongo.find_one_lem (is_sent_as c.id user i.client_message_id) s.messages) ∙ new)
          (rw (==_refl c.id, ==_refl user, ==_refl i.client_message_id))

  replayed :
      (now fresh id user : ℕ) (i : SendMessageInput) (t : Store p) {c : Conversation}
      {role : ChatParticipantRole} {m : Message}
      → find? (by_id id) t.conversations ≡ some c
      → role_of c user ≡ some role
      → find_sent p scanner bucket id user i.client_message_id t ≡ some m
      → (w : MessageView) × (send p scanner bucket now fresh id user i t ≡ (ok w, t)) × (w.doc ≡ m)
  unfolding send send_found
  replayed now fresh id user i t {c} {role} {m} h e old =
      let (w, seen, doc) = view_one-doc p scanner bucket now m user c t in
      (w, rw (participant_again p scanner bucket id user t h e, old, seen), doc)

  -- What a call that succeeds leaves for a later one.
  sent_lem :
      (now fresh id user : ℕ) (i : SendMessageInput) (s : Store p) {c : Conversation}
      {v : MessageView}
      → find? (by_id id) s.conversations ≡ some c
      → (send p scanner bucket now fresh id user i s).0 ≡ ok v
      → let s₁ = (send p scanner bucket now fresh id user i s).1 in
        (d : Conversation) × (role : ChatParticipantRole) × (find? (by_id id) s₁.conversations
          ≡ some d)
        × (role_of d user ≡ some role)
        × (find_sent p scanner bucket id user i.client_message_id s₁ ≡ some v.doc)
  unfolding send send_found
  sent_lem now fresh id user i s {c} {v} h r =
      elim (participant-cases p scanner bucket id user s h) [
        | inr e ↦ absurd (clash p scanner bucket (rw e at r))
        | inl (role, e, is_side) ↦
            elim (Option-cases (find_sent p scanner bucket id user i.client_message_id s)) [
              | inr (m, old) ↦
                  let (w, seen, doc) = view_one-doc p scanner bucket now m user c s in
                  (
                    c,
                    role,
                    rw (e, old, seen) h,
                    is_side,
                    rw (e, old, seen)
                        (old
                          ∙ ap some (sym (doc_of p scanner bucket (rw (e, old, seen) at r) doc))),
                  )
              | inl new ↦
                  let (doc, _, _, state, _, _) =
                    send-with_message p scanner bucket now fresh id user i s h new r in
                  let same : c.id ≡ id =
                    key_of_find {A = Conversation} (λ d. d.id) id s.conversations h in
                  (
                    bumped now c,
                    role,
                    ap (λ t. find? (by_id id) t.conversations) state
                        ∙ rw (
                          find-update {A = Conversation} (λ d. d.id) (bumped now) (λ d. refl) id
                              c.id s.conversations,
                          (==_iff c.id id).1 same,
                          h,
                        ),
                    is_side,
                    ap (find_sent p scanner bucket id user i.client_message_id) state
                        ∙ subst
                            (λ k.
                              find_sent p scanner bucket k user i.client_message_id
                                (with_message p scanner bucket now fresh user c i s)
                              ≡ some (message_of p scanner bucket now fresh user c i))
                            same
                            (found_again now fresh user c i s (
                              subst
                                (λ k.
                                  find_sent p scanner bucket k user i.client_message_id s ≡ none)
                                (sym same) new))
                        ∙ ap some (sym doc),
                  )
            ]
      ]

  -- A message that was sent with success is sent again under the same key, at any later time and with
  -- whatever content. Where the conversations and the messages are still the same, whatever became
  -- of the other collections (so too where the conversation is closed to new messages), the call succeeds, answers with the message
  -- that was stored, and changes nothing.
  pub send-again :
      (now fresh id user : ℕ) (i : SendMessageInput) (s : Store p) {c : Conversation}
      {v : MessageView} (later other : ℕ) (j : SendMessageInput) (t : Store p)
      → find? (by_id id) s.conversations ≡ some c
      → (send p scanner bucket now fresh id user i s).0 ≡ ok v
      → j.client_message_id ≡ i.client_message_id
      → t.conversations ≡ (send p scanner bucket now fresh id user i s).1.conversations
      → t.messages ≡ (send p scanner bucket now fresh id user i s).1.messages
      → (w : MessageView) × (send p scanner bucket later other id user j t ≡ (ok w, t))
        × (w.doc ≡ v.doc)
  unfolding find_sent
  send-again now fresh id user i s {c} {v} later other j t h r key cs ms =
      let (d, role, found, is_side, old) = sent_lem now fresh id user i s h r in
      replayed later other id user j t {c = d} {role = role} {m = v.doc} (rw cs found) is_side
        (rw (key, ms) old)
