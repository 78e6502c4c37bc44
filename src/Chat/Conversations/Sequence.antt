-- ===== src/Chat/Conversations/Sequence.antt =====
-- The sequence numbers of a conversation's messages: `allocateSeq` of
-- apps/api/src/chat/conversation.service.ts, however it mixes with the other writes.
use appforfixiyi.Common.{
  ℕ, ◌+◌, ◌≡◌, refl, Bool, Option, some, List, [], ◌∷◌, ◌++◌, inl, inr, ◌==◌, ==_iff, Bool-cases,
  Option-cases, find?, find-update, find-append, if◌then◌else◌, ok, err, Result, any, update_first,
  ap, ◌∙◌, ◌⊎◌,
}
use mathlib.Core.Option.{some-injective}
use appforfixiyi.Store.Entities.Chat.{Conversation, ChatParticipantRole, client, provider}
use appforfixiyi.Requests.Attachments.{RequestSummary}
use appforfixiyi.Matching.Platform.{Platform}
use appforfixiyi.Matching.Dispatch.{Store}
use appforfixiyi.Matching.Service.{Candidacy}
use appforfixiyi.Chat.Conversations.{
  by_id, clashes, new_conversation, bumped, raise, unlocked_at, is_protected_by_id, Receipt,
  delivered_up_to, read_up_to, find_between, create_once, update_conversation, allocate_seq,
  advance_watermarks, unlock,
}

-- The round trips that write conversations.
pub data ConversationStep : Type 0 where
  allocate_step : (id at : ℕ) → ConversationStep
  advance_step : Conversation → ChatParticipantRole → Receipt → ConversationStep
  unlock_step : (now : ℕ) → Conversation → ConversationStep
  create_step : (fresh : ℕ) → RequestSummary → (user : ℕ) → Candidacy → ConversationStep

abbrev pub seq_of : Result Conversation → List ℕ
seq_of (ok c) = c.last_message_seq ∷ []
seq_of (err e) = []

-- Each number is the one after the number before.
abbrev pub CountsFrom : ℕ → List ℕ → Type 0
CountsFrom n [] = Unit
CountsFrom n (x ∷ xs) = (x ≡ n + 1) × CountsFrom x xs

-- An update of a conversation that leaves ids and numbers alone.
kept :
    (id : ℕ) (test : Conversation → Bool) (f : Conversation → Conversation) (cs : List Conversation)
    {c : Conversation}
    → ((d : Conversation) → (f d).id ≡ d.id)
    → ((d : Conversation) → (f d).last_message_seq ≡ d.last_message_seq)
    → find? (by_id id) cs ≡ some c
    → (d : Conversation) × (find? (by_id id) (update_first test f cs) ≡ some d)
      × (d.last_message_seq ≡ c.last_message_seq)
kept id test f [] same keep h = absurd (cc)
kept id test f (x ∷ xs) {c} same keep h = elim (Bool-cases (x.id == id)) [
  | inl e ↦
      let this : x ≡ c = some-injective x c (rw e at h) in
      elim (Bool-cases (test x)) [
        | inl t ↦ (f x, rw (t, same x, e), keep x ∙ ap (λ d. d.last_message_seq) this)
        | inr t ↦ (x, rw (t, e), ap (λ d. d.last_message_seq) this)
      ]
  | inr e ↦ elim (Bool-cases (test x)) [
    | inl t ↦ (c, rw (t, same x, e) (rw e at h), refl)
    | inr t ↦
        let (d, found, last) = kept id test f xs {c = c} same keep (rw e at h) in
        (d, rw (t, e) found, last)
  ]
]

pub raise-id :
    (role : ChatParticipantRole) (n : ℕ) (r : Option ℕ) (d : Conversation)
    → (raise role n r d).id ≡ d.id
raise-id client n r d = refl
raise-id provider n r d = refl

raise-last :
    (role : ChatParticipantRole) (n : ℕ) (r : Option ℕ) (d : Conversation)
    → (raise role n r d).last_message_seq ≡ d.last_message_seq
raise-last client n r d = refl
raise-last provider n r d = refl

module _ (p : Platform) where
  unfoldable pub run_step : ConversationStep → Store p → Store p
  run_step (allocate_step id at) s = (allocate_seq p id at s).1
  run_step (advance_step c role up) s = (advance_watermarks p c role up s).1
  run_step (unlock_step now c) s = (unlock p now c s).1
  run_step (create_step fresh r user k) s = (create_once p fresh r user k s).1

  -- The number that a step allocates in a conversation.
  unfoldable pub number_of : (id : ℕ) → ConversationStep → Store p → List ℕ
  number_of id (allocate_step i at) s = if i == id then seq_of (allocate_seq p i at s).0 else []
  number_of id _ s = []

  unfoldable pub numbers : (id : ℕ) → List ConversationStep → Store p → List ℕ
  numbers id [] s = []
  numbers id (t ∷ ts) s = number_of id t s ++ numbers id ts (run_step t s)

  allocated :
      (i at : ℕ) (s : Store p)
      → (allocate_seq p i at s).1
        ≡ record s { conversations = update_first (by_id i) (bumped at) s.conversations }
  unfolding allocate_seq update_conversation
  allocated i at s = elim (Option-cases (p.mongo.find_one (by_id i) s.conversations)) [
    | inl n ↦ rw (n, p.mongo.update_one_lem)
    | inr (d, n) ↦ rw (n, p.mongo.update_one_lem)
  ]

  advanced :
      (k : Conversation) (role : ChatParticipantRole) (up : Receipt) (s : Store p)
      → (advance_watermarks p k role up s).1 ≡ record s {
        conversations =
            update_first
              (by_id k.id)
              (raise role
                (delivered_up_to k.last_message_seq up)
                (read_up_to k.last_message_seq up.read))
              s.conversations;
      }
  unfolding advance_watermarks update_conversation
  advanced k role up s = elim (Option-cases (p.mongo.find_one (by_id k.id) s.conversations)) [
    | inl n ↦ rw (n, p.mongo.update_one_lem)
    | inr (d, n) ↦ rw (n, p.mongo.update_one_lem)
  ]

  created :
      (fresh : ℕ) (r : RequestSummary) (user : ℕ) (k : Candidacy) (s : Store p)
      → (create_once p fresh r user k s).1 ≡ (
          if any (clashes (new_conversation fresh r user k.provider_id)) s.conversations
          then s
          else record s {
            conversations = s.conversations ++ new_conversation fresh r user k.provider_id ∷ [];
          })
  unfolding create_once
  created fresh r user k s =
      elim (Bool-cases
        (any (clashes (new_conversation fresh r user k.provider_id)) s.conversations)) [
          | inr free ↦ rw (p.mongo.create_lem, free)
          | inl taken ↦ elim (Option-cases (find_between p r.id user s)) [
            | inl n ↦ rw (p.mongo.create_lem, taken, n)
            | inr (w, n) ↦ rw (p.mongo.create_lem, taken, n)
          ]
        ]

  -- A step leaves the conversation there, with the number that it allocated as its last, if any.
  next_last :
      (id : ℕ) (t : ConversationStep) (s : Store p) {c : Conversation}
      → find? (by_id id) s.conversations ≡ some c
      → (d : Conversation) × (find? (by_id id) (run_step t s).conversations ≡ some d)
        × (((number_of id t s ≡ []) × (d.last_message_seq ≡ c.last_message_seq))
            ⊎ ((number_of id t s ≡ d.last_message_seq ∷ [])
                × (d.last_message_seq ≡ c.last_message_seq + 1)))
  unfolding run_step number_of allocate_seq unlock update_conversation
  next_last id (allocate_step i at) s {c} h = elim (Bool-cases (i == id)) [
    | inl e ↦
        let here : i ≡ id = (==_iff i id).0 e in
        let found : find? (by_id i) s.conversations ≡ some c = rw here h in
        (
          bumped at c,
          ap (λ t. find? (by_id id) t.conversations) (allocated i at s)
              ∙ rw (
                find-update {A = Conversation} (λ d. d.id) (bumped at) (λ d. refl) id i
                    s.conversations,
                e,
                h,
              ),
          inr (rw (e, p.mongo.find_one_lem, found), refl),
        )
    | inr e ↦ (
      c,
      ap (λ t. find? (by_id id) t.conversations) (allocated i at s)
          ∙ rw
              (
                find-update {A = Conversation} (λ d. d.id) (bumped at) (λ d. refl) id i
                    s.conversations,
                e,
              )
              h,
      inl (rw e, refl),
    )
  ]
  next_last id (advance_step k role up) s {c} h =
      let (d, found, last) =
        kept id (by_id k.id)
          (raise role (delivered_up_to k.last_message_seq up)
            (read_up_to k.last_message_seq up.read))
          s.conversations {c = c} (raise-id role _ _) (raise-last role _ _) h in
      (
        d,
        ap (λ t. find? (by_id id) t.conversations) (advanced k role up s) ∙ found,
        inl (refl, last),
      )
  next_last id (unlock_step now k) s {c} h =
      let (d, found, last) =
        kept id (is_protected_by_id k.id) (unlocked_at now) s.conversations {c = c} (λ d. refl)
          (λ d. refl) h in
      (
        d,
        ap (find? (by_id id))
              (p.mongo.update_one_lem (is_protected_by_id k.id) (unlocked_at now) s.conversations)
            ∙ found,
        inl (refl, last),
      )
  next_last id (create_step fresh r user k) s {c} h =
      let new = new_conversation fresh r user k.provider_id in
      elim (Bool-cases (any (clashes new) s.conversations)) [
        | inr free ↦ (
          c,
          ap (λ t. find? (by_id id) t.conversations) (created fresh r user k s)
              ∙ rw (
                free,
                find-append {A = Conversation} (λ d. d.id) id s.conversations (new ∷ []),
                h,
              ),
          inl (refl, refl),
        )
        | inl taken ↦ (
          c,
          ap (λ t. find? (by_id id) t.conversations) (created fresh r user k s) ∙ rw taken h,
          inl (refl, refl),
        )
      ]

  -- Of any mix of the writes of conversations (numbers allocated, receipts, unlocking, creation), the
  -- numbers that are allocated in a conversation count up by one from its last number: none is
  -- left out, and none is allocated twice.
  pub numbers-CountsFrom :
      (id : ℕ) (ts : List ConversationStep) (s : Store p) {c : Conversation}
      → find? (by_id id) s.conversations ≡ some c
      → CountsFrom c.last_message_seq (numbers id ts s)
  unfolding numbers
  numbers-CountsFrom id [] s h = tt
  numbers-CountsFrom id (t ∷ ts) s {c} h =
      let (d, found, number) = next_last id t s h in
      elim number [
        | inl (none', last) ↦ rw (none', ← last) (numbers-CountsFrom id ts (run_step t s) found)
        | inr (one, last) ↦ rw one (last, numbers-CountsFrom id ts (run_step t s) found)
      ]
