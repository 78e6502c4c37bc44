-- ===== src/Chat/Conversations.antt =====
-- apps/api/src/chat/conversation.service.ts: conversations, their sequence numbers and the receipts
-- of the two sides. `now` is the instant of the call.
pub mod Sequence
pub mod Receipts
use appforfixiyi.Common.{
  ℕ, zero, suc, ◌+◌, Bool, true, false, not, ◌&&◌, ◌||◌, Option, none, some, List, [], ◌∷◌, length,
  map, find?, any, ◌==◌, ltb, leb, if◌then◌else◌, min, max, ok, err, Exec, Failure, pure, gets,
  modify, throw, guard, require_some, continue, ◌>>=◌, ◌>>◌, get_or, or_else, is_some, truthy,
  apply, contains, distinct, not_found, forbidden, domain, duplicate_key, bad_request, conflict,
  forbidden_status, conversation_not_dispatched, conversation_closed,
  conversation_candidate_required,
}
use appforfixiyi.Store.Database.{Db, store_created}
use appforfixiyi.Store.Entities.Requests.{RequestStatus, cancelled, expired}
use appforfixiyi.Store.Entities.Matching.{ProviderProfile}
use appforfixiyi.Store.Entities.Auth.{User}
use appforfixiyi.Store.Entities.Chat.{
  Conversation, ContactPolicy, protected, unlocked, ChatParticipantRole, client, provider, Message,
}
use appforfixiyi.Requests.Attachments.{RequestSummary, find_summaries, summary_of}
use appforfixiyi.Providers.{find_many_by_ids}
use appforfixiyi.Matching.Platform.{Platform}
use appforfixiyi.Matching.Dispatch.{Store}
use appforfixiyi.Matching.Service.{
  Candidacy, NamedCandidacy, find_candidacy, find_candidacy_by_id, find_candidacies, candidacy_of,
  mark_candidacy_viewed,
}

pub record OpenConversationInput : Type 0 where
  pub request_id : ℕ
  pub candidate_id : Option ℕ

pub record Participation : Type 0 where
  pub conversation : Conversation
  pub role : ChatParticipantRole

abbrev pub role_of : Conversation → (user : ℕ) → Option ChatParticipantRole
role_of c user =
    if c.client_user_id == user
    then some client
    else if c.provider_user_id == user
    then some provider
    else none

abbrev pub counterpart_of : Conversation → ChatParticipantRole → ℕ
counterpart_of c client = c.provider_user_id
counterpart_of c provider = c.client_user_id

-- `watermarksOf`.
abbrev pub delivered_of : Conversation → ChatParticipantRole → ℕ
delivered_of c client = c.client_delivered_seq
delivered_of c provider = c.provider_delivered_seq

abbrev pub read_of : Conversation → ChatParticipantRole → ℕ
read_of c client = c.client_read_seq
read_of c provider = c.provider_read_seq

-- CLOSED_REQUEST_STATUSES.
abbrev pub is_closed : RequestStatus → Bool
is_closed cancelled = true
is_closed expired = true
is_closed _ = false

abbrev pub is_unlocked : ContactPolicy → Bool
is_unlocked unlocked = true
is_unlocked protected = false

-- `candidacy?.live ?? false`.
abbrev pub is_live : Option Candidacy → Bool
is_live none = false
is_live (some c) = c.live

unfoldable pub compute_can_send : Conversation → Option RequestSummary → Option Candidacy → Bool
compute_can_send c none candidacy = false
compute_can_send c (some r) candidacy =
    if is_closed r.status
    then false
    else if is_unlocked c.contact_policy
    then true
    else is_live candidacy

abbrev pub not_dispatched : Failure
not_dispatched = domain forbidden_status conversation_not_dispatched

abbrev pub by_id : ℕ → Conversation → Bool
by_id i c = c.id == i

abbrev pub is_between : (request provider_user : ℕ) → Conversation → Bool
is_between request user c = c.request_id == request && c.provider_user_id == user

-- The unique indexes: `_id`, and the pair of `requestId` and `providerUserId`.
abbrev pub clashes : Conversation → Conversation → Bool
clashes a b = a.id == b.id || is_between a.request_id a.provider_user_id b

abbrev pub new_conversation :
    (fresh : ℕ) → RequestSummary → (provider_user provider_id : ℕ) → Conversation
new_conversation fresh r user provider_id = record {
  id = fresh;
  request_id = r.id;
  client_user_id = r.client_user_id;
  provider_user_id = user;
  provider_id = provider_id;
  contact_policy = protected;
  contact_unlocked_at = none;
  last_message_seq = 0;
  last_message_at = none;
  client_delivered_seq = 0;
  client_read_seq = 0;
  provider_delivered_seq = 0;
  provider_read_seq = 0;
}

-- `sort({ lastMessageAt: -1, createdAt: -1 })`; null comes last, and later ids are younger.
abbrev pub latest_first : Conversation → Conversation → Bool
latest_first a b = elim a.last_message_at [
  | none ↦ elim b.last_message_at [ none ↦ leb b.id a.id | some y ↦ false ]
  | some x ↦ elim b.last_message_at [ none ↦ true | some y ↦ ltb y x || (x == y && leb b.id a.id) ]
]

-- The view of a conversation for one of its sides; `none` for the name stands for the client's label
-- or an unknown provider's.
pub record ConversationView : Type 0 where
  pub doc : Conversation
  pub my_role : ChatParticipantRole
  pub counterpart : ℕ
  pub display_name : Option ℕ
  pub phone : Option ℕ
  pub can_send : Bool
  pub unread_count : ℕ

abbrev pub display_name_of : Option ProviderProfile → ChatParticipantRole → Option ℕ
display_name_of profile provider = none
display_name_of none client = none
display_name_of (some p) client = some p.display_name

-- The verified phone of the account, once contact is unlocked.
abbrev pub phone_of : Option User → ContactPolicy → Option ℕ
phone_of none policy = none
phone_of (some u) policy =
    if is_unlocked policy && is_some u.phone_verified_at then some u.phone else none

abbrev pub participations : List Conversation → (viewer : ℕ) → List Participation
participations [] viewer = []
participations (c ∷ cs) viewer = elim (role_of c viewer) [
  | none ↦ participations cs viewer
  | some r ↦ record { conversation = c; role = r } ∷ participations cs viewer
]

abbrev pub is_unread : List Participation → (viewer : ℕ) → Message → Bool
is_unread ps viewer m =
    any (λ q. q.conversation.id == m.conversation_id && ltb (read_of q.conversation q.role) m.seq)
      ps
    && not (m.sender_user_id == viewer)
    && not (is_some m.deleted_at)

-- `unlockContact`'s update, and `allocateSeq`'s.
abbrev pub unlocked_at : (now : ℕ) → Conversation → Conversation
unlocked_at now c = record c { contact_policy = unlocked; contact_unlocked_at = some now }

abbrev pub bumped : (at : ℕ) → Conversation → Conversation
bumped at c = record c { last_message_seq = c.last_message_seq + 1; last_message_at = some at }

-- `$max` of one side's watermarks; without `read` only the delivery moves.
abbrev pub raise :
    ChatParticipantRole → (delivered : ℕ) → (read : Option ℕ) → Conversation → Conversation
raise client delivered read c = record c {
  client_delivered_seq = max c.client_delivered_seq delivered;
  client_read_seq = max c.client_read_seq (get_or read 0);
}
raise provider delivered read c = record c {
  provider_delivered_seq = max c.provider_delivered_seq delivered;
  provider_read_seq = max c.provider_read_seq (get_or read 0);
}

pub record Receipt : Type 0 where
  pub delivered : ℕ
  pub read : Option ℕ

-- What `advanceWatermarks` asks for, clamped to the last number of the conversation as it was read.
abbrev pub read_up_to : (last : ℕ) → Option ℕ → Option ℕ
read_up_to last none = none
read_up_to last (some r) = some (min r last)

abbrev pub delivered_up_to : (last : ℕ) → Receipt → ℕ
delivered_up_to last up = min (max up.delivered (get_or (read_up_to last up.read) 0)) last

abbrev pub is_protected_by_id : ℕ → Conversation → Bool
is_protected_by_id id c = c.id == id && not (is_unlocked c.contact_policy)

-- A candidacy of another request is as good as none.
abbrev pub is_of_request : Option NamedCandidacy → (request : ℕ) → Bool
is_of_request none request = false
is_of_request (some c) request = c.request_id == request

module _ (p : Platform) where
  unfoldable pub find_users : List ℕ → Store p → List User
  find_users ids s = p.mongo.find (λ u. contains u.id (distinct ids)) s.users

  unfoldable pub count_unread : List Participation → (viewer id : ℕ) → Store p → ℕ
  count_unread ps viewer id s =
      length (p.mongo.find (λ m. m.conversation_id == id && is_unread ps viewer m) s.messages)

  -- The view of one participation, from the lookups that are made for all of them.
  abbrev pub to_view :
      (now viewer : ℕ) → List Participation → Store p → Participation → ConversationView
  to_view now viewer ps s q =
      let c = q.conversation in
      record {
        doc = c;
        my_role = q.role;
        counterpart = counterpart_of c q.role;
        display_name =
            display_name_of
              (find? (λ d. d.id == c.provider_id)
                (find_many_by_ids p.mongo (map (λ q. q.conversation.provider_id) ps) s))
              q.role;
        phone =
            phone_of
              (find? (λ u. u.id == counterpart_of c q.role)
                (find_users (map (λ q. counterpart_of q.conversation q.role) ps) s))
              c.contact_policy;
        can_send =
            compute_can_send c
              (summary_of c.request_id
                (find_summaries p.mongo (map (λ q. q.conversation.request_id) ps) s))
              (candidacy_of c.request_id c.provider_user_id (
                find_candidacies p now
                  (map (λ q. (q.conversation.request_id, q.conversation.provider_user_id)) ps) s));
        unread_count = count_unread ps viewer c.id s;
      }

  unfoldable pub to_views : (now viewer : ℕ) → List Conversation → Store p → List ConversationView
  to_views now viewer cs s = let ps = participations cs viewer in map (to_view now viewer ps s) ps

  abbrev pub first_view : List ConversationView → Exec (Store p) ConversationView
  first_view [] = throw forbidden
  first_view (v ∷ vs) = pure v

  unfoldable pub view_for : (now : ℕ) → Conversation → (user : ℕ) → Exec (Store p) ConversationView
  unfolding to_views
  view_for now c user = do views ← gets (to_views now user (c ∷ [])); first_view views

  unfoldable pub require_participant : (id user : ℕ) → Exec (Store p) Participation
  require_participant id user = do
    found ← gets (λ s. p.mongo.find_one (by_id id) s.conversations)
    c ← require_some found not_found
    role ← require_some (role_of c user) forbidden
    pure (record { conversation = c; role = role })

  unfoldable pub get_for_participant : (now id user : ℕ) → Exec (Store p) ConversationView
  get_for_participant now id user = do
    q ← require_participant id user
    view_for now q.conversation user

  unfoldable pub list_mine : (now user : ℕ) → Store p → List ConversationView
  list_mine now user s =
      to_views now user
        (p.mongo.sort latest_first (
          p.mongo.find (λ c. c.client_user_id == user || c.provider_user_id == user)
            s.conversations))
        s

  abbrev pub can_send : (now : ℕ) → Conversation → Store p → Bool
  can_send now c s =
      compute_can_send c (summary_of c.request_id (find_summaries p.mongo (c.request_id ∷ []) s))
        (find_candidacy p now c.request_id c.provider_user_id s)

  unfoldable pub assert_can_send : (now : ℕ) → Conversation → Exec (Store p) (Unit {0})
  assert_can_send now c = do
    open' ← gets (can_send now c)
    guard open' (domain conflict conversation_closed)

  unfoldable pub resolve_candidacy :
      (now user : ℕ) → (is_client : Bool) → OpenConversationInput → Exec (Store p) (ℕ × Candidacy)
  resolve_candidacy now user true i = do
    guard (truthy i.candidate_id) (domain bad_request conversation_candidate_required)
    found ← gets (find_candidacy_by_id p now (get_or i.candidate_id 0))
    guard (is_of_request found i.request_id) not_dispatched
    c ← require_some found not_dispatched
    pure (c.provider_user_id, c.candidacy)
  resolve_candidacy now user false i = do
    guard (not (truthy i.candidate_id)) forbidden
    found ← gets (find_candidacy p now i.request_id user)
    c ← require_some found not_dispatched
    pure (user, c)

  unfoldable pub find_between : (request user : ℕ) → Store p → Option Conversation
  find_between request user s = p.mongo.find_one (is_between request user) s.conversations

  -- `create`, and on a duplicate key the conversation that is there.
  abbrev pub created_or_winner :
      Conversation → Option (List Conversation) → Option Conversation → Exec (Store p) Conversation
  created_or_winner c (some cs) winner s = (ok c, record s { conversations = cs })
  created_or_winner c none (some w) s = (ok w, s)
  created_or_winner c none none s = (err duplicate_key, s)

  unfoldable pub create_once :
      (fresh : ℕ) → RequestSummary → (user : ℕ) → Candidacy → Exec (Store p) Conversation
  create_once fresh r user candidacy = do
    made ← gets (λ s.
        p.mongo.create clashes (new_conversation fresh r user candidacy.provider_id)
          s.conversations)
    winner ← gets (find_between r.id user)
    created_or_winner (new_conversation fresh r user candidacy.provider_id) made winner

  unfoldable pub open_new :
      (now fresh user provider_user : ℕ)
      → RequestSummary
      → Candidacy
      → Option Conversation
      → Exec (Store p) ConversationView
  open_new now fresh user provider_user r candidacy (some c) = view_for now c user
  open_new now fresh user provider_user r candidacy none = do
    guard (not (is_closed r.status || not candidacy.live)) (domain conflict conversation_closed)
    c ← create_once fresh r provider_user candidacy
    view_for now c user

  unfoldable pub open_conversation :
      (now fresh user : ℕ) → OpenConversationInput → Exec (Store p) ConversationView
  open_conversation now fresh user i = do
    summaries ← gets (find_summaries p.mongo (i.request_id ∷ []))
    r ← require_some (summary_of i.request_id summaries) not_found
    resolved ← resolve_candidacy now user (r.client_user_id == user) i
    (if r.client_user_id == user then pure tt else mark_candidacy_viewed p resolved.1.candidate_id)
    existing ← gets (find_between r.id resolved.0)
    open_new now fresh user resolved.0 r resolved.1 existing

  -- `findOneAndUpdate` by `_id`, answered by the updated conversation.
  unfoldable pub update_conversation :
      ℕ → (Conversation → Conversation) → Exec (Store p) (Option Conversation)
  update_conversation id f s = (
    ok (apply f (p.mongo.find_one (by_id id) s.conversations)),
    record s { conversations = p.mongo.update_one (by_id id) f s.conversations },
  )

  unfoldable pub allocate_seq : (id at : ℕ) → Exec (Store p) Conversation
  allocate_seq id at = do
    updated ← update_conversation id (bumped at)
    require_some updated not_found

  unfoldable pub advance_watermarks :
      Conversation → ChatParticipantRole → Receipt → Exec (Store p) Conversation
  advance_watermarks c role up = do
    updated ←
        update_conversation c.id (
          raise role (delivered_up_to c.last_message_seq up)
            (read_up_to c.last_message_seq up.read))
    require_some updated not_found

  unfoldable pub unlock : (now : ℕ) → Conversation → Exec (Store p) Conversation
  unlock now c s = (
    ok (
        get_or
          (apply (unlocked_at now) (p.mongo.find_one (is_protected_by_id c.id) s.conversations)) c),
    record s {
      conversations =
          p.mongo.update_one (is_protected_by_id c.id) (unlocked_at now) s.conversations;
    },
  )

  unfoldable pub existing_or_new :
      (fresh : ℕ)
      → RequestSummary
      → (user : ℕ) → Candidacy
      → Option Conversation
      → Exec (Store p) Conversation
  existing_or_new fresh r user candidacy (some c) = pure c
  existing_or_new fresh r user candidacy none = create_once fresh r user candidacy

  unfoldable pub unlock_contact : (now fresh request user : ℕ) → Exec (Store p) Conversation
  unlock_contact now fresh request user = do
    summaries ← gets (find_summaries p.mongo (request ∷ []))
    candidacy ← gets (find_candidacy p now request user)
    r ← require_some (summary_of request summaries) not_found
    k ← require_some candidacy not_found
    found ← gets (find_between request user)
    c ← existing_or_new fresh r user k found
    unlock now c
