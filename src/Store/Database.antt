-- ===== src/Store/Database.antt =====
-- The database that the services share: one list of documents for each collection, the delayed jobs
-- of the matching queue, the events pushed to the sockets of the chat, and the parsed configuration document.
use appforfixiyi.Common.{ok, err, duplicate_key, Exec, Option, none, some, List}
use appforfixiyi.Store.Entities.Requests.{ServiceRequest, CatalogNode, Media}
use appforfixiyi.Store.Entities.Matching.{
  Match, MatchCandidate, DispatchBatch, Job, ProviderProfile, MatchingConfig, VerificationCase,
}
use appforfixiyi.Store.Entities.Auth.{User, UserSession, Device}
use appforfixiyi.Store.Entities.Companies.{
  Company, CompanyMember, VerificationDocument, VerificationDecision,
}
use appforfixiyi.Store.Entities.Chat.{Conversation, Message, ChatEvent}

pub record Db (R : Type 0) : Type 0 where
  pub requests : List ServiceRequest
  pub nodes : List CatalogNode
  pub media : List Media
  pub profiles : List ProviderProfile
  pub cases : List VerificationCase
  pub matches : List Match
  pub candidates : List (MatchCandidate R)
  pub batches : List DispatchBatch
  pub jobs : List Job
  pub users : List User
  pub sessions : List UserSession
  pub devices : List Device
  pub companies : List Company
  pub members : List CompanyMember
  pub documents : List VerificationDocument
  pub decisions : List VerificationDecision
  pub conversations : List Conversation
  pub messages : List Message
  pub events : List ChatEvent
  pub config : MatchingConfig R

-- The outcome of `Model.create`: the new collection is written, or the duplicate key is thrown.
abbrev pub store_created : {S D : Type 0} → Option (List D) → (List D → S → S) → Exec S (Unit {0})
store_created none put s = (err duplicate_key, s)
store_created (some c) put s = (ok tt, put c s)
