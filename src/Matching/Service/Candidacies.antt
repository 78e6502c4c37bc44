-- ===== src/Matching/Service/Candidacies.antt =====
-- What a provider and the chat see of a dispatch: `decline`, `findCandidacyById`, `isLiveCandidacy`,
-- `requireOwnCandidate` of apps/api/src/matching/matching.service.ts.
use appforfixiyi.Common.{
  ℕ, ◌≡◌, refl, true, false, Option, some, arith, if◌then◌else◌, ok, err, domain, bad_request,
  match_already_declined, find?, find-update, key_of_find, update_first, List, ==_refl,
}
use appforfixiyi.Store.Entities.Matching.{MatchCandidate, MatchCandidateStatus, declined}
use appforfixiyi.Matching.Platform.{Platform}
use appforfixiyi.Matching.Dispatch.{Store, is_stale}
use appforfixiyi.Matching.Service.{
  candidate_by_id, is_live_candidacy, is_declined, to_named_candidacy, require_own_candidate,
  save_candidate, decline, find_candidacy_by_id,
}

module _ (p : Platform) where
  -- That a run of the dispatch loop marks a stale candidate EXPIRED is not seen in whether its
  -- candidacy is live: at the time of the run, it counted as expired already.
  pub is_live-expired :
      (c : MatchCandidate p.numbers.R) (match_id now : ℕ)
      → is_live_candidacy
          (if is_stale p match_id now c
            then record c { status = MatchCandidateStatus.expired }
            else c)
          now
        ≡ is_live_candidacy c now
  unfolding is_stale
  is_live-expired c match_id now = ground arith

  declined_by : Option ℕ → MatchCandidate p.numbers.R → MatchCandidate p.numbers.R
  declined_by reason d = record d { status = declined; decline_reason = reason }

  decline_own :
      (id user : ℕ) (reason : Option ℕ) (s : Store p) {c : MatchCandidate p.numbers.R}
      → find? (candidate_by_id id) s.candidates ≡ some c
      → c.provider_user_id ≡ user
      → is_declined c.status ≡ false
      → decline p id user reason s ≡ (
        ok tt,
        record s {
          candidates = update_first (candidate_by_id id) (declined_by reason) s.candidates;
        },
      )
  unfolding decline require_own_candidate save_candidate declined_by
  decline_own id user reason s {c} h u d = rw (
    p.mongo.find_one_lem,
    h,
    u,
    ==_refl,
    d,
    p.mongo.update_one_lem,
    key_of_find (λ x. x.id) id s.candidates h,
  )

  find_declined :
      (id : ℕ) (reason : Option ℕ) (cs : List (MatchCandidate p.numbers.R))
      {c : MatchCandidate p.numbers.R}
      → find? (candidate_by_id id) cs ≡ some c
      → find? (candidate_by_id id) (update_first (candidate_by_id id) (declined_by reason) cs)
        ≡ some (declined_by reason c)
  unfolding declined_by
  find_declined id reason cs h = rw (
    find-update {A = MatchCandidate p.numbers.R} (λ x. x.id)
        (λ d. record d { status = declined; decline_reason = reason }) (λ x. refl) id id cs,
    ==_refl,
    h,
  )

  find_candidacy_of :
      (now id : ℕ) (s : Store p) {c : MatchCandidate p.numbers.R}
      → find? (candidate_by_id id) s.candidates ≡ some c
      → find_candidacy_by_id p now id s ≡ some (to_named_candidacy now c)
  unfolding find_candidacy_by_id
  find_candidacy_of now id s h =
      ground (arith, p.mongo.find_one_lem (candidate_by_id {R = p.numbers.R} id) s.candidates)

  again :
      (id user : ℕ) (reason : Option ℕ) (s : Store p) {c : MatchCandidate p.numbers.R}
      → find? (candidate_by_id id) s.candidates ≡ some c
      → c.provider_user_id ≡ user
      → is_declined c.status ≡ true
      → decline p id user reason s ≡ (err (domain bad_request match_already_declined), s)
  unfolding decline require_own_candidate
  again id user reason s h u d = rw (p.mongo.find_one_lem, h, u, ==_refl, d)

  -- A provider that declines its own dispatch, not declined before, succeeds. Afterwards its
  -- candidacy is not live at any instant, and a second attempt is refused and changes nothing.
  pub decline-final :
      (id user : ℕ) (reason later : Option ℕ) (s : Store p) {c : MatchCandidate p.numbers.R}
      (now : ℕ)
      → find? (candidate_by_id id) s.candidates ≡ some c
      → c.provider_user_id ≡ user
      → is_declined c.status ≡ false
      → ((decline p id user reason s).0 ≡ ok tt)
        × (find_candidacy_by_id p now id (decline p id user reason s).1
            ≡ some (record {
              candidacy = record { candidate_id = c.id; provider_id = c.provider_id; live = false };
              request_id = c.request_id;
              provider_user_id = c.provider_user_id;
            }))
        × (decline p id user later (decline p id user reason s).1
            ≡ (err (domain bad_request match_already_declined), (decline p id user reason s).1))
  unfolding declined_by
  decline-final id user reason later s {c} now h u d =
      let found = find_declined id reason s.candidates h in
      rw (decline_own id user reason s h u d)
        (refl, find_candidacy_of now id _ found, again id user later _ found u refl)
