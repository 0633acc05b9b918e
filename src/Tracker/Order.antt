-- ===== src/Tracker/Order.antt =====
-- internal/tracker/tiers.go: in which order the trackers are tried, by where they stand in the tiers.
use p2p_file_distribution.Base.{
  ℕ, suc, List, [], ◌∷◌, ◌++◌, take, get_elem?, append_assoc, append-nil, Option-cases, none, some,
  ok, err, Bool, true, ◌||◌, Bool-cases, ◌≡◌, ◌⊎◌, inl, inr, refl, ap, sym, ◌∙◌,
}
use mathlib.Core.List.{foldr}
use p2p_file_distribution.Base.Bytes.{Bytes, All, bytes_eq, bytes_eq→eq}
use p2p_file_distribution.Tracker.{
  AnnounceResponse, Client, attempt, try_urls, announce_all, flatten_tiers, concat_tiers, http,
  https,
}

-- The tracker can be asked, and answers: its URL has a scheme that is spoken here, the URL of the request can be
-- built, and the request succeeds.
pub record Answers (client : Client) (url : Bytes) (resp : AnnounceResponse) : Type 0 where
  pub scheme : Bytes
  pub parsed : client.scheme_of url ≡ some scheme
  pub spoken : (scheme ≡ http) ⊎ (scheme ≡ https)
  pub request : Bytes
  pub built : client.build_url url ≡ some request
  pub announced : client.announce request ≡ some resp

abbrev pub Fails : Client → Bytes → Type 0
Fails client url = (resp : AnnounceResponse) → Answers client url resp → ⊥

-- The response is that of the tracker at place `place` of tier `tier_at`; all trackers of the tiers before,
-- and those before it in its tier, fail.
pub record IsFirst (client : Client) (tiers : List (List Bytes)) (resp : AnnounceResponse)
    : Type 0 where
  pub tier_at : ℕ
  pub place : ℕ
  pub tier : List Bytes
  pub url : Bytes
  pub tier_there : get_elem? tiers tier_at ≡ some tier
  pub url_there : get_elem? tier place ≡ some url
  pub tiers_before : All (All (Fails client)) (take tier_at tiers)
  pub urls_before : All (Fails client) (take place tier)
  pub answers : Answers client url resp

-- Without an announce list, the announce URL is the only tracker.
abbrev pub tiers_of : Bytes → List (List Bytes) → List (List Bytes)
tiers_of announce [] = (announce ∷ []) ∷ []
tiers_of announce (tier ∷ tiers) = tier ∷ tiers

abbrev is_spoken : Bytes → Bool
is_spoken scheme = bytes_eq scheme http || bytes_eq scheme https

is_spoken-spoken : (scheme : Bytes) → is_spoken scheme ≡ true → (scheme ≡ http) ⊎ (scheme ≡ https)
is_spoken-spoken scheme h = elim (Bool-cases (bytes_eq scheme http)) [
  | inl e ↦ inl (bytes_eq→eq scheme http e)
  | inr e ↦ inr (bytes_eq→eq scheme https (let h' : bytes_eq scheme https ≡ true = rw e at h in h'))
]

spoken-is_spoken : (scheme : Bytes) → (scheme ≡ http) ⊎ (scheme ≡ https) → is_spoken scheme ≡ true
unfolding bytes_eq
spoken-is_spoken scheme (inl e) = rw e refl
spoken-is_spoken scheme (inr e) = rw e refl

attempt-Answers :
    (client : Client) (url : Bytes) (resp : AnnounceResponse)
    → attempt client url ≡ some resp
    → Answers client url resp
unfolding attempt
attempt-Answers client url resp h = elim (Option-cases (client.scheme_of url)) [
  | inl e ↦ let h' : none ≡ some resp = rw (e, attempt) at h in cc
  | inr (scheme, e) ↦ elim (Bool-cases (is_spoken scheme)) [
    | inr no_ ↦ let h' : none ≡ some resp = rw (e, attempt, no_) at h in cc
    | inl spoken ↦ elim (Option-cases (client.build_url url)) [
      | inl b ↦ let h' : none ≡ some resp = rw (e, attempt, spoken, b) at h in cc
      | inr (request, b) ↦ record {
        scheme = scheme;
        parsed = e;
        spoken = is_spoken-spoken scheme spoken;
        request = request;
        built = b;
        announced =
            let h' : client.announce request ≡ some resp = rw (e, attempt, spoken, b) at h in h';
      }
    ]
  ]
]

attempt-Fails : (client : Client) (url : Bytes) → attempt client url ≡ none → Fails client url
unfolding attempt
attempt-Fails client url h resp a =
    let spoken = spoken-is_spoken a.scheme a.spoken in
    let h' : client.announce a.request ≡ none = rw (a.parsed, attempt, spoken, a.built) at h in
    let announced = a.announced in cc

-- The same in one tier.
record IsFirstIn (client : Client) (tier : List Bytes) (resp : AnnounceResponse) : Type 0 where
  place : ℕ
  url : Bytes
  there : get_elem? tier place ≡ some url
  before : All (Fails client) (take place tier)
  answers : Answers client url resp

-- A tier behind the URLs that failed: it answers, or its URLs fail too and the rest is tried.
tier_cases :
    (client : Client) (failed tier rest : List Bytes)
    → ((resp : AnnounceResponse) × (try_urls client failed (tier ++ rest) ≡ ok resp)
        × IsFirstIn client tier resp)
      ⊎ ((try_urls client failed (tier ++ rest) ≡ try_urls client (failed ++ tier) rest)
          × All (Fails client) tier)
unfolding try_urls
tier_cases client failed [] rest =
    inr (ap (λ (l : List Bytes). try_urls client l rest) (sym (append-nil failed)), tt)
tier_cases client failed (url ∷ tier) rest = elim (Option-cases (attempt client url)) [
  | inr (resp, e) ↦ inl (
    resp,
    rw (e, try_urls) refl,
    record {
      place = 0;
      url = url;
      there = refl;
      before = tt;
      answers = attempt-Answers client url resp e;
    },
  )
  | inl e ↦ elim (tier_cases client (failed ++ url ∷ []) tier rest) [
    | inl (resp, found, first) ↦ inl (
      resp,
      rw (e, try_urls) found,
      record {
        place = suc first.place;
        url = first.url;
        there = first.there;
        before = (attempt-Fails client url e, first.before);
        answers = first.answers;
      },
    )
    | inr (none_found, all) ↦ inr (
      rw (e, try_urls)
          (none_found
            ∙ ap (λ (l : List Bytes). try_urls client l rest)
                (append_assoc failed (url ∷ []) tier)),
      (attempt-Fails client url e, all),
    )
  ]
]

tiers_cases :
    (client : Client) (failed : List Bytes) (tiers : List (List Bytes))
    → ((resp : AnnounceResponse) × (try_urls client failed (concat_tiers tiers) ≡ ok resp)
        × IsFirst client tiers resp)
      ⊎ ((try_urls client failed (concat_tiers tiers) ≡ err (failed ++ foldr ◌++◌ [] tiers))
          × All (All (Fails client)) tiers)
unfolding concat_tiers try_urls
tiers_cases client failed [] = inr (ap (λ (l : List Bytes). err l) (sym (append-nil failed)), tt)
tiers_cases client failed (tier ∷ tiers) =
    elim (tier_cases client failed tier (concat_tiers tiers)) [
      | inl (resp, found, first) ↦ inl (
        resp,
        found,
        record {
          tier_at = 0;
          place = first.place;
          tier = tier;
          url = first.url;
          tier_there = refl;
          url_there = first.there;
          tiers_before = tt;
          urls_before = first.before;
          answers = first.answers;
        },
      )
      | inr (on, all) ↦ elim (tiers_cases client (failed ++ tier) tiers) [
        | inl (resp, found, first) ↦ inl (
          resp,
          on ∙ found,
          record {
            tier_at = suc first.tier_at;
            place = first.place;
            tier = first.tier;
            url = first.url;
            tier_there = first.tier_there;
            url_there = first.url_there;
            tiers_before = (all, first.tiers_before);
            urls_before = first.urls_before;
            answers = first.answers;
          },
        )
        | inr (none_found, rest) ↦ inr (
          on
              ∙ none_found
              ∙ ap (λ (l : List Bytes). err l) (append_assoc failed tier (foldr ◌++◌ [] tiers)),
          (all, rest),
        )
      ]
    ]

-- `AnnounceAll` returns the response of a tracker that answers, such that every tracker of an earlier tier and
-- every earlier one of its tier fails; or every tracker of every tier fails, and it reports them all in their
-- order. Without an announce list, the announce URL is the only tracker. A tracker answers when its URL can be
-- parsed, its scheme is http or https, the URL of the request can be built, and the request succeeds.
pub announce_all_cases :
    (client : Client) (announce : Bytes) (announce_list : List (List Bytes))
    → ((resp : AnnounceResponse) × (announce_all client announce announce_list ≡ ok resp)
        × IsFirst client (tiers_of announce announce_list) resp)
      ⊎ ((announce_all client announce announce_list
            ≡ err (foldr ◌++◌ [] (tiers_of announce announce_list)))
          × All (All (Fails client)) (tiers_of announce announce_list))
unfolding announce_all flatten_tiers concat_tiers
announce_all_cases client announce [] = tiers_cases client [] ((announce ∷ []) ∷ [])
announce_all_cases client announce (tier ∷ tiers) = tiers_cases client [] (tier ∷ tiers)
