-- ===== src/Policies/Prefetch/Session/Histories.antt =====
-- What `SessionPrefetchPolicy` of src/l3store/policies/prefetch/session_prefetch.py keeps of the
-- requests, and what it predicts from them.
use mathlib.Core.Path.{subst}
use intellil.Common.{
  last, last-append, ℕ, ◌-◌, ◌<◌, string_key, ◌≟◌, holds, if_pos, if_neg, String, Option, some,
  List, [], ◌∷◌, ◌++◌, map, append-nil, append_assoc, ◌≡◌, refl, sym, ap, ◌∙◌, arith, ok, drop,
  reversed, passed, value_error, ◌==◌, or_else, if◌then◌else◌,
}
use intellil.Common.Float.{Float, IsOrdered}
use intellil.Common.Dict.{Dict, get, get-put}
use intellil.Common.Groups.{group}
use intellil.Metadata.PrefixTree.{PrefixMatch}
use intellil.Metadata.Store.{Libraries, MetadataStore, find_prefix_matches}
use intellil.Policies.Prefetch.{PrefetchDecision, RequestContext, keep_better, keep_all}
use intellil.Policies.Prefetch.Ranking.{IsTop, ranked-keep_all, keep_all-append}
use intellil.Policies.Prefetch.Session.{
  SessionPrefetchPolicy, new_policy, push_bounded, on_request_completed, decision_of, keep_matches,
  keep_history, predict_prefetch,
}

-- A request: its session and its tokens
abbrev pub Request : Type 0
Request = String × List ℕ

-- The requests of a session that had tokens, in their order
unfoldable pub tokens_of : String → List Request → List (List ℕ)
tokens_of session [] = []
tokens_of session ((s, []) ∷ rest) = tokens_of session rest
tokens_of session ((s, t ∷ tokens) ∷ rest) =
    let later = tokens_of session rest in
    if holds (s ≟ session) then (t ∷ tokens) ∷ later else later

unfoldable pub complete_all : SessionPrefetchPolicy → List Request → SessionPrefetchPolicy
complete_all p [] = p
complete_all p ((s, tokens) ∷ rest) = complete_all (on_request_completed p s tokens) rest

requests_seen :
    (p : SessionPrefetchPolicy) (seen : List (List ℕ)) (requests : List Request) (session : String)
    → 0 < p.history_size
    → group p.session_histories session ≡ last p.history_size seen
    → (group (complete_all p requests).session_histories session
        ≡ last p.history_size (seen ++ tokens_of session requests))
      × ((complete_all p requests).top_k ≡ p.top_k)
unfolding complete_all on_request_completed push_bounded tokens_of
requests_seen p seen [] session room kept =
    (kept ∙ ap (last p.history_size) (sym (append-nil seen)), refl)
requests_seen p seen ((s, []) ∷ rest) session room kept =
    requests_seen p seen rest session room kept
requests_seen p seen ((s, t ∷ tokens) ∷ rest) session room kept =
    let x = t ∷ tokens in
    let p' = on_request_completed p s x in
    let pushed = push_bounded p.history_size (group p.session_histories s) x in
    elim (s ≟ session) [
      | yes e ↦
          let kept' : group p'.session_histories session ≡ last p.history_size (seen ++ x ∷ []) =
            ap (λ (o : Option (List (List ℕ))). or_else o [])
              (get-put p.session_histories s session pushed
                ∙ if_pos (s ≟ session) e (some pushed) (get p.session_histories session))
            ∙ ap (λ h. push_bounded p.history_size h x) (ap (group p.session_histories) e ∙ kept)
            ∙ last-append p.history_size seen x room in
          let (history, same) = requests_seen p' (seen ++ x ∷ []) rest session room kept' in
          (
            history
                ∙ ap (last p.history_size) (
                    append_assoc seen (x ∷ []) (tokens_of session rest)
                    ∙ ap (λ l. seen ++ l)
                        (sym (
                          if_true (s ≟ session) e (x ∷ tokens_of session rest)
                            (tokens_of session rest)))),
            same,
          )
      | no n ↦
          let kept' : group p'.session_histories session ≡ last p.history_size seen =
            ap (λ (o : Option (List (List ℕ))). or_else o [])
              (get-put p.session_histories s session pushed
                ∙ if_neg (s ≟ session) n (some pushed) (get p.session_histories session))
            ∙ kept in
          let (history, same) = requests_seen p' seen rest session room kept' in
          (
            history
                ∙ ap (λ l. last p.history_size (seen ++ l))
                    (sym (
                      if_false (s ≟ session) n (x ∷ tokens_of session rest)
                        (tokens_of session rest))),
            same,
          )
    ]
  where
    if_true : {A : Type 0} {P : Type 0} (d : Dec P) → P → (x y : A) → (if holds d then x else y) ≡ x
    if_true (yes q) p x y = refl
    if_true (no n) p x y = absurd (n p)

    if_false :
        {A : Type 0} {P : Type 0} (d : Dec P) → ¬ P → (x y : A) → (if holds d then x else y) ≡ y
    if_false (yes q) n x y = absurd (n q)
    if_false (no m) n x y = refl

module _ {F Vector Index : Type 0} ⦃fl : Float F⦄ (libs : Libraries F Vector Index)
    (store : MetadataStore Index) where
  -- The prefixes that the store finds of the given token lists, as decisions
  unfoldable pub offers : List (List ℕ) → List (PrefetchDecision F)
  offers [] = []
  offers (tokens ∷ history) =
      map decision_of (find_prefix_matches libs store tokens) ++ offers history

module _ {F Vector Index : Type 0} ⦃fl : Float F⦄ (libs : Libraries F Vector Index)
    (order : IsOrdered fl) (store : MetadataStore Index) where
  keep_matches-keep_all :
      (best : Dict String (PrefetchDecision F)) (matches : List PrefixMatch)
      → keep_matches best matches ≡ keep_all (λ d. d.object_id) best (map decision_of matches)
  unfolding keep_matches keep_all
  keep_matches-keep_all best [] = refl
  keep_matches-keep_all best (m ∷ matches) =
      keep_matches-keep_all (keep_better (λ d. d.object_id) best (decision_of m)) matches

  keep_history-keep_all :
      (best : Dict String (PrefetchDecision F)) (history : List (List ℕ))
      → keep_history libs store best history
        ≡ keep_all (λ d. d.object_id) best (offers libs store history)
  unfolding keep_history offers keep_all
  keep_history-keep_all best [] = refl
  keep_history-keep_all best (tokens ∷ history) =
      let found = find_prefix_matches libs store tokens in
      keep_history-keep_all (keep_matches best found) history
      ∙ ap
          (λ (b : Dict String (PrefetchDecision F)).
            keep_all (λ d. d.object_id) b (offers libs store history))
          (keep_matches-keep_all best found)
      ∙ sym (
          keep_all-append (λ (d : PrefetchDecision F). d.object_id) order best
            (map decision_of found) (offers libs store history))

  -- A policy that the constructor has built, after any requests, predicts the best `top_k` of the
  -- blocks whose tokens are a prefix of one of the last requests of the session, as many requests as
  -- the history holds, each block once, by its longest prefix, the longest prefixes first.
  pub predict_prefetch-IsTop :
      {p : SessionPrefetchPolicy} (size top_k : ℕ) (requests : List Request)
      (request : RequestContext Vector)
      → new_policy size top_k ≡ ok p
      → IsTop
          (λ d. d.object_id)
          order
          top_k
          (offers libs store (reversed (last size (tokens_of request.session_id requests))))
          (predict_prefetch libs (complete_all p requests) request store)
  unfolding predict_prefetch new_policy get
  predict_prefetch-IsTop {p} size top_k requests request made =
      let (positive, made) = passed value_error (size == 0) _ made in
      let (_, made) = passed value_error (top_k == 0) _ made in
      let new : SessionPrefetchPolicy = record {
        history_size = size;
        top_k = top_k;
        session_histories = [];
      } in
      let same : new ≡ p = cc in
      let no_requests : 0 ≡ 0 - size = omega arith in
      let (kept, same_top) =
        requests_seen new [] requests request.session_id (ground arith)
          (ap (λ n. drop n []) no_requests) in
      subst
        (λ q.
          IsTop (λ d. d.object_id) order top_k
            (offers libs store (reversed (last size (tokens_of request.session_id requests))))
            (predict_prefetch libs (complete_all q requests) request store))
        same
        (rw (predict_prefetch, same_top, kept, keep_history-keep_all)
          (ranked-keep_all (λ (d : PrefetchDecision F). d.object_id) order top_k
            (offers libs store (reversed (last size (tokens_of request.session_id requests))))))
