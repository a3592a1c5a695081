-- ===== src/Google/Tokens/Cache.antt =====
-- internal/google/tokens.go: what the cache serves, and when it asks Google.
use mera_drive.Base.{
  ◌+◌, ◌<◌, String, none, some, List, [], ◌∷◌, ◌≡◌, ◌≢◌, ◌⊎◌, inl, inr, ap, arith, ◌==◌, eq_iff,
  eq_refl, if◌then◌else◌, Option-cases,
}
use mera_drive.Base.Result.{Result, ok, Result-cases}
use mera_drive.Apperr.{Code, Fault, fail}
use mera_drive.Google.Tokens.{
  Token, Entry, Refresher, Manager, find, remove, cached, entry_of, renew, checked, access_token,
  forget, refresh_skew, Role, flown_with,
}

find-remove :
    (id j : String) (l : List (String × Entry))
    → find j (remove id l) ≡ (if id == j then none else find j l)
unfolding find remove
find-remove id j [] = ground arith
find-remove id j ((k, e) ∷ l) =
    ground (arith, find-remove id j l, eq_iff k id, eq_iff k j, eq_iff id j)

module _ {W : Type 0} (r : Refresher W) where
  -- Where a token may come from: an entry of the account that was minted from these credentials and
  -- outlives the skew, or a refresh made now.
  pub data Source (id refresh_token token : String) (m : Manager W) : Type 0 where
    entry :
        (e : Entry)
        → find id m.entries ≡ some e
        → e.access_token ≡ token
        → e.fingerprint ≡ r.fingerprint_of refresh_token
        → r.now m.world + refresh_skew < e.expiry
        → Source id refresh_token token m
    fresh :
        (t : Token)
        → (r.refresh refresh_token m.world).0 ≡ ok t
        → t.access_token ≡ token
        → token ≢ ""
        → Source id refresh_token token m

  cached-some :
      (id refresh_token token : String) (m : Manager W)
      → cached r id (r.fingerprint_of refresh_token) m ≡ some token
      → Source id refresh_token token m
  unfolding cached
  cached-some id refresh_token token m h = elim (Option-cases (find id m.entries)) [
    | inl e ↦ absurd (ground arith)
    | inr (x, e) ↦
        entry x e (ground arith)
          (ground (arith, eq_iff x.fingerprint (r.fingerprint_of refresh_token))) (ground arith)
  ]

  renew-Source :
      (id refresh_token token : String) (m : Manager W)
      → (renew r id refresh_token m).0 ≡ ok token
      → token ≢ ""
      → Source id refresh_token token m
  unfolding renew
  renew-Source id refresh_token token m h ne =
      elim (Option-cases (cached r id (r.fingerprint_of refresh_token) m)) [
        | inr (t, e) ↦ cached-some id refresh_token token m (ground arith)
        | inl e ↦ elim (Result-cases (r.refresh refresh_token m.world).0) [
          | inl (t, s) ↦ fresh t s (ground arith) ne
          | inr (f, s) ↦ absurd (ground arith)
        ]
      ]

  checked-ok :
      (value : Result Fault String) (token : String)
      → checked r value ≡ ok token
      → (value ≡ ok token) × (token ≢ "")
  unfolding checked
  checked-ok value token h = ground (arith, eq_iff token "")

  -- A token that is served was cached for this account under these credentials and is not about to
  -- expire, or it is not empty and comes from a flight of this account: there it was cached for the
  -- account under the credentials that the flight was made with and is not about to expire, or
  -- Google has issued it for them. Those are the caller's own credentials when it leads the flight,
  -- and the leader's when it joins one. The caller looks at the cache in the state of the call, the
  -- flight in the state that other callers left.
  pub access_token-Source :
      (others : Manager W → Manager W) (role : Role) (id refresh_token token : String)
      (m : Manager W)
      → (access_token r others role id refresh_token m).0 ≡ ok token
      → Source id refresh_token token m
        ⊎ ((token ≢ "") × Source id (flown_with role refresh_token) token (others m))
  unfolding access_token
  access_token-Source others role id refresh_token token m h =
      let flown = flown_with role refresh_token in
      elim (Option-cases (cached r id (r.fingerprint_of refresh_token) m)) [
        | inr (t, e) ↦ inl (cached-some id refresh_token token m (ground arith))
        | inl e ↦
            let (sent, ne) = checked-ok (renew r id flown (others m)).0 token (ground arith) in
            inr (ne, renew-Source id flown token (others m) sent ne)
      ]

  cached-renew :
      (id refresh_token : String) (m : Manager W) (t : Token)
      → cached r id (r.fingerprint_of refresh_token) m ≡ none
      → (r.refresh refresh_token m.world).0 ≡ ok t
      → r.now (renew r id refresh_token m).1.world + refresh_skew < t.expiry
      → cached r id (r.fingerprint_of refresh_token) (renew r id refresh_token m).1
        ≡ some t.access_token
  unfolding renew cached entry_of
  cached-renew id refresh_token m t h s late =
      ground (arith, eq_refl id, eq_refl (r.fingerprint_of refresh_token))

  -- When the cache had no token for the credentials, before and after other callers, and Google
  -- issued one that is not about to expire, a call that leads its flight leaves it to the next
  -- call, which returns it and changes nothing.
  pub access_token_again :
      (others : Manager W → Manager W) (id refresh_token : String) (m : Manager W) (t : Token)
      → cached r id (r.fingerprint_of refresh_token) m ≡ none
      → cached r id (r.fingerprint_of refresh_token) (others m) ≡ none
      → (r.refresh refresh_token (others m).world).0 ≡ ok t
      → r.now (access_token r others Role.leads id refresh_token m).1.world + refresh_skew
        < t.expiry
      → access_token r others Role.leads id refresh_token
          (access_token r others Role.leads id refresh_token m).1
        ≡ (ok t.access_token, (access_token r others Role.leads id refresh_token m).1)
  unfolding access_token flown_with
  access_token_again others id refresh_token m t h k s late =
      ground (arith, cached-renew id refresh_token (others m) t)

  -- An account that was forgotten has no token in the cache, and no other account loses its own.
  pub cached-forget :
      (id j fingerprint : String) (m : Manager W)
      → cached r j fingerprint (forget r id m)
        ≡ (if id == j then none else cached r j fingerprint m)
  unfolding cached forget
  cached-forget id j fingerprint m = ground (arith, find-remove id j m.entries)

-- When the cache has no token for the credentials, before and after other callers, and Google
-- answers with an empty access token that is not about to expire, a call that leads its flight
-- fails and the next call returns the empty token without an error.
pub access_token_empty :
    {W : Type 0} (r : Refresher W) (others : Manager W → Manager W) (id refresh_token : String)
    (m : Manager W) (t : Token)
    → cached r id (r.fingerprint_of refresh_token) m ≡ none
    → cached r id (r.fingerprint_of refresh_token) (others m) ≡ none
    → (r.refresh refresh_token (others m).world).0 ≡ ok t
    → t.access_token ≡ ""
    → r.now (access_token r others Role.leads id refresh_token m).1.world + refresh_skew < t.expiry
    → ((access_token r others Role.leads id refresh_token m).0
        ≡ fail Code.internal "Google returned an empty access token.")
      × ((access_token r others Role.leads id refresh_token
            (access_token r others Role.leads id refresh_token m).1).0
          ≡ ok "")
unfolding access_token flown_with
access_token_empty {W} r others id refresh_token m t h k s empty late =
    let again = access_token_again r others id refresh_token m t h k s late in
    let first : (renew r id refresh_token (others m)).0 ≡ ok "" = unfold renew in ground arith in
    (
      ground (arith, eq_refl ""),
      ground (arith, ap (λ (p : Result Fault String × Manager W). p.0) again),
    )
