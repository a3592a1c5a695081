-- ===== src/Auth/Sessions/Laws.antt =====
-- internal/auth/auth.go: which users a session token opens.
use mera_drive.Base.{
  ℕ, ◌+◌, ◌<◌, String, Bool, true, false, not, ◌≡◌, ◌≢◌, inl, inr, refl, arith, eq_iff, some, List,
  [], ◌∷◌, ◌++◌, ◌==◌, any, find_first, ltb, ◌-◌, Elem, Elem-select, Bool-cases, Option-cases,
}
use mera_drive.Base.Result.{ok, Result-cases}
use mera_drive.Store.{User, Session, expired}
use mera_drive.Sqlite.Tables.{Tables, has_user}
use mera_drive.Sqlite.Rows.{find_first-Elem}
use mera_drive.Sqlite.Users
use mera_drive.Sqlite.Sessions
use mera_drive.Auth.Sessions.{
  Crypto, touch_interval, or_error, missing_or, new_session, issue, seen, user_of, resolve,
  revoke_all,
}

-- A session and a user that a token may open at a time.
pub record Opens (crypto : Crypto) (token : String) (now : ℕ) (t : Tables) (u : User) (s : Session)
    : Type 0 where
  pub row : Session
  pub stored : Elem row t.sessions
  pub same_id : s.id ≡ row.id
  pub same_hash : (row.token_hash == crypto.hash_token token) ≡ true
  pub alive : now < row.expires_at
  pub user_stored : Elem u t.users
  pub owner : (u.id == row.user_id) ≡ true

seen-same :
    (r : Session) (v : User) (now : ℕ) (t : Tables) (u : User) (s : Session)
    → (seen r v now t).0 ≡ ok (u, s)
    → (u ≡ v) × (s.id ≡ r.id)
unfolding seen
seen-same r v now t u s h = elim (Result-cases (Sessions.touch r.id now t).0) [
  | inl (x, e) ↦ ground arith
  | inr (f, e) ↦ ground arith
]

-- The session is found when its row is there.
seen-ok :
    (r : Session) (v : User) (now : ℕ) (t : Tables)
    → any (λ x. x.id == r.id) t.sessions ≡ true
    → (s : Session) × ((seen r v now t).0 ≡ ok (v, s)) × (s.id ≡ r.id)
unfolding seen Sessions.touch
seen-ok r v now t h = elim (Bool-cases (ltb touch_interval (now - r.last_seen_at))) [
  | inl e ↦ (record r { last_seen_at = now }, rw (e, h) refl, refl)
  | inr e ↦ (r, rw e refl, refl)
]

-- A token opens a session only when it is the one whose hash a stored session has, that session
-- is not expired, and the user who is returned is stored and is the one it belongs to.
pub resolve-Opens :
    (crypto : Crypto) (token : String) (now : ℕ) (t : Tables) (u : User) (s : Session)
    → (resolve crypto token now t).0 ≡ ok (u, s)
    → Opens crypto token now t u s
unfolding resolve or_error missing_or user_of Sessions.get_by_token_hash Users.get_by_id expired
resolve-Opens crypto token now t u s h = elim (Bool-cases (token == "")) [
  | inl z ↦ absurd (ground arith)
  | inr z ↦
      elim (Option-cases (find_first (λ r. r.token_hash == crypto.hash_token token) t.sessions)) [
        | inl e ↦ absurd (ground arith)
        | inr (r, e) ↦ elim (Bool-cases (ltb now r.expires_at)) [
          | inr d ↦ absurd (ground arith)
          | inl d ↦ elim (Option-cases (find_first (λ v. v.id == r.user_id) t.users)) [
            | inl f ↦ absurd (ground arith)
            | inr (v, f) ↦
                let last : (seen r v now t).0 ≡ ok (u, s) = ground arith in
                let (same_user, same_id) = seen-same r v now t u s last in
                let (stored, hash) = find_first-Elem _ t.sessions r e in
                let (user_stored, owner) = find_first-Elem _ t.users v f in
                record {
                  row = r;
                  stored = stored;
                  same_id = same_id;
                  same_hash = hash;
                  alive = ground arith;
                  user_stored = rw same_user user_stored;
                  owner = rw same_user owner;
                }
          ]
        ]
      ]
]

find_first_stored :
    {A : Type 0} (p : A → Bool) (rows : List A)
    → any p rows ≡ true
    → (x : A) × (find_first p rows ≡ some x)
find_first_stored p [] h = absurd (ground arith)
find_first_stored p (x ∷ rows) h = elim (Bool-cases (p x)) [
  | inl e ↦ (x, ground arith)
  | inr e ↦ let (y, f) = find_first_stored p rows (ground arith) in (y, ground arith)
]

find_first-append :
    {A : Type 0} (p : A → Bool) (rows : List A) (x : A)
    → any p rows ≡ false
    → p x ≡ true
    → find_first p (rows ++ x ∷ []) ≡ some x
find_first-append p [] x h k = ground arith
find_first-append p (y ∷ rows) x h k = ground (arith, find_first-append p rows x)

-- What the creation of a session that succeeds has checked.
create-ok :
    (s : Session) (t : Tables)
    → (Sessions.create s t).0 ≡ ok tt
    → ((Sessions.create s t).1 ≡ record t { sessions = t.sessions ++ s ∷ [] })
      × (any (λ r. r.token_hash == s.token_hash) t.sessions ≡ false)
      × (has_user t.users s.user_id ≡ true)
unfolding Sessions.create
create-ok s t h = ground arith

any_of_Elem :
    (s : Session) (rows : List Session) → Elem s rows → any (λ x. x.id == s.id) rows ≡ true
any_of_Elem s [] m = absurd m
any_of_Elem s (r ∷ rows) m = ground (arith, eq_iff s.id s.id, any_of_Elem s rows)

-- A stored session that is not expired, of a user who is stored, is opened.
resolve-stored :
    (crypto : Crypto) (token : String) (now : ℕ) (t : Tables) (s : Session)
    → token ≢ ""
    → find_first (λ r. r.token_hash == crypto.hash_token token) t.sessions ≡ some s
    → now < s.expires_at
    → has_user t.users s.user_id ≡ true
    → (u : User) × (r : Session) × ((resolve crypto token now t).0 ≡ ok (u, r))
      × ((u.id == s.user_id) ≡ true)
      × (r.id ≡ s.id)
unfolding resolve or_error user_of Sessions.get_by_token_hash Users.get_by_id expired
resolve-stored crypto token now t s n e l k =
    let (u, found) = find_first_stored (λ v. v.id == s.user_id) t.users k in
    let (m, owner) = find_first-Elem (λ v. v.id == s.user_id) t.users u found in
    let (stored, hash) =
      find_first-Elem (λ r. r.token_hash == crypto.hash_token token) t.sessions s e in
    let (r, last, same) = seen-ok s u now t (any_of_Elem s t.sessions stored) in
    let filled : (token == "") ≡ false = ground (arith, eq_iff token "") in
    let alive : ltb now s.expires_at ≡ true = ground arith in
    (u, r, opened filled alive found last, owner, same)
  where
    opened :
        {u : User} {r : Session}
        → (token == "") ≡ false
        → ltb now s.expires_at ≡ true
        → find_first (λ v. v.id == s.user_id) t.users ≡ some u
        → (seen s u now t).0 ≡ ok (u, r)
        → (resolve crypto token now t).0 ≡ ok (u, r)
    opened a b c d = ground arith

-- What an issue that succeeds has checked, and the tables that it leaves.
issue-ok :
    (crypto : Crypto) (token id user_id user_agent ip : String) (now ttl : ℕ) (t : Tables)
    (s : Session)
    → (issue crypto (ok token) id user_id user_agent ip now ttl t).0 ≡ ok (token, s)
    → ((issue crypto (ok token) id user_id user_agent ip now ttl t).1 ≡ record t {
      sessions = t.sessions ++ new_session crypto id token user_id user_agent ip now ttl ∷ [];
    })
      × (any (λ r. r.token_hash == crypto.hash_token token) t.sessions ≡ false)
      × (has_user t.users user_id ≡ true)
unfolding issue or_error new_session
issue-ok crypto token id user_id user_agent ip now ttl t s h =
    elim (Result-cases
      (Sessions.create (new_session crypto id token user_id user_agent ip now ttl) t).0) [
        | inr (f, e) ↦ absurd (ground arith)
        | inl (x, e) ↦
            let (after, free, known) =
              create-ok (new_session crypto id token user_id user_agent ip now ttl) t e in
            (ground arith, free, known)
      ]

-- When a session is issued without an error, its token is not empty, and the session's lifetime
-- is not over, the token opens, in the tables that the issue leaves, a session of the same id and
-- a user whose id is the one it was issued for.
pub resolve-issue :
    (crypto : Crypto) (token id user_id user_agent ip : String) (now ttl later : ℕ) (t : Tables)
    (s : Session)
    → (issue crypto (ok token) id user_id user_agent ip now ttl t).0 ≡ ok (token, s)
    → token ≢ ""
    → later < now + ttl
    → (u : User) × (r : Session) × ((resolve crypto token later
          (issue crypto (ok token) id user_id user_agent ip now ttl t).1).0
        ≡ ok (u, r))
      × ((u.id == user_id) ≡ true)
      × (r.id ≡ id)
unfolding new_session
resolve-issue crypto token id user_id user_agent ip now ttl later t s h n l =
    let (after, free, known) = issue-ok crypto token id user_id user_agent ip now ttl t s h in
    let fresh = new_session crypto id token user_id user_agent ip now ttl in
    let found =
      find_first-append (λ (r : Session). r.token_hash == crypto.hash_token token) t.sessions fresh
        free (ground (arith, eq_iff (crypto.hash_token token) (crypto.hash_token token))) in
    rw after (
      resolve-stored crypto token later (record t { sessions = t.sessions ++ fresh ∷ [] }) fresh n
        found l known)

-- What a token opens in tables where every session of a user is revoked.
pub Opens-revoke_all :
    (crypto : Crypto) (token user_id : String) (now : ℕ) (t : Tables) (u : User) (s : Session)
    → Opens crypto token now (revoke_all user_id t).1 u s
    → (u.id == user_id) ≡ false
unfolding revoke_all or_error Sessions.delete_of_user
Opens-revoke_all crypto token user_id now t u s opens =
    let (m, kept) =
      (Elem-select (λ (r : Session). not (r.user_id == user_id)) t.sessions opens.row).0
        opens.stored in
    ground (
      arith,
      opens.owner,
      eq_iff u.id user_id,
      eq_iff u.id opens.row.user_id,
      eq_iff opens.row.user_id user_id,
    )
