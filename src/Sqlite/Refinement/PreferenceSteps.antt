-- ===== src/Sqlite/Refinement/PreferenceSteps.antt =====
-- internal/store/sqlite/sqlite.go: the statements on preferences, on the maps of the store.
use mera_drive.Base.{
  ℕ, String, true, false, not, ◌&&◌, ◌≡◌, refl, ◌∙◌, inl, inr, arith, Option, none, some, List, [],
  ◌∷◌, ◌++◌, ◌==◌, eq_iff, any, select, find_first, Bool-cases, Option-cases, if◌then◌else◌,
}
use mathlib.Core.Path.{subst}
use mera_drive.Sqlite.Rows.{find_first-Elem}
use mera_drive.Sqlite.Tables.{Preference, Tables, update_where, has_user}
use mera_drive.Sqlite.Preferences
use mera_drive.Sqlite.Preferences.{is_pref}
use mera_drive.Sqlite.Invariant.{IsSound, same_key}
use mera_drive.Sqlite.Commands.{Command, execute}
use mera_drive.Sqlite.Maps.{kept, added, effect}
use mera_drive.Sqlite.Refinement.{find_first-append, find_first-select}
use mera_drive.Sqlite.Refinement.Views.{
  Step, accepts, with_preferences, one_preference, accepted-Step, refused-Step,
}

entry_of : String → String → String → ℕ → Preference
entry_of user_id key value now = record {
  user_id = user_id;
  key = key;
  value = value;
  updated_at = now;
}

abbrev rewritten : String → ℕ → Preference → Preference
rewritten value now p = record p { value = value; updated_at = now }

same_pref :
    (u k v : String) (now : ℕ) (p : Preference)
    → is_pref u k p ≡ true
    → rewritten v now p ≡ entry_of u k v now
unfolding entry_of
same_pref u k v now p h = ground (arith, eq_iff p.user_id u, eq_iff p.key k)

set_here :
    (u k v : String) (now : ℕ) (rows : List Preference)
    → any (is_pref u k) rows ≡ true
    → find_first (is_pref u k) (update_where (is_pref u k) (rewritten v now) rows)
      ≡ some (entry_of u k v now)
unfolding update_where
set_here u k v now [] h = absurd (ground arith)
set_here u k v now (p ∷ rows) h = elim (Bool-cases (is_pref u k p)) [
  | inl e ↦ let same = same_pref u k v now p e in ground arith
  | inr e ↦ let rest = set_here u k v now rows in ground arith
]

other_pref :
    (u k u' k' : String) (p : Preference)
    → (u == u' && k == k') ≡ false
    → is_pref u k p ≡ true
    → is_pref u' k' p ≡ false
other_pref u k u' k' p h e = ground (
  arith,
  eq_iff p.user_id u,
  eq_iff p.user_id u',
  eq_iff p.key k,
  eq_iff p.key k',
  eq_iff u u',
  eq_iff k k',
)

set_elsewhere :
    (u k v : String) (now : ℕ) (u' k' : String) (rows : List Preference)
    → (u == u' && k == k') ≡ false
    → find_first (is_pref u' k') (update_where (is_pref u k) (rewritten v now) rows)
      ≡ find_first (is_pref u' k') rows
unfolding update_where
set_elsewhere u k v now u' k' [] h = refl
set_elsewhere u k v now u' k' (p ∷ rows) h =
    let rest = set_elsewhere u k v now u' k' rows h in
    let other = other_pref u k u' k' p h in ground arith

-- The preference of a user and a key, after a write.
abbrev read_back :
    String → String → Preference → String → String → Option Preference → Option Preference
read_back u k entry u' k' old = if u == u' && k == k' then some entry else old

keys_of : (u k u' k' : String) → (u == u' && k == k') ≡ true → (u ≡ u') × (k ≡ k')
keys_of u k u' k' h = (ground (arith, eq_iff u u'), ground (arith, eq_iff k k'))

set_existing :
    (u k v : String) (now : ℕ) (u' k' : String) (rows : List Preference)
    → any (is_pref u k) rows ≡ true
    → find_first (is_pref u' k') (update_where (is_pref u k) (rewritten v now) rows)
      ≡ read_back u k (entry_of u k v now) u' k' (find_first (is_pref u' k') rows)
set_existing u k v now u' k' rows h = elim (Bool-cases (u == u' && k == k')) [
  | inr other ↦ rw other (set_elsewhere u k v now u' k' rows other)
  | inl same ↦
      let (first, second) = keys_of u k u' k' same in
      let after = update_where (is_pref u k) (rewritten v now) rows in
      rw same (
        subst (λ x. find_first (is_pref x k') after ≡ some (entry_of u k v now)) first
          (subst (λ y. find_first (is_pref u y) after ≡ some (entry_of u k v now)) second
            (set_here u k v now rows h)))
]

any_of_found :
    (u k : String) (rows : List Preference) (p : Preference)
    → find_first (is_pref u k) rows ≡ some p
    → any (is_pref u k) rows ≡ true
any_of_found u k [] p h = absurd (ground arith)
any_of_found u k (q ∷ rows) p h = ground (arith, any_of_found u k rows p)

set_new :
    (u k v : String) (now : ℕ) (u' k' : String) (rows : List Preference)
    → any (is_pref u k) rows ≡ false
    → added (is_pref u' k') (entry_of u k v now) (find_first (is_pref u' k') rows)
      ≡ read_back u k (entry_of u k v now) u' k' (find_first (is_pref u' k') rows)
unfolding entry_of
set_new u k v now u' k' rows h = elim (Option-cases (find_first (is_pref u' k') rows)) [
  | inl e ↦ rw e refl
  | inr (p, e) ↦ elim (Bool-cases (u == u' && k == k')) [
    | inr other ↦ rw (e, other) refl
    | inl same ↦
        let (first, second) = keys_of u k u' k' same in
        let there = any_of_found u' k' rows p e in
        let clash : any (is_pref u' k') rows ≡ false =
          subst (λ x. any (is_pref x k') rows ≡ false) first
            (subst (λ y. any (is_pref u y) rows ≡ false) second h) in
        absurd (ground arith)
  ]
]

is_pref-same :
    (u k u' k' : String) (p : Preference)
    → is_pref u' k' p ≡ true
    → is_pref u k p ≡ (u == u' && k == k')
is_pref-same u k u' k' p h = ground (
  arith,
  eq_iff p.user_id u,
  eq_iff p.user_id u',
  eq_iff p.key k,
  eq_iff p.key k',
  eq_iff u u',
  eq_iff k k',
)

deleted :
    (u k u' k' : String) (rows : List Preference)
    → kept (λ p. not (is_pref u k p)) (find_first (is_pref u' k') rows)
      ≡ (if u == u' && k == k' then none else find_first (is_pref u' k') rows)
deleted u k u' k' rows = elim (Option-cases (find_first (is_pref u' k') rows)) [
  | inl e ↦ ground arith
  | inr (p, e) ↦
      let (stored, key) = find_first-Elem (is_pref u' k') rows p e in
      let same = is_pref-same u k u' k' p key in ground arith
]

pub set_preference-Step :
    (user_id key value : String) (now : ℕ) (t : Tables)
    → Step (Command.set_preference user_id key value now) t
unfolding execute accepts effect Preferences.set entry_of
set_preference-Step user_id key value now t =
    elim (Bool-cases (any (is_pref user_id key) t.preferences)) [
      | inl e ↦
          accepted-Step (Command.set_preference user_id key value now) t
            (record t {
              preferences = update_where (is_pref user_id key) (rewritten value now) t.preferences;
            })
            (rw (execute, e) refl) (rw (accepts, e) refl)
            (with_preferences t
              (update_where (is_pref user_id key) (rewritten value now) t.preferences) _
              (λ u k. set_existing user_id key value now u k t.preferences e))
      | inr e ↦ elim (Bool-cases (has_user t.users user_id)) [
        | inr f ↦
            refused-Step (Command.set_preference user_id key value now) t (rw (execute, e, f) refl)
              (rw (accepts, e, f) refl)
        | inl f ↦
            accepted-Step (Command.set_preference user_id key value now) t
              (record t { preferences = t.preferences ++ entry_of user_id key value now ∷ [] })
              (rw (execute, e, f) refl) (rw (accepts, e, f) refl)
              (with_preferences t (t.preferences ++ entry_of user_id key value now ∷ []) _ (λ u k.
                find_first-append (is_pref u k) t.preferences (entry_of user_id key value now)
                ∙ set_new user_id key value now u k t.preferences e))
      ]
    ]

pub delete_preference-Step :
    (user_id key : String) (t : Tables) → IsSound t → Step (Command.delete_preference user_id key) t
unfolding execute accepts effect Preferences.delete
delete_preference-Step user_id key t h =
    accepted-Step (Command.delete_preference user_id key) t
      (record t { preferences = select (λ p. not (is_pref user_id key p)) t.preferences }) refl refl
      (with_preferences t (select (λ p. not (is_pref user_id key p)) t.preferences) _ (λ u k.
        find_first-select (is_pref u k) same_key (λ p. not (is_pref user_id key p)) t.preferences
          (one_preference u k) h.keys
        ∙ deleted user_id key u k t.preferences))
