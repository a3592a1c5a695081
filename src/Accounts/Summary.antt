-- ===== src/Accounts/Summary.antt =====
-- internal/accounts/service.go, Summarise: the totals over the accounts, in int64.
use mera_drive.Base.{
  ℕ, suc, ◌+◌, ◌-◌, ◌^◌, ◌<◌, Bool, true, false, ◌≡◌, inl, inr, refl, arith, Option, none, some,
  List, [], ◌∷◌, length, if◌then◌else◌, All, Option-cases,
}
use mera_drive.Base.Int.{ℤ, pos, negsuc, add64, sub64, ltb_ℤ, add64-pos, sub64-pos}
use mera_drive.Store.{is_connected}
use mera_drive.Accounts.{StorageQuota}
use mera_drive.Accounts.Listing.{View}

pub record Summary : Type 0 where
  pub total_limit : Option ℤ
  pub total_usage : ℤ
  pub total_free : Option ℤ
  pub account_count : ℕ
  pub connected_count : ℕ
  pub unlimited_count : ℕ

-- The variables of the loop.
pub record Tally : Type 0 where
  pub usage : ℤ
  pub limited : ℤ
  pub any_limited : Bool
  pub connected : ℕ
  pub unlimited : ℕ

-- The loop's body on a quota.
unfoldable pub tally_quota : Option StorageQuota → Tally → Tally
tally_quota none t = t
tally_quota (some q) t = elim q.limit [
  | none ↦ record t { usage = add64 t.usage q.usage; unlimited = suc t.unlimited }
  | some l ↦ record t {
    usage = add64 t.usage q.usage;
    limited = add64 t.limited l;
    any_limited = true;
  }
]

unfoldable pub tally : View → Tally → Tally
unfolding tally_quota
tally v t =
    tally_quota v.quota
      (record t { connected = if is_connected v.status then suc t.connected else t.connected })

unfoldable pub tally_all : List View → Tally → Tally
unfolding tally
tally_all [] t = t
tally_all (v ∷ views) t = tally_all views (tally v t)

abbrev pub no_tally : Tally
no_tally = record {
  usage = pos 0;
  limited = pos 0;
  any_limited = false;
  connected = 0;
  unlimited = 0;
}

abbrev pub free_of : ℤ → ℤ → ℤ
free_of limited usage = let free = sub64 limited usage in if ltb_ℤ free (pos 0) then pos 0 else free

unfoldable pub summarise : List View → Summary
unfolding tally_all
summarise views =
    let t = tally_all views no_tally in
    record {
      total_limit = if t.any_limited then some t.limited else none;
      total_usage = t.usage;
      total_free = if t.any_limited then some (free_of t.limited t.usage) else none;
      account_count = length views;
      connected_count = t.connected;
      unlimited_count = t.unlimited;
    }

-- An independent description over the naturals: usages and limits that are not negative.
abbrev pub nat_of : ℤ → ℕ
nat_of (pos n) = n
nat_of (negsuc n) = 0

abbrev pub usage_of : View → ℕ
usage_of v = elim v.quota [ none ↦ 0 | some q ↦ nat_of q.usage ]

abbrev pub limit_of : View → ℕ
limit_of v = elim v.quota [ none ↦ 0 | some q ↦ elim q.limit [ none ↦ 0 | some l ↦ nat_of l ] ]

abbrev pub has_limit : View → Bool
has_limit v = elim v.quota [ none ↦ false | some q ↦ elim q.limit [ none ↦ false | some l ↦ true ] ]

abbrev pub total : (View → ℕ) → List View → ℕ
total f [] = 0
total f (v ∷ views) = f v + total f views

abbrev pub IsNatural : ℤ → Type 0
IsNatural n = n ≡ pos (nat_of n)

abbrev pub NaturalQuota : View → Type 0
NaturalQuota v = elim v.quota [
  | none ↦ Unit
  | some q ↦ IsNatural q.usage × (elim q.limit [ none ↦ Unit | some l ↦ IsNatural l ])
]

abbrev pub any_limit : List View → Bool
any_limit [] = false
any_limit (v ∷ views) = if has_limit v then true else any_limit views

-- What one view adds to the two sums.
tally_quota-sums :
    (v : View) (q : Option StorageQuota) (t : Tally) (u l : ℕ)
    → v.quota ≡ q
    → NaturalQuota v
    → t.usage ≡ pos u
    → t.limited ≡ pos l
    → u + usage_of v < 2 ^ 63
    → l + limit_of v < 2 ^ 63
    → ((tally_quota q t).usage ≡ pos (u + usage_of v))
      × ((tally_quota q t).limited ≡ pos (l + limit_of v))
unfolding tally_quota
tally_quota-sums v none t u l h n e f b c = ground arith
tally_quota-sums v (some q) t u l h n e f b c = elim (Option-cases q.limit) [
  | inl k ↦ ground (arith, add64-pos u (nat_of q.usage))
  | inr (m, k) ↦ ground (arith, add64-pos u (nat_of q.usage), add64-pos l (nat_of m))
]

-- What the loop adds to the two sums.
tally_all-sums :
    (views : List View) (t : Tally) (u l : ℕ)
    → All NaturalQuota views
    → t.usage ≡ pos u
    → t.limited ≡ pos l
    → u + total usage_of views < 2 ^ 63
    → l + total limit_of views < 2 ^ 63
    → ((tally_all views t).usage ≡ pos (u + total usage_of views))
      × ((tally_all views t).limited ≡ pos (l + total limit_of views))
unfolding tally_all tally
tally_all-sums [] t u l n e f b c = ground arith
tally_all-sums (v ∷ views) t u l (n, ns) e f b c =
    let counted : Tally = record t {
      connected = if is_connected v.status then suc t.connected else t.connected;
    } in
    let step = tally_quota-sums v v.quota counted u l refl n e f (omega arith) (omega arith) in
    let rest =
      tally_all-sums views (tally v t) (u + usage_of v) (l + limit_of v) ns step.0 step.1
        (omega arith) (omega arith) in
    ground arith

any_limited-tally_all :
    (views : List View) (t : Tally)
    → (tally_all views t).any_limited ≡ (if t.any_limited then true else any_limit views)
unfolding tally_all tally tally_quota
any_limited-tally_all [] t = ground arith
any_limited-tally_all (v ∷ views) t =
    let rest = any_limited-tally_all views (tally v t) in
    elim (Option-cases v.quota) [
      | inl k ↦ ground arith
      | inr (q, k) ↦ elim (Option-cases q.limit) [
        | inl m ↦ ground arith
        | inr (m, j) ↦ ground arith
      ]
    ]

free_of-pos : (l u : ℕ) → l < 2 ^ 63 → u < 2 ^ 63 → free_of (pos l) (pos u) ≡ pos (l - u)
free_of-pos l u b c = ground (arith, sub64-pos l u b c)

-- When no usage and no limit is negative and the two sums fit an int64, the totals are the sums
-- over the accounts with a quota and over those with a limit; the limit and the free space are
-- there when some account has a limit, and the free space is the limit less the usage, or zero.
pub summarise-totals :
    (views : List View)
    → All NaturalQuota views
    → total usage_of views < 2 ^ 63
    → total limit_of views < 2 ^ 63
    → ((summarise views).total_usage ≡ pos (total usage_of views))
      × ((summarise views).total_limit
          ≡ (if any_limit views then some (pos (total limit_of views)) else none))
      × ((summarise views).total_free ≡ (
          if any_limit views
          then some (pos (total limit_of views - total usage_of views))
          else none))
unfolding summarise
summarise-totals views n b c =
    let sums = tally_all-sums views no_tally 0 0 n refl refl (omega arith) (omega arith) in
    let some_limit = any_limited-tally_all views no_tally in
    let usage : (tally_all views no_tally).usage ≡ pos (total usage_of views) = ground arith in
    let limited : (tally_all views no_tally).limited ≡ pos (total limit_of views) = ground arith in
    (
      usage,
      rw (some_limit, limited) refl,
      rw (some_limit, usage, limited, free_of-pos (total limit_of views) (total usage_of views) c b)
          refl,
    )
