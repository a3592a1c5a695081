-- ===== src/Files/Service/FanOut/Examples.antt =====
-- internal/files/service.go, List at concrete inputs: two accounts, one of which is down.
use mera_drive.Base.{
  ℕ, zero, suc, ◌<◌, ◌≡◌, ◌⊎◌, inl, inr, refl, sym, ap, arith, none, List, [], ◌∷◌, All, Elem,
}
use mera_drive.Base.Int.{pos}
use mera_drive.Base.Result.{ok}
use mera_drive.Base.Sorting.{sort_stable}
use mera_drive.Apperr.{Code, Fault, app, error, plain, tagged, compact}
use mera_drive.Samples.{work, notes, photos}
use mera_drive.Files.Cursor.{find_token, encode_cursor, decode_cursor}
use mera_drive.Files.Sort.{less, sort_files}
use mera_drive.Files.View.{new_file_view}
use mera_drive.Files.Service.{ListRequest, Listing, targets_of, is_target, next_cursor, merge}
use mera_drive.Files.Service.Targets.{Reachable}
use mera_drive.Files.Service.FanOut.{
  Task, page, breadcrumbs, note, list_with, list_one, run_task, run_all, assemble, list_targets,
  options, list,
}
use mera_drive.Files.Service.FanOut.Slots.{Covers}
use mera_drive.Files.Service.FanOut.Isolation.{Steps, Settled, From, list-Settled, list-Reachable}
use mera_drive.Files.Service.Stub.{accounts, drive, codec}

-- Fifty goroutines for pages, in order.
abbrev pages_from : ℕ → List Task
pages_from zero = []
pages_from (suc n) = page n ∷ pages_from n

lt_or_eq : (i n : ℕ) → i < suc n → (i < n) ⊎ (i ≡ n)
lt_or_eq i n h = omega arith

pages_from-Covers : (n i : ℕ) → i < n → Elem (page i) (pages_from n)
pages_from-Covers zero i h = absurd (omega arith)
pages_from-Covers (suc n) i h = elim (lt_or_eq i n h) [
  | inl k ↦ inr (pages_from-Covers n i k)
  | inr e ↦ inl (ap page (sym e))
]

abbrev down : Fault
down = app (error Code.upstream_unavailable (plain "down"))

abbrev schedule : List Task
schedule = breadcrumbs ∷ pages_from 50

abbrev everywhere : ListRequest
everywhere = record {
  user_id = "u1";
  account_id = "";
  scope = none;
  parent_id = "";
  sort = none;
  page_size = pos 0;
  page = "";
}

schedule-Covers : Covers schedule 50
schedule-Covers i h = inr (pages_from-Covers 50 i h)

-- The files of the account that answers, folders first, and the failure of the other.
abbrev listing : Listing
listing = record {
  files = new_file_view photos work ∷ new_file_view notes work ∷ [];
  path = [];
  next_page = "";
  failures = tagged down "a2" ∷ [];
}

listed : (list accounts drive (λ s. s) codec schedule everywhere 0).0 ≡ ok listing
unfolding list decode_cursor targets_of is_target find_token list_targets run_all run_task list_one
    list_with note assemble sort_files sort_stable merge compact next_cursor encode_cursor less
    new_file_view
listed = refl

list-Settled_example :
    (s : Steps accounts drive (λ s. s) codec schedule everywhere 0 listing) × All
      (Settled accounts drive everywhere
        (options everywhere s.resume s.targets)
        listing.files
        listing.failures)
      s.targets
list-Settled_example =
    list-Settled accounts drive (λ s. s) codec schedule everywhere 0 listing schedule-Covers listed

list-Reachable_example :
    (s : Steps accounts drive (λ s. s) codec schedule everywhere 0 listing) × All
      (Reachable everywhere s.resume s.connected)
      s.targets
    × All (λ v. From s.targets v.account_id) listing.files
    × All (λ e. From s.targets e.account_id) listing.failures
list-Reachable_example =
    list-Reachable accounts drive (λ s. s) codec schedule everywhere 0 listing listed
