-- ===== src/Google/About.antt =====
-- internal/google/drive.go: the quota that `about` reports. Counts of bytes come as texts, and an
-- absent limit means unlimited storage.
pub mod Laws
use mera_drive.Base.{
  ℕ, String, Bool, true, false, Option, none, some, List, [], ◌∷◌, ◌==◌, ◌<>◌, if◌then◌else◌,
}
use mera_drive.Base.Int.{ℤ, pos, ltb_ℤ, sub64}
use mera_drive.Base.Result.{Result, ok, err, Act}
use mera_drive.Base.Act.{lift, ◌>>=◌}
use mera_drive.Apperr.{Code, Failure, Fault, fail_with}
use mera_drive.Google.Drive.{Net, CallSpec, call}
use mera_drive.Google.Requests.{Body}

pub record StorageQuota : Type 0 where
  pub limit : Option ℤ
  pub usage : ℤ
  pub usage_in_drive : ℤ
  pub usage_in_trash : ℤ

-- `Unlimited` and `Free`, on a quota that is there.
unfoldable pub unlimited : StorageQuota → Bool
unlimited q = elim q.limit [ none ↦ true | some _ ↦ false ]

unfoldable pub free : StorageQuota → Option ℤ
free q = elim q.limit [
  | none ↦ none
  | some limit ↦ let left = sub64 limit q.usage in some (if ltb_ℤ left (pos 0) then pos 0 else left)
]

pub record DriveUser : Type 0 where
  pub display_name : String
  pub email_address : String
  pub photo_link : String

pub record About : Type 0 where
  pub user : DriveUser
  pub quota : StorageQuota

-- `aboutResponse`
pub record AboutResponse : Type 0 where
  pub user : DriveUser
  pub limit : Option String
  pub usage : Option String
  pub usage_in_drive : Option String
  pub usage_in_drive_trash : Option String

-- The answer of `about` before it is decoded.
abbrev pub blank : AboutResponse
blank = record {
  user = record { display_name = ""; email_address = ""; photo_link = "" };
  limit = none;
  usage = none;
  usage_in_drive = none;
  usage_in_drive_trash = none;
}

-- strconv.ParseInt in base 10 at 64 bits.
module _ (parse_int : String → Result Failure ℤ) where
  unfoldable pub parse_optional_int64 : Option String → Result Failure (Option ℤ)
  parse_optional_int64 none = ok none
  parse_optional_int64 (some raw) =
      if raw == "" then ok none else elim (parse_int raw) [ ok n ↦ ok (some n) | err f ↦ err f ]

  unfoldable pub parse_int64_or_zero : Option String → ℤ
  parse_int64_or_zero none = pos 0
  parse_int64_or_zero (some raw) = elim (parse_int raw) [ ok n ↦ n | err f ↦ pos 0 ]

  -- The second half of `About`.
  unfoldable pub about_of : AboutResponse → Result Fault About
  unfolding parse_optional_int64 parse_int64_or_zero
  about_of raw = elim (parse_optional_int64 raw.limit) [
    | err f ↦ fail_with Code.upstream_unavailable "Google returned an unreadable storage quota." f
    | ok limit ↦ ok (record {
      user = raw.user;
      quota = record {
        limit = limit;
        usage = parse_int64_or_zero raw.usage;
        usage_in_drive = parse_int64_or_zero raw.usage_in_drive;
        usage_in_trash = parse_int64_or_zero raw.usage_in_drive_trash;
      };
    })
  ]

  module _ {W : Type 0} (net : Net W Body AboutResponse) (base : String)
      (encode : List (String × String) → String) where
    -- `getJSON` of the path, and what it leads to.
    unfoldable pub about : Act W Fault About
    unfolding about_of
    about = do
      raw ← call net blank true (record {
        method = "GET";
        target =
            base
            <> ("/about?"
                <> encode
                    (("fields", "user(displayName,emailAddress,photoLink),storageQuota") ∷ []));
        body = none;
        idempotent = true;
      })
      lift (about_of raw)
