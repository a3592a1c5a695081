-- ===== src/Sqlite/Scan/Examples.antt =====
-- internal/store/sqlite/sqlite.go: a database that is read back, with times as decimal numbers.
use Prim.Native.Char.{code}
use mera_drive.Sqlite.Accounts
use mera_drive.Sqlite.Users
use mera_drive.Sqlite.Sessions
use mera_drive.Store.{is_valid_scope}
use mera_drive.Base.{
  ℕ, zero, suc, ◌+◌, ◌*◌, ◌-◌, ◌/◌, ◌%◌, ◌^◌, ◌<◌, leb, ◌&&◌, arith, if◌then◌else◌, String, ◌≡◌,
  refl, ap, List, [], ◌∷◌, All,
}
use mera_drive.Base.Result.{Result, ok, err}
use mera_drive.Apperr.{Failure, other}
use mera_drive.Sqlite.Times.{digit}
use mera_drive.Samples.{asha, work, laptop}
use mera_drive.Sqlite.Commands.{Command, execute_all, empty, execute, execute_all-IsSound}
use mera_drive.Sqlite.Scan.{
  TimeTexts, user_cells, scan_user, account_cells, scan_account, session_cells, scan_session,
}
use mera_drive.Sqlite.Scan.Restores.{InRange, Parses, scan-Restores}

-- The last k decimal digits of a number, in front of a text.
spell : ℕ → ℕ → String → String
spell zero n rest = rest
spell (suc k) n rest = spell k (n / 10) (String.◌∷◌ (digit (n % 10)) rest)

-- A decimal number whose leading digits are read already.
read : ℕ → String → Result Failure ℕ
read n String.[] = ok n
read n (String.◌∷◌ c s) =
    let rest = read (n * 10 + (code c - 48)) s in
    if leb 48 (code c) && leb (code c) 57 then rest else err (other "cannot parse")

code-digit : (d : ℕ) → d < 10 → code (digit d) ≡ 48 + d
unfolding digit
code-digit zero h = refl
code-digit (suc zero) h = refl
code-digit (suc (suc zero)) h = refl
code-digit (suc (suc (suc zero))) h = refl
code-digit (suc (suc (suc (suc zero)))) h = refl
code-digit (suc (suc (suc (suc (suc zero))))) h = refl
code-digit (suc (suc (suc (suc (suc (suc zero)))))) h = refl
code-digit (suc (suc (suc (suc (suc (suc (suc zero))))))) h = refl
code-digit (suc (suc (suc (suc (suc (suc (suc (suc zero)))))))) h = refl
code-digit (suc (suc (suc (suc (suc (suc (suc (suc (suc zero))))))))) h = refl
code-digit (suc (suc (suc (suc (suc (suc (suc (suc (suc (suc d)))))))))) h = absurd (omega arith)

read-spell : (k n : ℕ) (rest : String) → n < 10 ^ k → read 0 (spell k n rest) ≡ read n rest
unfolding read spell
read-spell zero n rest h = ap (λ m. read m rest) (omega arith)
read-spell (suc k) n rest h =
    let earlier =
      read-spell k (n / 10) (String.◌∷◌ (digit (n % 10)) rest) (omega (arith, pow_suc k)) in
    let last : code (digit (n % 10)) ≡ 48 + n % 10 = code-digit (n % 10) (omega arith) in
    let whole : n / 10 * 10 + (code (digit (n % 10)) - 48) ≡ n = omega arith in
    ground (arith, ap (λ m. read m rest) whole)
  where
    pow_suc : (k : ℕ) → 10 ^ suc k ≡ 10 * 10 ^ k
    pow_suc k = omega arith

-- The nanoseconds since 1970 in twenty-one digits, so that a later time than those is cut.
abbrev times : TimeTexts
times = record { format = λ t. spell 21 t ""; parse = read 0 }

parses : Parses times
unfolding read
parses = record { parses = λ t h. read-spell 21 t "" (omega arith) }

abbrev writes : List Command
writes = Command.create_user asha ∷ Command.create_account work ∷ Command.create_session laptop ∷ []

recent : InRange (execute_all writes empty)
unfolding execute_all execute Accounts.create is_valid_scope Users.create Sessions.create
recent = record {
  users = ((omega arith, omega arith), tt);
  accounts = ((omega arith, omega arith, tt), tt);
  sessions = ((omega arith, omega arith, omega arith), tt);
}

scan-Restores_example :
    All (λ u. (scan_user times (user_cells times u)).0 ≡ ok u) (execute_all writes empty).users
    × All
        (λ a. (scan_account times (account_cells times a)).0 ≡ ok a)
        (execute_all writes empty).accounts
    × All
        (λ s. (scan_session times (session_cells times s)).0 ≡ ok s)
        (execute_all writes empty).sessions
scan-Restores_example =
    scan-Restores times parses (execute_all writes empty) (execute_all-IsSound writes) recent
