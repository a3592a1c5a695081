-- ===== src/Google/Requests/Examples.antt =====
-- internal/google/files.go, CreateFolder and CopyFile at concrete inputs: a world that counts the
-- requests, all of which are answered by 503.
use mera_drive.Base.{ℕ, suc, false, refl, arith, none, []}
use mera_drive.Base.Result.{ok}
use mera_drive.Google.Drive.{Net}
use mera_drive.Google.Drive.Retries.{Counts}
use mera_drive.Google.Requests.{Body, Wire, CreateFolderRequest, CopyFileRequest, blank}

abbrev down : {A : Type 0} → A → Net ℕ Body A
down a = record {
  encode = λ b. ok "";
  build = λ spec. none;
  send = λ spec w. (
    ok (record {
      status = 503;
      retry_after = 0;
      envelope = record { message = ""; reasons = [] };
      decoded = ok a;
    }),
    suc w,
  );
  done = λ w. false;
  wait = λ d w. (none, w);
  random = λ n w. (0, w);
}

abbrev wire : Wire ℕ
wire = record {
  file = down blank;
  nothing = down tt;
  parsers = record { parse_int = λ s. none; parse_time = λ s. none };
  base = "https://www.googleapis.com/drive/v3";
  path_escape = λ s. s;
  encode = λ query. "";
}

counts : Counts wire.file (λ w. w)
counts = record { sends = λ spec w. omega arith; waits = λ d w. refl; draws = λ n w. refl }

abbrev trips : CreateFolderRequest
trips = record { name = "Trips"; parent_id = "" }

abbrev twin : CopyFileRequest
twin = record { name = "Copy of notes.txt"; parent_id = "f2" }
