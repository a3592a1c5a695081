-- ===== src/Google/Drive/Examples.antt =====
-- internal/google/drive.go at concrete inputs: a world that counts the requests.
use mera_drive.Base.{
  ℕ, zero, suc, ◌+◌, ◌-◌, ◌≤◌, ◌<◌, String, true, false, ◌≡◌, refl, arith, none, [], ◌∷◌, inr,
}
use mera_drive.Base.Result.{ok}
use mera_drive.Apperr.{is_retryable}
use mera_drive.Google.Errors.{map_api_error, one_of, reason}
use mera_drive.Google.Errors.Laws.{known}
use mera_drive.Google.Drive.{
  Net, CallSpec, Response, backoff_for, pause, attempt_once, attempts_from, encoded, call, judge,
  decode_into,
}
use mera_drive.Google.Drive.Retries.{Counts, count-call}
use mera_drive.Google.Drive.Recovery.{IsOutage, IsAnswer, Recovering, call-recovers}
use mera_drive.Google.Drive.Results.{FromSuccess, call-FromSuccess}

abbrev answer : ℕ → Response String
answer status = record {
  status = status;
  retry_after = 0;
  envelope = record { message = ""; reasons = [] };
  decoded = ok "about";
}

-- The first request is answered by 503 and a reason that the table does not have, the next ones by
-- 200.
abbrev answered : ℕ → Response String
answered zero = record (answer 503) {
  envelope = record { message = ""; reasons = "backendError" ∷ [] };
}
answered (suc n) = answer 200

abbrev net : Net ℕ String String
net = record {
  encode = λ b. ok b;
  build = λ spec. none;
  send = λ spec w. (ok (answered w), suc w);
  done = λ w. false;
  wait = λ d w. (none, w);
  random = λ n w. (0, w);
}

abbrev about : CallSpec String
about = record { method = "GET"; target = "/about"; body = none; idempotent = true }

counts : Counts net (λ w. w)
counts = record { sends = λ spec w. omega arith; waits = λ d w. refl; draws = λ n w. refl }

second_try : call net "" true about 0 ≡ (ok "about", 2)
unfolding call encoded attempts_from pause backoff_for attempt_once judge decode_into is_retryable
    map_api_error one_of
second_try = refl

count-call_example : (call net "" true about 0).1 ≤ 0 + 4
count-call_example = count-call net (λ w. w) "" true about 0 counts

answered_well : (call net "" true about 0).0 ≡ ok "about"
answered_well = rw second_try refl

call-FromSuccess_example : FromSuccess net "" true about "about"
call-FromSuccess_example = call-FromSuccess net "" true about 0 "about" answered_well

no_jitter : (n : ℕ) (v : ℕ) → (net.random n v).0 ≤ n
no_jitter n v = omega arith

-- One request fails, and the next one is answered.
abbrev down : ℕ → ℕ
down w = 1 - w

backend : known (reason (answered 0).envelope) ≡ false
unfolding reason one_of
backend = refl

recovering : Recovering net about down
unfolding encoded
recovering = record {
  encodes = refl;
  builds = refl;
  waits = λ d w. (refl, omega arith);
  draws = λ n w. omega arith;
  fails = fails;
  answers = answers;
}
  where
    fails :
        (w : ℕ) → 0 < down w → IsOutage (net.send about w).0 × (down (net.send about w).1 < down w)
    fails zero h = ((omega arith, inr (backend, inr (omega arith))), omega arith)
    fails (suc w) h = absurd (omega arith)

    answers : (w : ℕ) → down w ≡ 0 → IsAnswer (net.send about w).0
    answers zero h = absurd (omega arith)
    answers (suc w) h = (omega arith, omega arith, ("about", refl))

call-recovers_example : (a : String) × ((call net "" true about 0).0 ≡ ok a)
call-recovers_example = call-recovers net about down "" true 0 recovering refl (omega arith)
