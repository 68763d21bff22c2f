-- ===== src/Throttle.antt =====
-- The throttle of failed logins, apps/platform/app/storage/login_attempts.py. Time stamps are numbers
-- here: the texts of the code are of one format in UTC, so that they compare as the times do.
pub mod Lockout
pub mod Window
mod Examples
use norinth.Prelude.{
  Option, none, some, String, Bool, true, false, not, ◌&&◌, ◌||◌, List, [], ◌∷◌, ◌++◌, ◌==◌, ℕ, suc,
  ◌+◌, ◌-◌, text_key, number_key, if◌then◌else◌, any, filter, find, ltb, leb, update_where,
}

-- A row of login_throttle.
pub record Throttle : Type 0 where
  pub subject : String
  pub failed_count : ℕ
  pub first_failed_at : Option ℕ
  pub locked_until : Option ℕ

pub record Policy : Type 0 where
  pub threshold : ℕ
  pub window : ℕ
  pub lockout : ℕ

-- The constants of the module, from the environment, and subject.startswith("ip:").
pub record Settings : Type 0 where
  pub account : Policy
  pub source_ip : Policy
  pub is_ip : String → Bool

abbrev pub policy_of : Settings → String → Policy
policy_of settings subject = if settings.is_ip subject then settings.source_ip else settings.account

abbrev pub of_throttle : String → Throttle → Bool
of_throttle subject r = r.subject == subject

-- `column IS NOT NULL AND column < value`, and `column IS NULL OR column < value`
abbrev pub before : Option ℕ → ℕ → Bool
before none t = false
before (some s) t = ltb s t

abbrev pub unset_or_before : Option ℕ → ℕ → Bool
unset_or_before none t = true
unset_or_before (some s) t = ltb s t

abbrev pub after_now : Option ℕ → ℕ → Bool
after_now none now = false
after_now (some s) now = ltb now s

abbrev pub row_locked : Option Throttle → ℕ → Bool
row_locked none now = false
row_locked (some r) now = after_now r.locked_until now

pub is_locked : List Throttle → String → ℕ → Bool
is_locked rows subject now = row_locked (find (of_throttle subject) rows) now

abbrev pub is_expired : Policy → ℕ → Throttle → Bool
is_expired p now r = before r.first_failed_at (now - p.window) && unset_or_before r.locked_until now

-- The first statement: a window that is over starts again, unless the row is locked.
abbrev pub reset : Policy → ℕ → Throttle → Throttle
reset p now r =
    if is_expired p now r
    then record r { failed_count = 0; first_failed_at = some now; locked_until = none }
    else r

abbrev pub first_or_now : Option ℕ → ℕ → Option ℕ
first_or_now none now = some now
first_or_now (some t) now = some t

-- ON CONFLICT DO UPDATE of the second statement.
abbrev pub increment : Policy → ℕ → Throttle → Throttle
increment p now r = record r {
  failed_count = suc r.failed_count;
  first_failed_at = first_or_now r.first_failed_at now;
  locked_until =
      if leb p.threshold (suc r.failed_count) then some (now + p.lockout) else r.locked_until;
}

abbrev pub new_throttle : String → ℕ → Throttle
new_throttle subject now = record {
  subject = subject;
  failed_count = 1;
  first_failed_at = some now;
  locked_until = none;
}

pub upsert_failure : Policy → String → ℕ → List Throttle → List Throttle
upsert_failure p subject now [] = new_throttle subject now ∷ []
upsert_failure p subject now (r ∷ rows) =
    let rest = upsert_failure p subject now rows in
    if r.subject == subject then increment p now r ∷ rows else r ∷ rest

abbrev pub is_some : Option ℕ → Bool
is_some none = false
is_some (some t) = true

abbrev pub crossed : Policy → Option Throttle → Bool
crossed p none = false
crossed p (some r) = is_some r.locked_until && r.failed_count == p.threshold

-- The rows after the failure, and whether it crossed the threshold.
pub register_failure : Settings → List Throttle → String → ℕ → List Throttle × Bool
unfolding upsert_failure
register_failure settings rows subject now =
    let p = policy_of settings subject in
    let rows' =
      upsert_failure p subject now (update_where (of_throttle subject) (reset p now) rows) in
    (rows', crossed p (find (of_throttle subject) rows'))

pub clear_attempts : List Throttle → String → List Throttle
clear_attempts rows subject = filter (λ r. not (r.subject == subject)) rows
