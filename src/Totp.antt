-- ===== src/Totp.antt =====
-- One-time codes, apps/platform/app/services/totp.py, with the counter that
-- apps/platform/app/storage/mfa.py keeps of the last code a user was let in with.
pub mod Replay
mod Examples
use norinth.Prelude.{
  Option, none, some, Bool, true, false, not, ◌&&◌, ◌||◌, List, [], ◌∷◌, ◌==◌, ℕ, zero, suc, ◌+◌,
  ◌*◌, ◌/◌, ◌%◌, ◌^◌, number_key, if◌then◌else◌, leb, ltb, length, get_elem?, all,
}

abbrev pub step_seconds : ℕ
step_seconds = 30

abbrev pub digits : ℕ
digits = 6

-- digest[i] of a digest that is long enough.
abbrev pub byte_at : List ℕ → ℕ → ℕ
byte_at bytes i = elim (get_elem? bytes i) [ none ↦ 0 | some b ↦ b ]

abbrev pub last_byte : List ℕ → ℕ
last_byte [] = 0
last_byte (b ∷ []) = b
last_byte (b ∷ c ∷ bytes) = last_byte (c ∷ bytes)

-- The big-endian number of four bytes, less its sign bit, and its last six digits.
abbrev pub truncated : List ℕ → ℕ
truncated digest =
    let offset = last_byte digest % 16 in
    (byte_at digest offset * 2 ^ 24
      + byte_at digest (offset + 1) * 2 ^ 16
      + byte_at digest (offset + 2) * 2 ^ 8
      + byte_at digest (offset + 3))
    % 2 ^ 31
    % 10 ^ digits

-- f"{code:06d}", as its digits
abbrev pub six_digits : ℕ → List ℕ
six_digits n =
    n / 100000 ∷ n / 10000 % 10 ∷ n / 1000 % 10 ∷ n / 100 % 10 ∷ n / 10 % 10 ∷ n % 10 ∷ []

abbrev pub same_digits : List ℕ → List ℕ → Bool
same_digits [] [] = true
same_digits [] (y ∷ ys) = false
same_digits (x ∷ xs) [] = false
same_digits (x ∷ xs) (y ∷ ys) = x == y && same_digits xs ys

pub current_counter : ℕ → ℕ
current_counter now = now / step_seconds

-- range(counter - 1, counter + 2), less the candidate -1, which is never above the floor.
abbrev pub candidates : ℕ → List ℕ
candidates zero = 0 ∷ 1 ∷ []
candidates (suc c) = c ∷ suc c ∷ suc (suc c) ∷ []

-- candidate <= floor, with the floor -1 where no code was accepted before.
abbrev pub at_or_below : ℕ → Option ℕ → Bool
at_or_below c none = false
at_or_below c (some last) = leb c last

-- UPDATE ... WHERE mfa_last_counter IS NULL OR mfa_last_counter < counter
pub record_used_counter : Option ℕ → ℕ → Option ℕ
record_used_counter none counter = some counter
record_used_counter (some last) counter = if ltb last counter then some counter else some last

pub stored : Option ℕ → Option ℕ → Option ℕ
unfolding record_used_counter
stored last none = last
stored last (some counter) = record_used_counter last counter

-- The counter of an accepted code, before those of the later ones.
abbrev pub with_answer : Option ℕ → List ℕ → List ℕ
with_answer none rest = rest
with_answer (some c) rest = c ∷ rest

-- `hmac_sha1` gives the bytes of the HMAC of a counter in eight bytes under a key.
module _ {Key : Type 0} (hmac_sha1 : Key → ℕ → List ℕ) where
  pub hotp : Key → ℕ → List ℕ
  hotp key counter = six_digits (truncated (hmac_sha1 key counter))

  pub first_match : Key → List ℕ → Option ℕ → List ℕ → Option ℕ
  unfolding hotp
  first_match key code last [] = none
  first_match key code last (c ∷ cs) =
      let rest = first_match key code last cs in
      if at_or_below c last then rest else if same_digits (hotp key c) code then some c else rest

  -- The code without its spaces, as the list of its digits; a key that cannot be decoded is none.
  pub verify_code : Option Key → List ℕ → Option ℕ → ℕ → Option ℕ
  unfolding current_counter first_match
  verify_code none code last now = none
  verify_code (some key) code last now =
      if not (length code == digits) || not (all (λ d. ltb d 10) code)
      then none
      else first_match key code last (candidates (current_counter now))

  -- The counters of the codes that are accepted out of a sequence of attempts, each with its time.
  pub accepted : Option Key → Option ℕ → List (List ℕ × ℕ) → List ℕ
  unfolding verify_code stored
  accepted key last [] = []
  accepted key last ((code, now) ∷ attempts) =
      let answer = verify_code key code last now in
      with_answer answer (accepted key (stored last answer) attempts)
