-- ===== src/Totp/Examples.antt =====
-- A key whose every code is 000000.
use norinth.Prelude.{some, none, true, List, [], ◌∷◌, ◌≡◌, refl, ℕ, ◌≤◌, ◌+◌}
use norinth.Totp.{verify_code, accepted, hotp, same_digits, current_counter, first_match}
use norinth.Totp.Replay.{IsAbove, verify_code-IsMatch, ascending, accepted_codes_ascend}

abbrev no_bytes : ℕ → ℕ → List ℕ
no_bytes key counter = []

abbrev zeros : List ℕ
zeros = 0 ∷ 0 ∷ 0 ∷ 0 ∷ 0 ∷ 0 ∷ []

accepts : verify_code no_bytes (some 7) zeros (some 1) 65 ≡ some 2
unfolding verify_code first_match hotp current_counter
accepts = refl

verify_code-IsMatch_example :
    IsAbove 2 (some 1)
    × (same_digits (hotp no_bytes 7 2) zeros ≡ true)
    × (2 ≤ current_counter 65 + 1)
    × (current_counter 65 ≤ 2 + 1)
verify_code-IsMatch_example = verify_code-IsMatch no_bytes 7 zeros (some 1) 65 2 accepts

accepted_codes_ascend_example :
    ascending none (accepted no_bytes (some 7) none ((zeros, 65) ∷ (zeros, 65) ∷ [])) ≡ true
accepted_codes_ascend_example =
    accepted_codes_ascend no_bytes 7 none ((zeros, 65) ∷ (zeros, 65) ∷ [])
