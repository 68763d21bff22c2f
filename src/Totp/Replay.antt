-- ===== src/Totp/Replay.antt =====
-- No one-time code is accepted twice.
use norinth.Prelude.{
  Option, none, some, Bool, true, false, not, ◌&&◌, ◌||◌, List, [], ◌∷◌, ◌==◌, ◌≡◌, inl, inr, refl,
  subst, ℕ, zero, suc, ◌+◌, ◌≤◌, number_key, ltb, length, all, Memᴰ, arith, two_branches,
  three_branches, not_mem_nil,
}
use norinth.Totp.{
  digits, same_digits, current_counter, candidates, at_or_below, hotp, first_match, verify_code,
  record_used_counter, stored, accepted, with_answer,
}

-- The time step is newer than the last accepted one.
abbrev pub IsAbove : ℕ → Option ℕ → Type 0
IsAbove c last = at_or_below c last ≡ false

-- Each counter is above `last`, and above the one before it.
abbrev pub ascending : Option ℕ → List ℕ → Bool
ascending last [] = true
ascending last (c ∷ cs) = not (at_or_below c last) && ascending (some c) cs

module _ {Key : Type 0} (hmac_sha1 : Key → ℕ → List ℕ) where
  pub record IsMatch (key : Key) (code : List ℕ) (last : Option ℕ) (cs : List ℕ) (c : ℕ)
      : Type 0 where
    pub candidate : Memᴰ c cs
    pub newer : IsAbove c last
    pub same : same_digits (hotp hmac_sha1 key c) code ≡ true

  first_match-IsMatch :
      (key : Key) (code : List ℕ) (last : Option ℕ) (cs : List ℕ) {c : ℕ}
      → first_match hmac_sha1 key code last cs ≡ some c
      → IsMatch key code last cs c
  unfolding first_match
  first_match-IsMatch key code last [] h = absurd (cc h)
  first_match-IsMatch key code last (x ∷ cs) {c} h =
      let ih = λ (t : first_match hmac_sha1 key code last cs ≡ some c).
        later x (first_match-IsMatch key code last cs t) in
      elim (three_branches (at_or_below x last) (same_digits (hotp hmac_sha1 key x) code)
        (first_match hmac_sha1 key code last cs) (some x) (first_match hmac_sha1 key code last cs)
        (some c) h) [
          | inl (_, t) ↦ ih t
          | inr (inl (n, s, t)) ↦
              let e : x ≡ c = cc t in
              subst (IsMatch key code last (x ∷ cs)) e
                (record { candidate = Memᴰ.head refl; newer = n; same = s })
          | inr (inr (_, _, t)) ↦ ih t
        ]
    where
      later :
          {c : ℕ} {cs : List ℕ} (x : ℕ)
          → IsMatch key code last cs c
          → IsMatch key code last (x ∷ cs) c
      later x k = record { candidate = Memᴰ.tail k.candidate; newer = k.newer; same = k.same }

  -- A code is accepted only for a time step next to the current one, newer than the last accepted
  -- one, of which it is the code.
  pub verify_code-IsMatch :
      (key : Key) (code : List ℕ) (last : Option ℕ) (now c : ℕ)
      → verify_code hmac_sha1 (some key) code last now ≡ some c
      → IsAbove c last
        × (same_digits (hotp hmac_sha1 key c) code ≡ true)
        × (c ≤ current_counter now + 1)
        × (current_counter now ≤ c + 1)
  unfolding verify_code
  verify_code-IsMatch key code last now c h =
      elim (two_branches (not (length code == digits) || not (all (λ d. ltb d 10) code)) none
        (first_match hmac_sha1 key code last (candidates (current_counter now))) (some c) h) [
          | inl (_, t) ↦ absurd (cc t)
          | inr (_, t) ↦
              let m = first_match-IsMatch key code last (candidates (current_counter now)) t in
              let (a, b) = near (current_counter now) c m.candidate in (m.newer, m.same, a, b)
        ]
    where
      near : (n c : ℕ) → Memᴰ c (candidates n) → (c ≤ n + 1) × (n ≤ c + 1)
      near zero c (Memᴰ.head e) = (omega (arith, e), omega (arith, e))
      near zero c (Memᴰ.tail (Memᴰ.head e)) = (omega (arith, e), omega (arith, e))
      near zero c (Memᴰ.tail (Memᴰ.tail k)) = absurd (not_mem_nil k)
      near (suc n) c (Memᴰ.head e) = (omega (arith, e), omega (arith, e))
      near (suc n) c (Memᴰ.tail (Memᴰ.head e)) = (omega (arith, e), omega (arith, e))
      near (suc n) c (Memᴰ.tail (Memᴰ.tail (Memᴰ.head e))) = (omega (arith, e), omega (arith, e))
      near (suc n) c (Memᴰ.tail (Memᴰ.tail (Memᴰ.tail k))) = absurd (not_mem_nil k)

  recorded : (last : Option ℕ) (c : ℕ) → IsAbove c last → stored last (some c) ≡ some c
  unfolding record_used_counter stored
  recorded none c h = refl
  recorded (some l) c h = let t : ltb l c ≡ true = ground (arith, h) in rw t

  -- No code is accepted twice: whatever codes are sent at whatever times, the time steps of the
  -- accepted ones increase strictly, starting above the last one that is stored.
  pub accepted_codes_ascend :
      (key : Key) (last : Option ℕ) (attempts : List (List ℕ × ℕ))
      → ascending last (accepted hmac_sha1 (some key) last attempts) ≡ true
  unfolding accepted stored
  accepted_codes_ascend key last [] = refl
  accepted_codes_ascend key last ((code, now) ∷ attempts) =
      go (λ l. accepted_codes_ascend key l attempts)
        (verify_code hmac_sha1 (some key) code last now) refl
    where
      go :
          ((l : Option ℕ) → ascending l (accepted hmac_sha1 (some key) l attempts) ≡ true)
          → (o : Option ℕ) → verify_code hmac_sha1 (some key) code last now ≡ o
          → ascending last (with_answer o (accepted hmac_sha1 (some key) (stored last o) attempts))
            ≡ true
      go ih none e = ih last
      go ih (some c) e =
          let (above, _, _, _) = verify_code-IsMatch key code last now c e in
          rw (above, recorded last c above) (ih (some c))
