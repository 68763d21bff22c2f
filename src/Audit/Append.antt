-- ===== src/Audit/Append.antt =====
-- record_audit extends an intact chain.
use norinth.Prelude.{
  Option, none, some, String, true, false, List, [], ◌∷◌, ◌++◌, ◌==◌, ◌≡◌, ◌≢◌, inl, inr, refl, sym,
  ap, subst, ◌∙◌, text_key, option_key, number_key, lookup, same_refl, Bool-cases, Option-cases,
  three_branches,
}
use norinth.Prelude.Result.{ok, err, ◌>>=◌, >>=-eq-ok, ok_inj}
use norinth.Audit.{
  AuditRow, AuditEntry, Hashing, AuditConfig, KeysVariable, keys_unset, keys_not_json,
  keys_not_object, keys_entries, Checkpoint, add_keys, legacy_ring, audit_keyring, keys_invalid,
  keys_empty, primary_missing, primary_unknown, has_id, is_set, default_primary, primary_of,
  audit_primary_id, sign, signed_by, or_legacy, compute_row_hash, compute_row_hmac, check_anchor,
  new_row, tail_hash, append_row, check_hash, check_signature, check_hmac, is_empty_ring, check_row,
  verify_rows,
}
use norinth.Audit.Chain.{verify-append, verify-tail_hash}

pub lookup_of_has :
    (id : String) (ring : List (String × String))
    → has_id id ring ≡ true
    → (key : String) × (lookup id ring ≡ some key)
lookup_of_has id [] h = absurd (cc h)
lookup_of_has id ((k, v) ∷ ring) h = elim (Bool-cases (k == id)) [
  | inl e ↦ (v, rw e)
  | inr e ↦ let (key, q) = lookup_of_has id ring (rw e at h) in (key, rw e q)
]

-- The primary key is in the ring, and there is none only if the ring is empty.
pub data IsPrimary (ring : List (String × String)) (primary : Option String) : Type 0 where
  unsigned : ring ≡ [] → primary ≡ none → IsPrimary ring primary
  signed :
      (id : String)
      → (id == "") ≡ false
      → has_id id ring ≡ true
      → primary ≡ some id
      → IsPrimary ring primary

no_legacy :
    (secret : Option String)
    → has_id "legacy" (legacy_ring secret) ≡ false
    → legacy_ring secret ≡ []
no_legacy none h = refl
no_legacy (some s) h = elim (Bool-cases (s == "")) [
  | inl e ↦ rw e
  | inr e ↦ absurd (let t = rw e at h in cc t)
]

unset_ring :
    (c : AuditConfig) (ring : List (String × String))
    → is_set c.hmac_keys ≡ false
    → audit_keyring c ≡ ok ring
    → ring ≡ legacy_ring c.secret_key
unfolding audit_keyring
unset_ring c ring u h = go c.hmac_keys u h
  where
    go :
        (k : KeysVariable)
        → is_set k ≡ false
        → elim k [
          | keys_unset ↦ ok (legacy_ring c.secret_key)
          | keys_not_json ↦ err keys_invalid
          | keys_not_object ↦ err keys_empty
          | keys_entries [] ↦ err keys_empty
          | keys_entries (e ∷ es) ↦ add_keys (e ∷ es) (legacy_ring c.secret_key)
        ]
          ≡ ok ring
        → ring ≡ legacy_ring c.secret_key
    go keys_unset u h = sym (ok_inj h)
    go keys_not_json u h = absurd (cc u)
    go keys_not_object u h = absurd (cc u)
    go (keys_entries es) u h = absurd (cc u)

default_primary-IsPrimary :
    (c : AuditConfig) (ring : List (String × String)) (o : Option String)
    → audit_keyring c ≡ ok ring
    → default_primary c ring ≡ ok o
    → IsPrimary ring o
default_primary-IsPrimary c ring o k h =
    elim (three_branches (is_set c.hmac_keys) (has_id "legacy" ring) (err primary_missing)
      (ok (some "legacy")) (ok none) (ok o) h) [
        | inl (_, e) ↦ absurd (cc e)
        | inr (inl (_, l, e)) ↦ signed "legacy" refl l (sym (ok_inj e))
        | inr (inr (u, l, e)) ↦
            let r = unset_ring c ring u k in
            unsigned (r ∙ no_legacy c.secret_key (ap (has_id "legacy") (sym r) ∙ l))
              (sym (ok_inj e))
      ]

primary_of-IsPrimary :
    (c : AuditConfig) (ring : List (String × String)) (o : Option String)
    → audit_keyring c ≡ ok ring
    → primary_of c ring ≡ ok o
    → IsPrimary ring o
primary_of-IsPrimary c ring o k h = elim (Option-cases c.hmac_primary) [
  | inl e ↦ default_primary-IsPrimary c ring o k (rw e at h)
  | inr (id, e) ↦
      elim (three_branches (id == "") (has_id id ring) (default_primary c ring) (ok (some id))
        (err primary_unknown) (ok o) (rw e at h)) [
          | inl (_, t) ↦ default_primary-IsPrimary c ring o k t
          | inr (inl (n, m, t)) ↦ signed id n m (sym (ok_inj t))
          | inr (inr (_, _, t)) ↦ absurd (cc t)
        ]
]

module _ (hashing : Hashing) where
  signature_passes :
      (ring : List (String × String)) (primary : Option String) (rows : List AuditRow)
      (entry : AuditEntry) (h : String)
      → IsPrimary ring primary
      → check_signature hashing ring (new_row hashing rows entry h (sign hashing ring h primary)) h
        ≡ ok h
  signature_passes ring primary rows entry h (unsigned e p) = rw e
  signature_passes ring primary rows entry h (signed id n m p) =
      let (key, l) = lookup_of_has id ring m in
      let mac = hashing.keyed_digest key h in
      let same : sign hashing ring h primary ≡ (some mac, some id) =
        ap (sign hashing ring h) p ∙ ap (signed_by hashing h id) l in
      let full : is_empty_ring ring ≡ false = not_empty ring m in
      let key_id : or_legacy (some id) ≡ id = rw n in
      let found : lookup (or_legacy (some id)) ring ≡ some key =
        ap (λ i. lookup i ring) key_id ∙ l in
      let passes : check_signature hashing ring (new_row hashing rows entry h (some mac, some id)) h
          ≡ ok h =
        rw full (
          ap (check_hmac hashing (new_row hashing rows entry h (some mac, some id)) h (some mac))
            found
          ∙ (rw (same_refl mac))) in
      subst (λ s. check_signature hashing ring (new_row hashing rows entry h s) h ≡ ok h) (sym same)
        passes
    where
      not_empty : (r : List (String × String)) → has_id id r ≡ true → is_empty_ring r ≡ false
      not_empty [] t = absurd (cc t)
      not_empty (x ∷ r) t = refl

  new_row_passes :
      (c : AuditConfig) (ring : List (String × String)) (rows : List AuditRow) (entry : AuditEntry)
      (h : String) (sig : Option String × Option String)
      → audit_keyring c ≡ ok ring
      → tail_hash hashing rows ≡ h
      → compute_row_hmac hashing c (hashing.digest (tail_hash hashing rows) entry) ≡ ok sig
      → check_row hashing ring h
          (new_row hashing rows entry (hashing.digest (tail_hash hashing rows) entry) sig)
        ≡ ok (hashing.digest h entry)
  unfolding compute_row_hmac audit_primary_id check_row compute_row_hash
  new_row_passes c ring rows entry h sig k tail s =
      let rh = hashing.digest (tail_hash hashing rows) entry in
      let (primary, p₁, s₁) = >>=-eq-ok (audit_primary_id c) _ s in
      let (ring₁, r₁, s₂) = >>=-eq-ok (audit_keyring c) _ s₁ in
      let (ring₂, r₂, p₂) = >>=-eq-ok (audit_keyring c) _ p₁ in
      let isp =
        subst (λ r. IsPrimary r primary) (ok_inj (sym r₂ ∙ k))
          (primary_of-IsPrimary c ring₂ primary r₂ p₂) in
      let sig_eq : sign hashing ring rh primary ≡ sig =
        ap (λ r. sign hashing r rh primary) (ok_inj (sym k ∙ r₁)) ∙ ok_inj s₂ in
      let passed =
        subst (λ s. check_signature hashing ring (new_row hashing rows entry rh s) rh ≡ ok rh)
          sig_eq (signature_passes ring primary rows entry rh isp) in
      let linked : (tail_hash hashing rows == tail_hash hashing rows) ≡ true =
        same_refl (tail_hash hashing rows) in
      let hashed : (rh == rh) ≡ true = same_refl rh in
      subst
        (λ x.
          check_hash hashing ring x (new_row hashing rows entry rh sig)
            (some (hashing.digest x entry))
          ≡ ok (hashing.digest x entry))
        tail (rw (linked, hashed) passed)

  -- On an intact chain, what record_audit appends is one row with the new entry, and the chain
  -- stays intact: the row names the last hash, holds its own, and is signed by a key of the ring if
  -- there is one. A digest is never the empty text.
  pub append_row-verifies :
      (c : AuditConfig) (ring : List (String × String)) (checkpoint : Option Checkpoint)
      (rows rows' : List AuditRow) (entry : AuditEntry) (h : String)
      → ((p : String) (e : AuditEntry) → hashing.digest p e ≢ "")
      → audit_keyring c ≡ ok ring
      → verify_rows hashing ring hashing.genesis_hash rows ≡ ok h
      → append_row hashing c checkpoint rows entry ≡ ok rows'
      → ((r : AuditRow) × (rows' ≡ rows ++ r ∷ []) × (r.entry ≡ entry))
        × (verify_rows hashing ring hashing.genesis_hash rows' ≡ ok (hashing.digest h entry))
  unfolding append_row compute_row_hmac audit_primary_id verify_rows check_row compute_row_hash
  append_row-verifies c ring checkpoint rows rows' entry h nonempty k e t =
      let tail = verify-tail_hash hashing ring rows nonempty e in
      let rh = hashing.digest (tail_hash hashing rows) entry in
      let (_, _, h₁) = >>=-eq-ok (check_anchor checkpoint rows) _ t in
      let (sig, s, h₃) =
        >>=-eq-ok (compute_row_hmac hashing c rh)
          (λ s. ok (rows ++ new_row hashing rows entry rh s ∷ [])) h₁ in
      let new = new_row hashing rows entry rh sig in
      let grown : rows ++ new ∷ [] ≡ rows' = ok_inj h₃ in
      (
        (new, sym grown, refl),
        ap (verify_rows hashing ring hashing.genesis_hash) (sym grown)
            ∙ verify-append hashing ring hashing.genesis_hash rows (new ∷ []) e
            ∙ ap (λ r. r >>= λ b. ok b) (new_row_passes c ring rows entry h sig k tail s),
      )

  -- The row that is appended, and how it is signed.
  pub append_row-row :
      (c : AuditConfig) (ring : List (String × String)) (checkpoint : Option Checkpoint)
      (rows rows' : List AuditRow) (entry : AuditEntry)
      → audit_keyring c ≡ ok ring
      → append_row hashing c checkpoint rows entry ≡ ok rows'
      → let rh = hashing.digest (tail_hash hashing rows) entry in
        (check_anchor checkpoint rows ≡ ok tt)
        × (primary : Option String) × IsPrimary ring primary
        × (rows' ≡ rows ++ new_row hashing rows entry rh (sign hashing ring rh primary) ∷ [])
  unfolding append_row compute_row_hmac audit_primary_id compute_row_hash
  append_row-row c ring checkpoint rows rows' entry k t =
      let rh = hashing.digest (tail_hash hashing rows) entry in
      let (_, anchored, h₁) = >>=-eq-ok (check_anchor checkpoint rows) _ t in
      let (sig, s, h₃) =
        >>=-eq-ok (compute_row_hmac hashing c rh)
          (λ s. ok (rows ++ new_row hashing rows entry rh s ∷ [])) h₁ in
      let (primary, p₁, s₁) = >>=-eq-ok (audit_primary_id c) _ s in
      let (ring₁, r₁, s₂) = >>=-eq-ok (audit_keyring c) _ s₁ in
      let (ring₂, r₂, p₂) = >>=-eq-ok (audit_keyring c) _ p₁ in
      let isp =
        subst (λ r. IsPrimary r primary) (ok_inj (sym r₂ ∙ k))
          (primary_of-IsPrimary c ring₂ primary r₂ p₂) in
      let sig_eq : sign hashing ring rh primary ≡ sig =
        ap (λ r. sign hashing r rh primary) (ok_inj (sym k ∙ r₁)) ∙ ok_inj s₂ in
      (
        anchored,
        primary,
        isp,
        sym (ok_inj h₃) ∙ ap (λ x. rows ++ new_row hashing rows entry rh x ∷ []) (sym sig_eq),
      )
