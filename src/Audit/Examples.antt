-- ===== src/Audit/Examples.antt =====
-- A log of two entries under a toy digest that keeps its input apart.
use norinth.Prelude.{
  true, false, eq_iff, none, some, String, List, [], ◌∷◌, ◌++◌, ◌≡◌, ◌≢◌, refl, sym, ap, ◌∙◌, ◌==◌,
  if◌then◌else◌, Memᴰ, not_mem_nil, text_key, option_key, number_key,
}
use norinth.Prelude.Result.{ok}
use norinth.Audit.{
  AuditConfig, keys_unset, AuditEntry, AuditRow, Checkpoint, Hashing, audit_keyring, check_row,
  verify_rows, verify_audit_chain, check_checkpoint, compute_row_hash, append_row, check_anchor,
  compute_row_hmac, audit_primary_id,
}
use norinth.Audit.Append.{append_row-verifies}
use norinth.Audit.Chain.{NoCollision, entries, verify_rows-determines}
use norinth.Audit.Anchored.{verified_chain_keeps_anchored}

abbrev pub entry : AuditEntry
entry = record {
  created_at = "2026-01-01 00:00:00";
  actor_ref = "ann";
  tenant_id = some "acme";
  action = "role.assign";
  target_type = none;
  target_id = none;
  detail = none;
}

-- A digest that forgets its input, which is enough where only its being non-empty matters.
abbrev pub flat : Hashing
flat = record { digest = λ prev e. "f00d"; keyed_digest = λ key h. key; genesis_hash = "0" }

abbrev pub config : AuditConfig
config = record { secret_key = some "s3cret"; hmac_keys = keys_unset; hmac_primary = none }

abbrev pub ring : List (String × String)
ring = ("legacy", "s3cret") ∷ []

abbrev pub first : AuditRow
first = record {
  id = 1;
  entry = entry;
  prev_hash = some "0";
  row_hash = some "f00d";
  row_hmac = some "s3cret";
  hmac_key_id = some "legacy";
  hash_version = some 1;
}

abbrev pub second : AuditRow
second = record first { id = 2; prev_hash = some "f00d" }

pub not_empty : (p : String) (e : AuditEntry) → flat.digest p e ≢ ""
not_empty p e h = cc

pub keyring : audit_keyring config ≡ ok ring
unfolding audit_keyring
keyring = refl

pub first_intact : verify_rows flat ring "0" (first ∷ []) ≡ ok "f00d"
unfolding verify_rows check_row compute_row_hash
first_intact = refl

second_appended : append_row flat config none (first ∷ []) entry ≡ ok (first ∷ second ∷ [])
unfolding append_row check_anchor compute_row_hash compute_row_hmac audit_primary_id audit_keyring
second_appended = refl

append_row-verifies_example :
    ((r : AuditRow) × (first ∷ second ∷ [] ≡ (first ∷ []) ++ r ∷ []) × (r.entry ≡ entry))
    × (verify_rows flat ring "0" (first ∷ second ∷ []) ≡ ok "f00d")
append_row-verifies_example =
    append_row-verifies flat config ring none (first ∷ []) (first ∷ second ∷ []) entry "f00d"
      not_empty keyring first_intact second_appended

-- A digest that keeps the first row of a table apart from the others.
abbrev counting : Hashing
counting = record {
  digest = λ prev e. if prev == "0" then "1" else "2";
  keyed_digest = λ key h. key;
  genesis_hash = "0";
}

abbrev one : AuditRow
one = record first { row_hash = some "1" }

abbrev two : AuditRow
two = record first { id = 2; prev_hash = some "1"; row_hash = some "2" }

abbrev head : Checkpoint
head = record { count = 1; head_hash = "1" }

one_intact : verify_rows counting ring "0" (one ∷ []) ≡ ok "1"
unfolding verify_rows check_row compute_row_hash
one_intact = refl

two_verified : verify_audit_chain counting ring (some head) (one ∷ two ∷ []) ≡ ok "2"
unfolding verify_audit_chain check_checkpoint verify_rows check_row compute_row_hash
two_verified = refl

named_by : {r x : AuditRow} {p : String} → r ≡ x → r.prev_hash ≡ some p → x.prev_hash ≡ some p
named_by e h = ap (λ (y : AuditRow). y.prev_hash) (sym e) ∙ h

some_text : {a b : String} → some a ≡ some b → a ≡ b
some_text h = cc

same_entry : {r s x y : AuditRow} → r ≡ x → s ≡ y → x.entry ≡ y.entry → r.entry ≡ s.entry
same_entry e f h = ap (λ (z : AuditRow). z.entry) e ∙ h ∙ ap (λ (z : AuditRow). z.entry) (sym f)

one_two : ¬ (◌≡◌ {A = String} "1" "2")
one_two h = let t : false ≡ true = (eq_iff "1" "2").1 h in cc t

NoCollision-two_rows : NoCollision counting (one ∷ []) (one ∷ two ∷ [])
NoCollision-two_rows r s p q (Memᴰ.head e) (Memᴰ.head f) a b h =
    (some_text (sym (named_by e a) ∙ named_by f b), same_entry e f refl)
NoCollision-two_rows r s p q (Memᴰ.head e) (Memᴰ.tail (Memᴰ.head f)) a b h =
    let p0 : "0" ≡ p = some_text (named_by e a) in
    let q1 : "1" ≡ q = some_text (named_by f b) in
    absurd (
      one_two
        (ap (λ x. counting.digest x r.entry) p0 ∙ h ∙ ap (λ x. counting.digest x s.entry) (sym q1)))
NoCollision-two_rows r s p q (Memᴰ.head e) (Memᴰ.tail (Memᴰ.tail k)) a b h = absurd (not_mem_nil k)
NoCollision-two_rows r s p q (Memᴰ.tail k) m a b h = absurd (not_mem_nil k)

NoCollision-one_row : NoCollision counting (one ∷ []) (one ∷ [])
NoCollision-one_row r s p q (Memᴰ.head e) (Memᴰ.head f) a b h =
    (some_text (sym (named_by e a) ∙ named_by f b), same_entry e f refl)
NoCollision-one_row r s p q (Memᴰ.head e) (Memᴰ.tail k) a b h = absurd (not_mem_nil k)
NoCollision-one_row r s p q (Memᴰ.tail k) m a b h = absurd (not_mem_nil k)

verify_rows-determines_example :
    ◌≡◌ {A = String} "0" "0" × (entries (one ∷ []) ≡ entries (one ∷ []))
verify_rows-determines_example =
    verify_rows-determines counting ring "0" "0" (one ∷ []) (one ∷ []) "1" NoCollision-one_row refl
      one_intact one_intact

verified_chain_keeps_anchored_example :
    (earlier later : List AuditRow) × (one ∷ two ∷ [] ≡ earlier ++ later)
    × (entries earlier ≡ entries (one ∷ []))
verified_chain_keeps_anchored_example =
    verified_chain_keeps_anchored counting ring (one ∷ []) (one ∷ two ∷ []) head 0 "2"
      NoCollision-two_rows refl refl one_intact two_verified
