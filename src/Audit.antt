-- ===== src/Audit.antt =====
-- The audit log, apps/platform/app/storage/audit.py: the keys, the row that record_audit appends and
-- the verification of the chain against the latest checkpoint.
pub mod Chain
pub mod Anchored
pub mod Append
pub mod Journal
pub mod Recorded
mod Examples
use norinth.Prelude.{
  Option, none, some, String, Bool, true, false, not, ◌&&◌, ◌||◌, List, [], ◌∷◌, ◌++◌, ◌==◌, ℕ,
  zero, suc, text_key, option_key, number_key, if◌then◌else◌, any, lookup, ltb, length, get_elem?,
}
use norinth.Prelude.Result.{Result, ok, err, ◌>>=◌, ◌>>◌}
use norinth.Auth.{truthy}

-- NORINTH_AUDIT_HMAC_KEYS: not set, not JSON, not an object, or the entries of the object.
pub data KeysVariable : Type 0 where
  keys_unset : KeysVariable
  keys_not_json : KeysVariable
  keys_not_object : KeysVariable
  keys_entries : List (String × String) → KeysVariable

-- The environment that the keyring is read from.
pub record AuditConfig : Type 0 where
  pub secret_key : Option String
  pub hmac_keys : KeysVariable
  pub hmac_primary : Option String

-- RuntimeError, by what raises it.
pub data AuditError : Type 0 where
  keys_invalid : AuditError
  keys_empty : AuditError
  key_id_empty : AuditError
  primary_unknown : AuditError
  primary_missing : AuditError
  database_short : AuditError
  database_contradicts : AuditError
  no_hasher : AuditError

-- The columns that are hashed.
pub record AuditEntry : Type 0 where
  pub created_at : String
  pub actor_ref : String
  pub tenant_id : Option String
  pub action : String
  pub target_type : Option String
  pub target_id : Option String
  pub detail : Option String

-- A row of audit_logs; the table is the list of its rows by id.
pub record AuditRow : Type 0 where
  pub id : ℕ
  pub entry : AuditEntry
  pub prev_hash : Option String
  pub row_hash : Option String
  pub row_hmac : Option String
  pub hmac_key_id : Option String
  pub hash_version : Option ℕ

-- What is read of the latest authenticated checkpoint.
pub record Checkpoint : Type 0 where
  pub count : ℕ
  pub head_hash : String

pub data Reason : Type 0 where
  unknown_hash_version : Reason
  hash_chain : Reason
  hmac_missing : Reason
  bad_hmac : Reason
  checkpoint_mismatch : Reason

-- The answer with ok = False: the first broken entry, if one is, and the reason.
pub record Breach : Type 0 where
  pub broken_at : Option ℕ
  pub reason : Reason

-- ring[kid] = value
abbrev pub set_key : String → String → List (String × String) → List (String × String)
set_key id value [] = (id, value) ∷ []
set_key id value ((k, v) ∷ ring) =
    let rest = set_key id value ring in if k == id then (k, value) ∷ ring else (k, v) ∷ rest

abbrev pub add_keys :
    List (String × String) → List (String × String) → Result AuditError (List (String × String))
add_keys [] ring = ok ring
add_keys ((id, value) ∷ entries) ring =
    if id == "" then err key_id_empty else add_keys entries (set_key id value ring)

abbrev pub legacy_ring : Option String → List (String × String)
legacy_ring none = []
legacy_ring (some secret) = if secret == "" then [] else ("legacy", secret) ∷ []

pub audit_keyring : AuditConfig → Result AuditError (List (String × String))
audit_keyring c = elim c.hmac_keys [
  | keys_unset ↦ ok (legacy_ring c.secret_key)
  | keys_not_json ↦ err keys_invalid
  | keys_not_object ↦ err keys_empty
  | keys_entries [] ↦ err keys_empty
  | keys_entries (e ∷ es) ↦ add_keys (e ∷ es) (legacy_ring c.secret_key)
]

abbrev pub is_set : KeysVariable → Bool
is_set keys_unset = false
is_set _ = true

abbrev pub has_id : String → List (String × String) → Bool
has_id id ring = any (λ e. e.0 == id) ring

-- Without NORINTH_AUDIT_HMAC_PRIMARY: the legacy key, if no others are there to choose from.
abbrev pub default_primary :
    AuditConfig → List (String × String) → Result AuditError (Option String)
default_primary c ring =
    if is_set c.hmac_keys
    then err primary_missing
    else if has_id "legacy" ring
    then ok (some "legacy")
    else ok none

abbrev pub primary_of : AuditConfig → List (String × String) → Result AuditError (Option String)
primary_of c ring = elim c.hmac_primary [
  | none ↦ default_primary c ring
  | some explicit ↦
      if explicit == ""
      then default_primary c ring
      else if has_id explicit ring
      then ok (some explicit)
      else err primary_unknown
]

pub audit_primary_id : AuditConfig → Result AuditError (Option String)
unfolding audit_keyring
audit_primary_id c = audit_keyring c >>= primary_of c

abbrev pub current_hash_version : ℕ
current_hash_version = 1

abbrev pub last_row : List AuditRow → Option AuditRow
last_row [] = none
last_row (r ∷ []) = some r
last_row (r ∷ s ∷ rows) = last_row (s ∷ rows)

-- rows[count - 1], with Python's rows[-1] at 0
abbrev pub row_at_count : List AuditRow → ℕ → Option AuditRow
row_at_count rows zero = last_row rows
row_at_count rows (suc n) = get_elem? rows n

abbrev pub next_id : Option AuditRow → ℕ
next_id none = 1
next_id (some r) = suc r.id

abbrev pub has_hash : Option AuditRow → String → Bool
has_hash none h = false
has_hash (some r) h = r.row_hash == some h

abbrev pub version_of : AuditRow → ℕ
version_of r = elim r.hash_version [ none ↦ current_hash_version | some v ↦ v ]

abbrev pub or_legacy : Option String → String
or_legacy none = "legacy"
or_legacy (some k) = if k == "" then "legacy" else k

-- row["hmac_key_id"] or "legacy"
abbrev pub key_id_of : AuditRow → String
key_id_of r = or_legacy r.hmac_key_id

abbrev pub breach : AuditRow → Reason → Breach
breach r why = record { broken_at = some r.id; reason = why }

abbrev pub is_empty_ring : List (String × String) → Bool
is_empty_ring [] = true
is_empty_ring (e ∷ ring) = false

-- The refusals of _append_row to extend a table that is not the one the checkpoint was taken of.
pub check_anchor : Option Checkpoint → List AuditRow → Result AuditError Unit
check_anchor none rows = ok tt
check_anchor (some c) rows =
    if ltb (length rows) c.count
    then err database_short
    else if not (c.count == 0) && not (has_hash (row_at_count rows c.count) c.head_hash)
    then err database_contradicts
    else ok tt

-- The comparison of an intact chain with the latest checkpoint.
pub check_checkpoint : Option Checkpoint → List AuditRow → String → Result Breach String
check_checkpoint none rows head = ok head
check_checkpoint (some c) rows head =
    let mismatch = err (record { broken_at = none; reason = checkpoint_mismatch }) in
    if ltb (length rows) c.count || (length rows == c.count && not (head == c.head_hash))
    then mismatch
    else if not (length rows == c.count) && not (has_hash (row_at_count rows c.count) c.head_hash)
    then mismatch
    else ok head

abbrev pub hash_or_fail : Option String → Result AuditError String
hash_or_fail none = err no_hasher
hash_or_fail (some h) = ok h

-- What the chain takes of hashlib, hmac and json: the hexadecimal SHA-256 of the canonical array of
-- the previous hash and the entry's columns, the keyed digest of a row's hash, and GENESIS_HASH.
pub record Hashing : Type 0 where
  pub digest : String → AuditEntry → String
  pub keyed_digest : String → String → String
  pub genesis_hash : String

module _ (hashing : Hashing) where
  pub compute_row_hash : ℕ → String → AuditEntry → Option String
  compute_row_hash version prev entry =
      if version == 1 then some (hashing.digest prev entry) else none

  abbrev pub signed_by : String → String → Option String → Option String × Option String
  signed_by row_hash primary none = (none, none)
  signed_by row_hash primary (some key) = (some (hashing.keyed_digest key row_hash), some primary)

  abbrev pub sign : List (String × String) → String → Option String → Option String × Option String
  sign ring row_hash none = (none, none)
  sign ring row_hash (some primary) = signed_by row_hash primary (lookup primary ring)

  pub compute_row_hmac : AuditConfig → String → Result AuditError (Option String × Option String)
  unfolding audit_primary_id audit_keyring
  compute_row_hmac c row_hash = do
    primary ← audit_primary_id c
    ring ← audit_keyring c
    ok (sign ring row_hash primary)

  abbrev pub set_or_genesis : Option String → String
  set_or_genesis none = hashing.genesis_hash
  set_or_genesis (some h) = if h == "" then hashing.genesis_hash else h

  abbrev pub hash_or_genesis : Option AuditRow → String
  hash_or_genesis none = hashing.genesis_hash
  hash_or_genesis (some r) = set_or_genesis r.row_hash

  -- The hash that the next row is chained to.
  abbrev pub tail_hash : List AuditRow → String
  tail_hash rows = hash_or_genesis (last_row rows)

  abbrev pub new_row :
      List AuditRow → AuditEntry → String → Option String × Option String → AuditRow
  new_row rows entry row_hash signature = record {
    id = next_id (last_row rows);
    entry = entry;
    prev_hash = some (tail_hash rows);
    row_hash = some row_hash;
    row_hmac = signature.0;
    hmac_key_id = signature.1;
    hash_version = some current_hash_version;
  }

  pub append_row :
      AuditConfig
      → Option Checkpoint
      → List AuditRow
      → AuditEntry
      → Result AuditError (List AuditRow)
  unfolding check_anchor compute_row_hash compute_row_hmac
  append_row c checkpoint rows entry = do
    check_anchor checkpoint rows
    row_hash ← hash_or_fail (compute_row_hash current_hash_version (tail_hash rows) entry)
    signature ← compute_row_hmac c row_hash
    ok (rows ++ new_row rows entry row_hash signature ∷ [])

  abbrev pub check_hmac : AuditRow → String → Option String → Option String → Result Breach String
  check_hmac r row_hash none key = err (breach r hmac_missing)
  check_hmac r row_hash (some mac) none = err (breach r bad_hmac)
  check_hmac r row_hash (some mac) (some key) =
      if mac == hashing.keyed_digest key row_hash then ok row_hash else err (breach r bad_hmac)

  abbrev pub check_signature : List (String × String) → AuditRow → String → Result Breach String
  check_signature ring r row_hash =
      if is_empty_ring ring
      then ok row_hash
      else check_hmac r row_hash r.row_hmac (lookup (key_id_of r) ring)

  abbrev pub check_hash :
      List (String × String) → String → AuditRow → Option String → Result Breach String
  check_hash ring prev r none = err (breach r unknown_hash_version)
  check_hash ring prev r (some recomputed) =
      if not (r.prev_hash == some prev) || not (r.row_hash == some recomputed)
      then err (breach r hash_chain)
      else check_signature ring r recomputed

  -- One turn of the loop: the hash that the next row has to name.
  pub check_row : List (String × String) → String → AuditRow → Result Breach String
  unfolding compute_row_hash
  check_row ring prev r = check_hash ring prev r (compute_row_hash (version_of r) prev r.entry)

  pub verify_rows : List (String × String) → String → List AuditRow → Result Breach String
  unfolding check_row
  verify_rows ring prev [] = ok prev
  verify_rows ring prev (r ∷ rows) = check_row ring prev r >>= λ h. verify_rows ring h rows

  pub verify_audit_chain :
      List (String × String) → Option Checkpoint → List AuditRow → Result Breach String
  unfolding verify_rows check_checkpoint
  verify_audit_chain ring checkpoint rows =
      verify_rows ring hashing.genesis_hash rows >>= check_checkpoint checkpoint rows
