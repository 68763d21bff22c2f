-- ===== src/Audit/Recorded.antt =====
-- record_audit of apps/platform/app/storage/audit.py, outside of a unit of work: the row of the log and
-- then, once it is committed, the checkpoint in the journal. The announcement of the entry is left out.
pub mod Anchors
mod Examples
use norinth.Prelude.{
  Option, none, some, String, List, ℕ, length, lookup, text_key, if◌then◌else◌, ◌==◌,
}
use norinth.Prelude.Result.{Result, ok, err, ◌>>=◌}
use norinth.Audit.{
  AuditError, AuditConfig, AuditEntry, AuditRow, Checkpoint, Hashing, audit_keyring, append_row,
  last_row,
}
use norinth.Audit.Journal.{
  Payload, CheckpointEntry, JournalFile, JournalError, latest_checkpoint, append_checkpoint,
}

-- What is raised: before the row is committed, or with the row committed.
pub data RecordError : Type 0 where
  audit_failed : AuditError → RecordError
  journal_failed : JournalError → RecordError
  key_missing : List AuditRow → RecordError
  not_anchored : List AuditRow → JournalError → RecordError

abbrev pub lift_audit : {A : Type 0} → Result AuditError A → Result RecordError A
lift_audit (err e) = err (audit_failed e)
lift_audit (ok a) = ok a

abbrev pub lift_journal : {A : Type 0} → Result JournalError A → Result RecordError A
lift_journal (err e) = err (journal_failed e)
lift_journal (ok a) = ok a

abbrev pub as_checkpoint : Option CheckpointEntry → Option Checkpoint
as_checkpoint none = none
as_checkpoint (some e) = some (record { count = e.payload.count; head_hash = e.payload.head_hash })

abbrev pub committed :
    List AuditRow
    → Result JournalError JournalFile
    → Result RecordError (List AuditRow × JournalFile)
committed rows (err e) = err (not_anchored rows e)
committed rows (ok f) = ok (rows, f)

module _ (hashing : Hashing) (seal_of : String → Payload → String) where
  abbrev pub anchor_with :
      String
      → String
      → List (String × String)
      → JournalFile
      → List AuditRow
      → String
      → String
      → Option String
      → Result RecordError (List AuditRow × JournalFile)
  anchor_with new_epoch now ring f rows row_hash id none = err (key_missing rows)
  anchor_with new_epoch now ring f rows row_hash id (some key) =
      committed rows (append_checkpoint seal_of new_epoch now (length rows) row_hash id key ring f)

  -- `if hmac_key_id is not None: append_checkpoint(...)`
  abbrev pub anchor :
      String
      → String
      → List (String × String)
      → JournalFile
      → List AuditRow
      → Option String
      → Option String
      → Result RecordError (List AuditRow × JournalFile)
  anchor new_epoch now ring f rows row_hash none = ok (rows, f)
  anchor new_epoch now ring f rows none (some id) = err (key_missing rows)
  anchor new_epoch now ring f rows (some row_hash) (some id) =
      anchor_with new_epoch now ring f rows row_hash id (lookup id ring)

  abbrev pub anchor_last :
      String
      → String
      → List (String × String)
      → JournalFile
      → List AuditRow
      → Option AuditRow
      → Result RecordError (List AuditRow × JournalFile)
  anchor_last new_epoch now ring f rows none = ok (rows, f)
  anchor_last new_epoch now ring f rows (some row) =
      anchor new_epoch now ring f rows row.row_hash row.hmac_key_id

  unfoldable pub record_audit :
      AuditConfig
      → String
      → String
      → List AuditRow
      → JournalFile
      → AuditEntry
      → Result RecordError (List AuditRow × JournalFile)
  record_audit c new_epoch now rows f entry = lift_audit (audit_keyring c) >>= λ ring.
      lift_journal (latest_checkpoint seal_of ring f) >>= λ latest.
      lift_audit (append_row hashing c (as_checkpoint latest) rows entry) >>= λ rows'.
      anchor_last new_epoch now ring f rows' (last_row rows')
