-- ===== src/Audit/Recorded/Examples.antt =====
-- The second entry of a log, with its checkpoint.
use norinth.Prelude.{none, some, String, true, [], ◌∷◌, ◌≡◌, refl}
use norinth.Prelude.Result.{ok}
use norinth.Audit.{
  verify_audit_chain, audit_keyring, append_row, check_anchor, compute_row_hash, compute_row_hmac,
  audit_primary_id,
}
use norinth.Audit.Journal.{
  Payload, CheckpointEntry, entry_line, Journal, JournalFile, file, head_payload, sealed,
  write_line, read_checkpoints, latest_checkpoint, append_checkpoint,
}
use norinth.Audit.Journal.Written.{
  IsJournal, retained, latest_checkpoint-read_checkpoints, append_checkpoint-IsJournal,
}
use norinth.Audit.Recorded.{record_audit, as_checkpoint}
use norinth.Audit.Recorded.Anchors.{record_audit-verifies}
use norinth.Audit.Examples.{
  entry, flat, config, ring, first, second, not_empty, keyring, first_intact,
}

-- A seal that is the key itself.
abbrev toy_seal : String → Payload → String
toy_seal key p = key

abbrev first_entry : CheckpointEntry
first_entry = sealed toy_seal "s3cret" (head_payload "epoch1" "noon" 1 "f00d" "legacy" none)

abbrev journal : Journal
journal = record { lines = entry_line first_entry ∷ []; complete = true }

journal_read : read_checkpoints toy_seal ring (file journal) ≡ ok (first_entry ∷ [])
unfolding read_checkpoints
journal_read = refl

journal-IsJournal : IsJournal toy_seal ring (file journal) (first_entry ∷ [])
journal-IsJournal = retained journal (first_entry ∷ []) refl journal_read

latest_checkpoint-read_checkpoints_example :
    latest_checkpoint toy_seal ring (file journal) ≡ ok (some first_entry)
latest_checkpoint-read_checkpoints_example =
    latest_checkpoint-read_checkpoints toy_seal ring (file journal) (first_entry ∷ [])
      journal-IsJournal

abbrev second_entry : CheckpointEntry
second_entry =
    sealed toy_seal "s3cret" (head_payload "epoch2" "one" 2 "f00d" "legacy" (some first_entry))

second_written :
    append_checkpoint toy_seal "epoch2" "one" 2 "f00d" "legacy" "s3cret" ring (file journal)
    ≡ ok (write_line (file journal) second_entry)
unfolding append_checkpoint latest_checkpoint
second_written = refl

append_checkpoint-IsJournal_example :
    IsJournal toy_seal ring
      (write_line (file journal) second_entry)
      (first_entry ∷ second_entry ∷ [])
    × (latest_checkpoint toy_seal ring (write_line (file journal) second_entry)
        ≡ ok (some second_entry))
append_checkpoint-IsJournal_example =
    append_checkpoint-IsJournal toy_seal ring (file journal)
      (write_line (file journal) second_entry) (first_entry ∷ []) "epoch2" "one" 2 "f00d" "legacy"
      "s3cret" journal-IsJournal refl second_written

second_row :
    append_row flat config (as_checkpoint (some first_entry)) (first ∷ []) entry
    ≡ ok (first ∷ second ∷ [])
unfolding append_row check_anchor compute_row_hash compute_row_hmac audit_primary_id audit_keyring
second_row = refl

record_audit-verifies_example :
    (f' : JournalFile) × (e : CheckpointEntry) × (record_audit flat toy_seal config "epoch2" "one"
        (first ∷ [])
        (file journal)
        entry
      ≡ ok (first ∷ second ∷ [], f'))
    × IsJournal toy_seal ring f' (first_entry ∷ e ∷ [])
    × (verify_audit_chain flat ring (as_checkpoint (some e)) (first ∷ second ∷ []) ≡ ok "f00d")
record_audit-verifies_example =
    record_audit-verifies flat toy_seal config ring "epoch2" "one" (first ∷ [])
      (first ∷ second ∷ []) (file journal) (first_entry ∷ []) entry "f00d" not_empty keyring refl
      journal-IsJournal first_intact second_row
