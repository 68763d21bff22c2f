-- ===== src/Audit/Journal.antt =====
-- The journal of signed heads of the audit log: read_checkpoints, latest_checkpoint,
-- append_checkpoint and reconcile_checkpoint of apps/platform/app/storage/audit_checkpoint.py.
pub mod Reads
pub mod Written
use norinth.Prelude.{
  Option, none, some, String, Bool, true, false, not, ◌&&◌, ◌||◌, List, [], ◌∷◌, ◌++◌, ◌==◌, ℕ,
  text_key, option_key, if◌then◌else◌, lookup, leb,
}
use norinth.Prelude.Result.{Result, ok, err, ◌>>=◌, ◌>>◌, require}
use norinth.Audit.{is_empty_ring}

-- An entry but for its seal; the fields from previous_epoch to reason are those of a reconciliation.
pub record Payload : Type 0 where
  pub kind : String
  pub epoch : String
  pub previous_epoch : Option String
  pub previous_count : Option ℕ
  pub previous_head_hash : Option String
  pub reason : Option String
  pub count : ℕ
  pub head_hash : String
  pub created_at : String
  pub key_id : String
  pub previous_seal : String
  pub anchored_from : ℕ

pub record CheckpointEntry : Type 0 where
  pub payload : Payload
  pub seal : String

-- A line of the file: an entry, or text that is not one.
pub data Line : Type 0 where
  entry_line : CheckpointEntry → Line
  other_line : Line

-- The text of the file, and whether it ends with a newline, as the empty text may.
pub record Journal : Type 0 where
  pub lines : List Line
  pub complete : Bool

-- NORINTH_AUDIT_CHECKPOINT_PATH is not set, or names no file yet, or a file.
pub data JournalFile : Type 0 where
  no_path : JournalFile
  no_file : JournalFile
  file : Journal → JournalFile

-- The second part of what read_checkpoints returns, and RuntimeError or ValueError of the others.
pub data JournalError : Type 0 where
  unavailable : JournalError
  verification_key_unavailable : JournalError
  checkpoint_chain : JournalError
  checkpoint_hmac : JournalError
  checkpoint_order : JournalError
  checkpoint_unreadable : JournalError
  incomplete_record : JournalError
  latest_unauthenticated : JournalError
  count_not_advanced : JournalError
  path_not_configured : JournalError
  seal_unexpected : JournalError
  reason_required : JournalError

-- "0" * 64
abbrev pub no_seal : String
no_seal = "0000000000000000000000000000000000000000000000000000000000000000"

abbrev pub in_order : Payload → Option Payload → Bool
in_order p none = true
in_order p (some previous) =
    if p.kind == "reconcile"
    then not (p.epoch == previous.epoch) && p.previous_epoch == some previous.epoch
    else (p.epoch == previous.epoch && not (leb p.count previous.count))

abbrev pub last_payload : Option CheckpointEntry → Option Payload
last_payload none = none
last_payload (some e) = some e.payload

abbrev pub seal_before : Option CheckpointEntry → String
seal_before none = no_seal
seal_before (some e) = e.seal

abbrev pub last_entry : List CheckpointEntry → Option CheckpointEntry
last_entry [] = none
last_entry (e ∷ []) = some e
last_entry (e ∷ f ∷ es) = last_entry (f ∷ es)

abbrev pub last_line : List Line → Option Line
last_line [] = none
last_line (l ∷ []) = some l
last_line (l ∷ k ∷ ls) = last_line (k ∷ ls)

abbrev pub some_records : List CheckpointEntry → Result JournalError (List CheckpointEntry)
some_records [] = err unavailable
some_records (e ∷ es) = ok (e ∷ es)

-- open("a"), which makes the file where it is not there
abbrev pub lines_of : JournalFile → List Line
lines_of (file j) = j.lines
lines_of no_path = []
lines_of no_file = []

abbrev pub write_line : JournalFile → CheckpointEntry → JournalFile
write_line f e = file (record { lines = lines_of f ++ entry_line e ∷ []; complete = true })

-- The entry that append_checkpoint writes; uuid4 and the clock give an epoch and a date.
abbrev pub head_payload : String → String → ℕ → String → String → Option CheckpointEntry → Payload
head_payload new_epoch now count head_hash key_id previous = record {
  kind = "head";
  epoch = epoch_of previous;
  previous_epoch = none;
  previous_count = none;
  previous_head_hash = none;
  reason = none;
  count = count;
  head_hash = head_hash;
  created_at = now;
  key_id = key_id;
  previous_seal = seal_before previous;
  anchored_from = anchor_of previous;
}
  where
    epoch_of : Option CheckpointEntry → String
    epoch_of none = new_epoch
    epoch_of (some e) = e.payload.epoch

    anchor_of : Option CheckpointEntry → ℕ
    anchor_of none = count
    anchor_of (some e) = e.payload.anchored_from

abbrev pub has_advanced : ℕ → Option CheckpointEntry → Bool
has_advanced count none = true
has_advanced count (some e) = not (leb count e.payload.count)

abbrev pub reconcile_payload :
    String → String → ℕ → String → String → String → CheckpointEntry → Payload
reconcile_payload new_epoch now count head_hash reason key_id previous = record {
  kind = "reconcile";
  epoch = new_epoch;
  previous_epoch = some previous.payload.epoch;
  previous_count = some previous.payload.count;
  previous_head_hash = some previous.payload.head_hash;
  reason = some reason;
  count = count;
  head_hash = head_hash;
  created_at = now;
  key_id = key_id;
  previous_seal = previous.seal;
  anchored_from = count;
}

abbrev pub has_path : JournalFile → Bool
has_path no_path = false
has_path _ = true

-- What the journal takes of json and hmac: the seal of an entry, by the key.
module _ (seal_of : String → Payload → String) where
  abbrev pub is_sealed_by : Option String → CheckpointEntry → Bool
  is_sealed_by none e = false
  is_sealed_by (some key) e = e.seal == seal_of key e.payload

  -- One turn of the loop, after the last of the records before.
  abbrev pub check_entry :
      List (String × String)
      → Option CheckpointEntry
      → CheckpointEntry
      → Result JournalError (Unit {0})
  check_entry ring previous e =
      require
        (known (lookup e.payload.key_id ring) && e.payload.previous_seal == seal_before previous)
        checkpoint_chain
      >> require (is_sealed_by (lookup e.payload.key_id ring) e) checkpoint_hmac
      >> require (in_order e.payload (last_payload previous)) checkpoint_order
    where
      known : Option String → Bool
      known none = false
      known (some key) = true

  abbrev pub read_lines :
      List (String × String)
      → Option CheckpointEntry
      → List Line
      → Result JournalError (List CheckpointEntry)
  read_lines ring previous [] = ok []
  read_lines ring previous (other_line ∷ lines) = err checkpoint_unreadable
  read_lines ring previous (entry_line e ∷ lines) =
      check_entry ring previous e
      >> (read_lines ring (some e) lines >>= λ records. ok (e ∷ records))

  unfoldable pub read_checkpoints :
      List (String × String) → JournalFile → Result JournalError (List CheckpointEntry)
  read_checkpoints ring no_path = err unavailable
  read_checkpoints ring no_file = err unavailable
  read_checkpoints ring (file j) =
      if is_empty_ring ring
      then err verification_key_unavailable
      else read_lines ring none j.lines >>= some_records

  abbrev pub authenticated :
      List (String × String) → Option Line → Result JournalError (Option CheckpointEntry)
  authenticated ring none = ok none
  authenticated ring (some other_line) = err checkpoint_unreadable
  authenticated ring (some (entry_line e)) =
      if is_sealed_by (lookup e.payload.key_id ring) e
      then ok (some e)
      else err latest_unauthenticated

  unfoldable pub latest_checkpoint :
      List (String × String) → JournalFile → Result JournalError (Option CheckpointEntry)
  latest_checkpoint ring no_path = ok none
  latest_checkpoint ring no_file = ok none
  latest_checkpoint ring (file j) =
      if is_empty_text j.lines
      then ok none
      else if not j.complete
      then err incomplete_record
      else authenticated ring (last_line j.lines)
    where
      is_empty_text : List Line → Bool
      is_empty_text [] = true
      is_empty_text (l ∷ ls) = false

  abbrev pub sealed : String → Payload → CheckpointEntry
  sealed key p = record { payload = p; seal = seal_of key p }

  abbrev pub append_after :
      String
      → String
      → ℕ
      → String
      → String
      → String
      → JournalFile
      → Option CheckpointEntry
      → Result JournalError JournalFile
  append_after new_epoch now count head_hash key_id key f previous =
      require (has_advanced count previous) count_not_advanced
      >> ok (write_line f (sealed key (head_payload new_epoch now count head_hash key_id previous)))

  unfoldable pub append_checkpoint :
      String
      → String
      → ℕ
      → String
      → String
      → String
      → List (String × String)
      → JournalFile
      → Result JournalError JournalFile
  append_checkpoint new_epoch now count head_hash key_id key ring no_path = ok no_path
  append_checkpoint new_epoch now count head_hash key_id key ring no_file =
      append_after new_epoch now count head_hash key_id key no_file none
  append_checkpoint new_epoch now count head_hash key_id key ring (file j) =
      latest_checkpoint ring (file j)
      >>= append_after new_epoch now count head_hash key_id key (file j)

  -- reason is the text without the blanks around it.
  abbrev pub reconcile_after :
      String
      → String
      → ℕ
      → String
      → String
      → String
      → String
      → String
      → JournalFile
      → Option CheckpointEntry
      → Result JournalError JournalFile
  reconcile_after new_epoch now count head_hash reason expected_seal key_id key f none =
      err unavailable
  reconcile_after new_epoch now count head_hash reason expected_seal key_id key f (some previous) =
      require (previous.seal == expected_seal) seal_unexpected
      >> require (not (reason == "")) reason_required
      >> ok (
          write_line f
            (sealed key (reconcile_payload new_epoch now count head_hash reason key_id previous)))

  unfoldable pub reconcile_checkpoint :
      String
      → String
      → ℕ
      → String
      → String
      → String
      → String
      → String
      → List (String × String)
      → JournalFile
      → Result JournalError JournalFile
  reconcile_checkpoint new_epoch now count head_hash reason expected_seal key_id key ring f =
      require (has_path f) path_not_configured
      >> (read_checkpoints ring f >>= λ records.
          reconcile_after new_epoch now count head_hash reason expected_seal key_id key f
            (last_entry records))
