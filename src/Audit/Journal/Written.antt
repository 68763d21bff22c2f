-- ===== src/Audit/Journal/Written.antt =====
-- append_checkpoint and reconcile_checkpoint against read_checkpoints and latest_checkpoint.
use norinth.Prelude.{
  Option, none, some, String, true, false, List, [], ◌∷◌, ◌++◌, ◌==◌, ◌≡◌, refl, sym, ap, subst,
  not, ◌∙◌, ℕ, text_key, option_key, lookup, same_refl, eq_iff,
}
use norinth.Prelude.Result.{ok, ok_inj, ◌>>◌, >>=-eq-ok, require, require-eq-ok}
use norinth.Audit.{is_empty_ring}
use norinth.Audit.Journal.{
  Payload, CheckpointEntry, Line, entry_line, other_line, Journal, JournalFile, no_path, no_file,
  file, JournalError, in_order, last_payload, seal_before, last_entry, check_entry, read_lines,
  read_checkpoints, latest_checkpoint, sealed, write_line, head_payload, has_advanced, append_after,
  append_checkpoint, reconcile_payload, reconcile_after, reconcile_checkpoint,
}
use norinth.Audit.Journal.Reads.{
  IsReadable, read_checkpoints-IsReadable, written_reads, read_lines-last_line,
}

-- A journal with its records: not begun, or written to its end and read without an error.
pub data IsJournal (seal_of : String → Payload → String) (ring : List (String × String))
    : JournalFile → List CheckpointEntry → Type 0 where
  fresh : IsJournal seal_of ring no_file []
  retained :
      (j : Journal) (records : List CheckpointEntry)
      → j.complete ≡ true
      → read_checkpoints seal_of ring (file j) ≡ ok records
      → IsJournal seal_of ring (file j) records

key_in_ring :
    (id : String) (ring : List (String × String)) {key : String}
    → lookup id ring ≡ some key
    → is_empty_ring ring ≡ false
key_in_ring id [] h = absurd (cc h)
key_in_ring id (k ∷ ring) h = refl

module _ (seal_of : String → Payload → String) (ring : List (String × String)) where
  -- What latest_checkpoint reads from the end of a journal is the last of the entries that
  -- read_checkpoints finds in the whole of it.
  pub latest_checkpoint-read_checkpoints :
      (f : JournalFile) (records : List CheckpointEntry)
      → IsJournal seal_of ring f records
      → latest_checkpoint seal_of ring f ≡ ok (last_entry records)
  unfolding latest_checkpoint
  latest_checkpoint-read_checkpoints no_path records i = elim i [ ]
  latest_checkpoint-read_checkpoints no_file _ fresh = refl
  latest_checkpoint-read_checkpoints (file j) records (retained j' _ c h) =
      by_lines j.lines refl ((read_checkpoints-IsReadable seal_of ring (file j) records h).lines)
    where
      by_lines :
          (lines : List Line)
          → j.lines ≡ lines
          → read_lines seal_of ring none j.lines ≡ ok records
          → latest_checkpoint seal_of ring (file j) ≡ ok (last_entry records)
      by_lines [] e i =
          let r : [] ≡ records = ok_inj (rw e at i) in rw e (ap (λ rs. ok (last_entry rs)) r)
      by_lines (other_line ∷ lines) e i = absurd (let t = rw e at i in cc t)
      by_lines (entry_line x ∷ lines) e i =
          rw (e, c) (read_lines-last_line seal_of ring none x lines records (rw e at i))

  -- What the two functions write passes the checks of read_checkpoints.
  written-check_entry :
      (previous : Option CheckpointEntry) (key : String) (p : Payload)
      → lookup p.key_id ring ≡ some key
      → p.previous_seal ≡ seal_before previous
      → in_order p (last_payload previous) ≡ true
      → check_entry seal_of ring previous (sealed seal_of key p) ≡ ok tt
  written-check_entry previous key p h s o =
      let a = same_refl (seal_of key p) in
      let b : (p.previous_seal == seal_before previous) ≡ true =
        (eq_iff p.previous_seal (seal_before previous)).1 s in
      rw (h, b, a, o) refl

  readable :
      (f : JournalFile) (records : List CheckpointEntry)
      → IsJournal seal_of ring f records
      → is_empty_ring ring ≡ false
      → IsReadable seal_of ring f records
  readable no_path records i keyed = elim i [ ]
  readable no_file _ fresh keyed = record { keyed = keyed; lines = refl }
  readable (file j) records (retained j' _ c h) keyed =
      read_checkpoints-IsReadable seal_of ring (file j) records h

  extended :
      (f : JournalFile) (records : List CheckpointEntry) (key : String) (p : Payload)
      → IsJournal seal_of ring f records
      → lookup p.key_id ring ≡ some key
      → p.previous_seal ≡ seal_before (last_entry records)
      → in_order p (last_payload (last_entry records)) ≡ true
      → IsJournal seal_of ring
          (write_line f (sealed seal_of key p))
          (records ++ sealed seal_of key p ∷ [])
  extended f records key p i h s o = retained _ _ refl (
      written_reads seal_of ring f records (sealed seal_of key p)
        (readable f records i (key_in_ring p.key_id ring h))
        (written-check_entry (last_entry records) key p h s o))

  head-in_order :
      (new_epoch now : String) (count : ℕ) (head_hash key_id : String)
      (previous : Option CheckpointEntry)
      → has_advanced count previous ≡ true
      → in_order
          (head_payload new_epoch now count head_hash key_id previous)
          (last_payload previous)
        ≡ true
  head-in_order new_epoch now count head_hash key_id none h = refl
  head-in_order new_epoch now count head_hash key_id (some e) h =
      let a = same_refl e.payload.epoch in rw (a, h) refl

  pub appended :
      (f : JournalFile) (records : List CheckpointEntry)
      → IsJournal seal_of ring f records
      → (new_epoch now : String) (count : ℕ) (head_hash key_id key : String)
      → append_checkpoint seal_of new_epoch now count head_hash key_id key ring f
        ≡ append_after seal_of new_epoch now count head_hash key_id key f (last_entry records)
  unfolding append_checkpoint
  appended no_path records i new_epoch now count head_hash key_id key = elim i [ ]
  appended no_file _ fresh new_epoch now count head_hash key_id key = refl
  appended (file j) records (retained j' _ c h) new_epoch now count head_hash key_id key =
      let l = latest_checkpoint-read_checkpoints (file j) records (retained j records c h) in
      rw l refl

  -- Where append_checkpoint returns, with a key that the ring has under its name, the journal reads as
  -- before with one entry at its end, of the given count and hash and sealed by that key.
  pub append_checkpoint-IsJournal :
      (f f' : JournalFile) (records : List CheckpointEntry) (new_epoch now : String) (count : ℕ)
      (head_hash key_id key : String)
      → IsJournal seal_of ring f records
      → lookup key_id ring ≡ some key
      → append_checkpoint seal_of new_epoch now count head_hash key_id key ring f ≡ ok f'
      → let e =
          sealed seal_of key
            (head_payload new_epoch now count head_hash key_id (last_entry records)) in
        IsJournal seal_of ring f' (records ++ e ∷ [])
        × (latest_checkpoint seal_of ring f' ≡ ok (some e))
  append_checkpoint-IsJournal f f' records new_epoch now count head_hash key_id key i h a =
      let p = head_payload new_epoch now count head_hash key_id (last_entry records) in
      let (_, adv, w) =
        >>=-eq-ok
          (require (has_advanced count (last_entry records)) JournalError.count_not_advanced)
          (λ _. ok (write_line f (sealed seal_of key p)))
          (sym (appended f records i new_epoch now count head_hash key_id key) ∙ a) in
      let x = extended f records key p i h refl (
        head-in_order new_epoch now count head_hash key_id (last_entry records)
          (require-eq-ok _ _ adv)) in
      let y =
        subst (λ g. IsJournal seal_of ring g (records ++ sealed seal_of key p ∷ [])) (ok_inj w) x in
      (
        y,
        latest_checkpoint-read_checkpoints f' _ y
            ∙ ap ok (last-append records (sealed seal_of key p)),
      )
    where
      last-append :
          (rs : List CheckpointEntry) (e : CheckpointEntry) → last_entry (rs ++ e ∷ []) ≡ some e
      last-append [] e = refl
      last-append (r ∷ []) e = refl
      last-append (r ∷ q ∷ rs) e = last-append (q ∷ rs) e

  -- Where reconcile_checkpoint returns, with an epoch other than the last one, the journal reads as before
  -- with the reconciliation at its end.
  pub reconcile_checkpoint-IsJournal :
      (j : Journal) (f' : JournalFile) (records : List CheckpointEntry) (previous : CheckpointEntry)
      (new_epoch now : String) (count : ℕ) (head_hash reason expected_seal key_id key : String)
      → read_checkpoints seal_of ring (file j) ≡ ok records
      → j.complete ≡ true
      → last_entry records ≡ some previous
      → (new_epoch == previous.payload.epoch) ≡ false
      → lookup key_id ring ≡ some key
      → reconcile_checkpoint seal_of new_epoch now count head_hash reason expected_seal key_id key
          ring
          (file j)
        ≡ ok f'
      → IsJournal seal_of ring f' (
          records
          ++ sealed seal_of key
              (reconcile_payload new_epoch now count head_hash reason key_id previous)
            ∷ [])
  unfolding reconcile_checkpoint
  reconcile_checkpoint-IsJournal j f' records previous new_epoch now count head_hash reason
        expected_seal key_id key r c l n k h =
      let p = reconcile_payload new_epoch now count head_hash reason key_id previous in
      let h₁ : reconcile_after seal_of new_epoch now count head_hash reason expected_seal key_id key
            (file j) (some previous)
          ≡ ok f' =
        rw (r, l) at h in
      let seal = require (previous.seal == expected_seal) JournalError.seal_unexpected in
      let given = require (not (reason == "")) JournalError.reason_required in
      let (_, _, w) =
        >>=-eq-ok (seal >> given) (λ _. ok (write_line (file j) (sealed seal_of key p))) h₁ in
      let o : in_order p (last_payload (last_entry records)) ≡ true =
        (let a = same_refl previous.payload.epoch in rw (l, n, a) refl) in
      let x =
        extended (file j) records key p (retained j records c r) k (ap seal_before (sym l)) o in
      subst (λ g. IsJournal seal_of ring g (records ++ sealed seal_of key p ∷ [])) (ok_inj w) x
