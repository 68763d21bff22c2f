-- ===== src/Audit/Recorded/Anchors.antt =====
-- record_audit leaves the log verifiable against its journal.
use norinth.Prelude.{
  Option, none, some, String, true, false, not, ◌&&◌, List, [], ◌∷◌, ◌++◌, ◌==◌, ◌≡◌, ◌≢◌, refl,
  sym, ap, subst, ◌∙◌, ℕ, ◌+◌, length, length-append, lookup, ltb, leb, text_key, number_key,
  if◌then◌else◌, same_refl, two_branches, arith, inl, inr,
}
use norinth.Prelude.Result.{ok, err}
use norinth.Audit.{
  AuditConfig, AuditEntry, AuditRow, Hashing, audit_keyring, append_row, last_row, new_row, sign,
  signed_by, tail_hash, check_anchor, check_checkpoint, verify_rows, verify_audit_chain,
  is_empty_ring, has_hash, row_at_count, database_short, database_contradicts,
}
use norinth.Audit.Chain.{verify-tail_hash}
use norinth.Audit.Append.{unsigned, signed, lookup_of_has, append_row-row, append_row-verifies}
use norinth.Audit.Journal.{
  Payload, CheckpointEntry, JournalFile, last_entry, append_checkpoint, has_advanced, sealed,
  head_payload, write_line,
}
use norinth.Audit.Journal.Written.{
  IsJournal, latest_checkpoint-read_checkpoints, append_checkpoint-IsJournal, appended,
}
use norinth.Audit.Recorded.{as_checkpoint, record_audit}

last_row-append : (rows : List AuditRow) (r : AuditRow) → last_row (rows ++ r ∷ []) ≡ some r
last_row-append [] r = refl
last_row-append (x ∷ []) r = refl
last_row-append (x ∷ y ∷ rows) r = last_row-append (y ∷ rows) r

-- The log is longer than the last checkpoint was.
anchored-has_advanced :
    (o : Option CheckpointEntry) (rows : List AuditRow) (r : AuditRow)
    → check_anchor (as_checkpoint o) rows ≡ ok tt
    → has_advanced (length (rows ++ r ∷ [])) o ≡ true
unfolding check_anchor
anchored-has_advanced none rows r h = refl
anchored-has_advanced (some e) rows r h =
    let count = e.payload.count in
    let rest =
      if not (count == 0) && not (has_hash (row_at_count rows count) e.payload.head_hash)
      then err database_contradicts
      else ok tt in
    elim (two_branches (ltb (length rows) count) (err database_short) rest (ok tt) h) [
      | inl (_, t) ↦ absurd (cc t)
      | inr (few, _) ↦
          longer (length rows) count (length (rows ++ r ∷ [])) (length-append rows (r ∷ [])) few
    ]
  where
    longer : (n count m : ℕ) → m ≡ n + 1 → ltb n count ≡ false → not (leb m count) ≡ true
    longer n count m e h = ground arith

-- A checkpoint of the whole log agrees with it.
whole-check_checkpoint :
    (rows : List AuditRow) (head : String)
    → check_checkpoint (some (record { count = length rows; head_hash = head })) rows head ≡ ok head
unfolding check_checkpoint
whole-check_checkpoint rows head =
    let a = irrefl (length rows) in
    let b = same_refl (length rows) in let c = same_refl head in rw (a, b, c) refl
  where
    irrefl : (n : ℕ) → ltb n n ≡ false
    irrefl n = ground arith

module _ (hashing : Hashing) (seal_of : String → Payload → String) where
  -- Where record_audit appends a row to an intact log and there is a key, it also writes the checkpoint,
  -- and the log then verifies against the last entry of the journal, which reads to its end.
  pub record_audit-verifies :
      (c : AuditConfig) (ring : List (String × String)) (new_epoch now : String)
      (rows rows' : List AuditRow) (f : JournalFile) (records : List CheckpointEntry)
      (entry : AuditEntry) (h : String)
      → ((p : String) (e : AuditEntry) → hashing.digest p e ≢ "")
      → audit_keyring c ≡ ok ring
      → is_empty_ring ring ≡ false
      → IsJournal seal_of ring f records
      → verify_rows hashing ring hashing.genesis_hash rows ≡ ok h
      → append_row hashing c (as_checkpoint (last_entry records)) rows entry ≡ ok rows'
      → (f' : JournalFile) × (e : CheckpointEntry) × (record_audit hashing seal_of c new_epoch now
            rows f entry
          ≡ ok (rows', f'))
        × IsJournal seal_of ring f' (records ++ e ∷ [])
        × (verify_audit_chain hashing ring (as_checkpoint (some e)) rows'
            ≡ ok (hashing.digest h entry))
  unfolding record_audit verify_audit_chain
  record_audit-verifies c ring new_epoch now rows rows' f records entry h nonempty k full i v t =
      let (anchored, primary, p, grown) =
        append_row-row hashing c ring (as_checkpoint (last_entry records)) rows rows' entry k t in
      elim p [
        | unsigned e _ ↦ absurd (let u = ap is_empty_ring e in cc (u, full))
        | signed id n m q ↦
            let (key, l) = lookup_of_has id ring m in
            let same : sign hashing ring rh primary
                ≡ (some (hashing.keyed_digest key rh), some id) =
              ap (sign hashing ring rh) q ∙ ap (signed_by hashing rh id) l in
            with_row id key
              (new_row hashing rows entry rh (some (hashing.keyed_digest key rh), some id)) l refl
              refl anchored (grown ∙ ap (λ s. rows ++ new_row hashing rows entry rh s ∷ []) same)
      ]
    where
      rh : String
      rh = hashing.digest (tail_hash hashing rows) entry

      head : rh ≡ hashing.digest h entry
      head = ap (λ x. hashing.digest x entry) (verify-tail_hash hashing ring rows nonempty v)

      verifies :
          verify_audit_chain hashing ring
            (some (record { count = length rows'; head_hash = rh }))
            rows'
          ≡ ok (hashing.digest h entry)
      verifies =
          let w =
            (append_row-verifies hashing c ring (as_checkpoint (last_entry records)) rows rows'
              entry h nonempty k v t).1 in
          rw w (
            subst
              (λ x.
                check_checkpoint (some (record { count = length rows'; head_hash = rh })) rows' x
                ≡ ok x)
              head (whole-check_checkpoint rows' rh))

      with_row :
          (id key : String) (row : AuditRow)
          → lookup id ring ≡ some key
          → row.row_hash ≡ some rh
          → row.hmac_key_id ≡ some id
          → check_anchor (as_checkpoint (last_entry records)) rows ≡ ok tt
          → rows' ≡ rows ++ row ∷ []
          → (f' : JournalFile) × (e : CheckpointEntry) × (record_audit hashing seal_of c new_epoch
                now rows f entry
              ≡ ok (rows', f'))
            × IsJournal seal_of ring f' (records ++ e ∷ [])
            × (verify_audit_chain hashing ring (as_checkpoint (some e)) rows'
                ≡ ok (hashing.digest h entry))
      with_row id key row l hash signer anchored grown =
          let latest = latest_checkpoint-read_checkpoints seal_of ring f records i in
          let e =
            sealed seal_of key
              (head_payload new_epoch now (length rows') rh id (last_entry records)) in
          let adv =
            subst (λ x. has_advanced (length x) (last_entry records) ≡ true) (sym grown)
              (anchored-has_advanced (last_entry records) rows row anchored) in
          let written : append_checkpoint seal_of new_epoch now (length rows') rh id key ring f
              ≡ ok (write_line f e) =
            appended seal_of ring f records i new_epoch now (length rows') rh id key
            ∙ (rw adv refl) in
          let last = ap last_row grown ∙ last_row-append rows row in
          (
            write_line f e,
            e,
            rw (k, latest, t, last, hash, signer, l, written) refl,
            (append_checkpoint-IsJournal seal_of ring f (write_line f e) records new_epoch now
                (length rows') rh id key i l written).0,
            verifies,
          )
