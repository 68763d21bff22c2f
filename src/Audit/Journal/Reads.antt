-- ===== src/Audit/Journal/Reads.antt =====
-- What is written to the journal is read again.
use norinth.Prelude.{
  Option, none, some, String, true, false, List, [], ◌∷◌, ◌++◌, ◌≡◌, inl, inr, refl, sym, ap, subst,
  ◌∙◌, text_key, option_key, lookup, two_branches,
}
use norinth.Prelude.Result.{ok, err, ok_inj, ◌>>=◌, >>=-eq-ok, require, require-eq-ok}
use norinth.Audit.{is_empty_ring}
use norinth.Audit.Journal.{
  Payload, CheckpointEntry, Line, entry_line, other_line, JournalFile, no_path, no_file, file,
  JournalError, in_order, last_payload, last_entry, last_line, is_sealed_by, check_entry,
  read_lines, some_records, read_checkpoints, authenticated, write_line, lines_of,
}

-- The last of the records, or what is before them.
abbrev last_after : Option CheckpointEntry → List CheckpointEntry → Option CheckpointEntry
last_after previous [] = previous
last_after previous (e ∷ es) = last_after (some e) es

last_after-last_entry :
    (e : CheckpointEntry) (es : List CheckpointEntry) → last_after (some e) es ≡ last_entry (e ∷ es)
last_after-last_entry e [] = refl
last_after-last_entry e (f ∷ es) = last_after-last_entry f es

module _ (seal_of : String → Payload → String) (ring : List (String × String)) where
  abbrev Reads : Option CheckpointEntry → List Line → List CheckpointEntry → Type 0
  Reads previous lines records = read_lines seal_of ring previous lines ≡ ok records

  check_entry-sealed :
      (previous : Option CheckpointEntry) (e : CheckpointEntry)
      → check_entry seal_of ring previous e ≡ ok tt
      → is_sealed_by seal_of (lookup e.payload.key_id ring) e ≡ true
  check_entry-sealed previous e h =
      let seal = is_sealed_by seal_of (lookup e.payload.key_id ring) e in
      let (_, ab, _) =
        >>=-eq-ok _
          (λ _. require (in_order e.payload (last_payload previous)) JournalError.checkpoint_order)
          h in
      let (_, _, b) = >>=-eq-ok _ (λ _. require seal JournalError.checkpoint_hmac) ab in
      require-eq-ok seal JournalError.checkpoint_hmac b

  -- The records of a journal, taken apart.
  read_first :
      (previous : Option CheckpointEntry) (e : CheckpointEntry) (lines : List Line)
      (records : List CheckpointEntry)
      → Reads previous (entry_line e ∷ lines) records
      → (check_entry seal_of ring previous e ≡ ok tt)
        × (rest : List CheckpointEntry) × Reads (some e) lines rest
        × (e ∷ rest ≡ records)
  read_first previous e lines records h =
      let (_, c, r) =
        >>=-eq-ok (check_entry seal_of ring previous e)
          (λ _. read_lines seal_of ring (some e) lines >>= λ rs. ok (e ∷ rs)) h in
      let (rest, q, t) = >>=-eq-ok (read_lines seal_of ring (some e) lines) (λ rs. ok (e ∷ rs)) r in
      (c, rest, q, ok_inj t)

  read_append :
      (previous : Option CheckpointEntry) (lines : List Line) (records : List CheckpointEntry)
      (e : CheckpointEntry)
      → Reads previous lines records
      → check_entry seal_of ring (last_after previous records) e ≡ ok tt
      → Reads previous (lines ++ entry_line e ∷ []) (records ++ e ∷ [])
  read_append previous [] records e h c =
      subst (λ rs. Reads previous (entry_line e ∷ []) (rs ++ e ∷ [])) (ok_inj h)
        (let c' : check_entry seal_of ring previous e ≡ ok tt =
            subst (λ rs. check_entry seal_of ring (last_after previous rs) e ≡ ok tt)
              (sym (ok_inj h)) c in
          rw c' refl)
  read_append previous (other_line ∷ lines) records e h c = absurd (cc h)
  read_append previous (entry_line f ∷ lines) records e h c =
      let (passes, rest, q, t) = read_first previous f lines records h in
      let c' =
        subst (λ rs. check_entry seal_of ring (last_after previous rs) e ≡ ok tt) (sym t) c in
      let ih = read_append (some f) lines rest e q c' in
      subst (λ rs. Reads previous (entry_line f ∷ lines ++ entry_line e ∷ []) (rs ++ e ∷ [])) t
        (rw (passes, ih) refl)

  -- The lines of a journal that reads are its records, and the last of them has its seal.
  pub read_lines-last_line :
      (previous : Option CheckpointEntry) (e : CheckpointEntry) (lines : List Line)
      (records : List CheckpointEntry)
      → Reads previous (entry_line e ∷ lines) records
      → authenticated seal_of ring (last_line (entry_line e ∷ lines)) ≡ ok (last_entry records)
  read_lines-last_line previous e [] records h =
      let (passes, rest, q, t) = read_first previous e [] records h in
      let r : e ∷ [] ≡ records = ap (λ rs. e ∷ rs) (ok_inj q) ∙ t in
      let s = check_entry-sealed previous e passes in rw s (ap (λ rs. ok (last_entry rs)) r)
  read_lines-last_line previous e (other_line ∷ lines) records h =
      let (_, rest, q, _) = read_first previous e (other_line ∷ lines) records h in absurd (cc q)
  read_lines-last_line previous e (entry_line f ∷ lines) records h =
      let (_, rest, q, t) = read_first previous e (entry_line f ∷ lines) records h in
      let ih = read_lines-last_line (some e) f lines rest q in
      let (_, later, _, u) = read_first (some e) f lines rest q in
      ih
      ∙ ap (λ rs. ok (last_entry rs)) (sym u)
      ∙ ap (λ rs. ok (last_entry (e ∷ rs))) u
      ∙ ap (λ rs. ok (last_entry rs)) t

  -- A file that reads has lines that read, and a key.
  pub record IsReadable (f : JournalFile) (records : List CheckpointEntry) : Type 0 where
    pub keyed : is_empty_ring ring ≡ false
    pub lines : Reads none (lines_of f) records

  pub read_checkpoints-IsReadable :
      (f : JournalFile) (records : List CheckpointEntry)
      → read_checkpoints seal_of ring f ≡ ok records
      → IsReadable f records
  unfolding read_checkpoints
  read_checkpoints-IsReadable no_path records h = absurd (cc h)
  read_checkpoints-IsReadable no_file records h = absurd (cc h)
  read_checkpoints-IsReadable (file j) records h =
      elim (two_branches (is_empty_ring ring) (err JournalError.verification_key_unavailable)
        (read_lines seal_of ring none j.lines >>= some_records) (ok records) h) [
          | inl (_, e) ↦ absurd (cc e)
          | inr (e, t) ↦
              let (rs, q, u) = >>=-eq-ok (read_lines seal_of ring none j.lines) some_records t in
              record { keyed = e; lines = q ∙ ap ok (all_records rs u) }
        ]
    where
      all_records : (rs : List CheckpointEntry) → some_records rs ≡ ok records → rs ≡ records
      all_records [] h = absurd (cc h)
      all_records (r ∷ rs) h = ok_inj h

  -- An entry that passes after the last one is read after the others.
  pub written_reads :
      (f : JournalFile) (records : List CheckpointEntry) (e : CheckpointEntry)
      → IsReadable f records
      → check_entry seal_of ring (last_entry records) e ≡ ok tt
      → read_checkpoints seal_of ring (write_line f e) ≡ ok (records ++ e ∷ [])
  unfolding read_checkpoints
  written_reads f records e i c =
      let keyed = i.keyed in
      let all = read_append none (lines_of f) records e i.lines (last_is records c) in
      rw (keyed, all) (not_empty records)
    where
      last_is :
          (rs : List CheckpointEntry)
          → check_entry seal_of ring (last_entry rs) e ≡ ok tt
          → check_entry seal_of ring (last_after none rs) e ≡ ok tt
      last_is [] h = h
      last_is (r ∷ rs) h =
          subst (λ o. check_entry seal_of ring o e ≡ ok tt) (sym (last_after-last_entry r rs)) h

      not_empty : (rs : List CheckpointEntry) → some_records (rs ++ e ∷ []) ≡ ok (rs ++ e ∷ [])
      not_empty [] = refl
      not_empty (r ∷ rs) = refl
