-- ===== src/Audit/Anchored.antt =====
-- What a verified chain says of the entries that a checkpoint was taken of, and of a new entry.
use norinth.Prelude.{
  Option, none, some, String, Bool, true, false, not, ◌&&◌, ◌||◌, List, [], ◌∷◌, ◌++◌, ◌==◌, ◌≡◌,
  inl, inr, refl, sym, ap, subst, ◌∙◌, ℕ, zero, suc, ltb, text_key, option_key, number_key, length,
  get_elem?, Memᴰ, mem_append_left, arith, eq_iff, eqb_iff, same_option_iff, Bool-cases,
  three_branches,
}
use norinth.Prelude.Result.{ok, err, ◌>>=◌, >>=-eq-ok}
use norinth.Audit.{
  AuditRow, Hashing, checkpoint_mismatch, Checkpoint, check_row, verify_rows, has_hash,
  row_at_count, check_checkpoint, verify_audit_chain,
}
use norinth.Audit.Chain.{check_row-IsLinked, entries, NoCollision, verify_rows-determines}

append_empty : {A : Type 0} (xs : List A) → xs ++ [] ≡ xs
append_empty [] = refl
append_empty (x ∷ xs) = ap (λ ys. x ∷ ys) (append_empty xs)

module _ (hashing : Hashing) (ring : List (String × String)) where
  -- The rows up to the n-th are an intact chain that ends in its hash.
  pub record Prefix (p : String) (rows : List AuditRow) (count : ℕ) (head : String) : Type 0 where
    pub earlier : List AuditRow
    pub later : List AuditRow
    pub split : rows ≡ earlier ++ later
    pub counted : length earlier ≡ count
    pub intact : verify_rows hashing ring p earlier ≡ ok head

  prefix_at :
      (p : String) (rows : List AuditRow) (n : ℕ) (r : AuditRow) {h head : String}
      → verify_rows hashing ring p rows ≡ ok h
      → get_elem? rows n ≡ some r
      → r.row_hash ≡ some head
      → Prefix p rows (suc n) head
  unfolding verify_rows
  prefix_at p [] n r e g f = absurd (cc g)
  prefix_at p (x ∷ xs) zero r {h} {head} e g f =
      let (a, e₁, e₂) = >>=-eq-ok (check_row hashing ring p x) _ e in
      let k = check_row-IsLinked hashing ring p x a e₁ in
      let xr : some x ≡ some r = g in
      let hashes : some a ≡ some head =
        sym k.hashed ∙ ap (λ o. elim o [ none ↦ none | some y ↦ y.row_hash ]) xr ∙ f in
      record {
        earlier = x ∷ [];
        later = xs;
        split = refl;
        counted = refl;
        intact = ap (λ m. m >>= λ b. ok b) e₁ ∙ ap ok (some_eq hashes);
      }
    where
      some_eq : {a b : String} → some a ≡ some b → a ≡ b
      some_eq t = cc
  prefix_at p (x ∷ xs) (suc n) r {h} {head} e g f =
      let (a, e₁, e₂) = >>=-eq-ok (check_row hashing ring p x) _ e in
      let rest = prefix_at a xs n r e₂ g f in
      record {
        earlier = x ∷ rest.earlier;
        later = rest.later;
        split = ap (λ ys. x ∷ ys) rest.split;
        counted = ap suc rest.counted;
        intact = ap (λ m. m >>= λ b. verify_rows hashing ring b rest.earlier) e₁ ∙ rest.intact;
      }

  row_of_hash :
      (o : Option AuditRow) (head : String)
      → has_hash o head ≡ true
      → (r : AuditRow) × (o ≡ some r) × (r.row_hash ≡ some head)
  row_of_hash none head h = absurd (cc h)
  row_of_hash (some r) head h = (r, refl, (same_option_iff r.row_hash (some head)).0 h)

  prefix_of_check :
      (rows : List AuditRow) (c : Checkpoint) (n : ℕ) {h x : String}
      → c.count ≡ suc n
      → verify_rows hashing ring hashing.genesis_hash rows ≡ ok h
      → check_checkpoint (some c) rows h ≡ ok x
      → Prefix hashing.genesis_hash rows c.count c.head_hash
  unfolding check_checkpoint
  prefix_of_check rows c n {h} {x} k e t =
      elim (three_branches
        (ltb (length rows) c.count || (length rows == c.count && not (h == c.head_hash)))
        (not (length rows == c.count) && not (has_hash (row_at_count rows c.count) c.head_hash))
        (err (record { broken_at = none; reason = checkpoint_mismatch }))
        (err (record { broken_at = none; reason = checkpoint_mismatch })) (ok h) (ok x) t) [
          | inl (_, y) ↦ absurd (cc y)
          | inr (inl (_, _, y)) ↦ absurd (cc y)
          | inr (inr (a, b, _)) ↦ elim (Bool-cases (length rows == c.count)) [
            | inl l ↦
                let same : (h == c.head_hash) ≡ true =
                  whole (ltb (length rows) c.count) (length rows == c.count) (h == c.head_hash) l
                    a in
                record {
                  earlier = rows;
                  later = [];
                  split = sym (append_empty rows);
                  counted = (eqb_iff (length rows) c.count).0 l;
                  intact = e ∙ ap ok ((eq_iff h c.head_hash).0 same);
                }
            | inr l ↦
                let f =
                  shorter (length rows == c.count)
                    (has_hash (row_at_count rows c.count) c.head_hash) l b in
                let (r, g, q) = row_of_hash (row_at_count rows c.count) c.head_hash f in
                let found =
                  prefix_at hashing.genesis_hash rows n r e (ap (row_at_count rows) (sym k) ∙ g)
                    q in
                subst (λ i. Prefix hashing.genesis_hash rows i c.head_hash) (sym k) found
          ]
        ]
    where
      whole : (a b d : Bool) → b ≡ true → (a || (b && not d)) ≡ false → d ≡ true
      whole a b d l h = ground arith

      shorter : (a b : Bool) → a ≡ false → (not a && not b) ≡ false → b ≡ true
      shorter a b l h = ground arith

  -- The entries that a checkpoint was taken of are still there, unchanged and in their order, in any
  -- table that verifies against the checkpoint: no one of them was changed, removed or moved since.
  -- The checkpoint counts at least one row, and no two rows of the tables collide under the digest.
  pub verified_chain_keeps_anchored :
      (rows₀ rows : List AuditRow) (c : Checkpoint) (n : ℕ) (x : String)
      → NoCollision hashing rows₀ rows
      → c.count ≡ suc n
      → length rows₀ ≡ c.count
      → verify_rows hashing ring hashing.genesis_hash rows₀ ≡ ok c.head_hash
      → verify_audit_chain hashing ring (some c) rows ≡ ok x
      → (earlier later : List AuditRow) × (rows ≡ earlier ++ later)
        × (entries earlier ≡ entries rows₀)
  unfolding verify_audit_chain
  verified_chain_keeps_anchored rows₀ rows c n x apart k l e t =
      let (h, v, y) = >>=-eq-ok (verify_rows hashing ring hashing.genesis_hash rows) _ t in
      let p = prefix_of_check rows c n k v y in
      let (_, same) =
        verify_rows-determines hashing ring hashing.genesis_hash hashing.genesis_hash rows₀
          p.earlier c.head_hash
          (λ r s a b m n.
            apart r s a b m (subst (λ z. Memᴰ s z) (sym p.split) (mem_append_left p.later n)))
          (l ∙ sym p.counted) e p.intact in
      (p.earlier, p.later, p.split, sym same)
