-- ===== src/Audit/Chain.antt =====
-- The chain of hashes: what an intact chain determines, and that record_audit extends it.
use norinth.Prelude.{
  Option, none, some, String, Bool, true, false, not, ◌||◌, List, [], ◌∷◌, ◌++◌, ◌==◌, ◌≡◌, ◌≢◌,
  inl, inr, refl, sym, ap, ap₂, subst, ◌∙◌, text_key, option_key, number_key, length, map, Memᴰ,
  lookup, arith, eq_iff, same_option_iff, Bool-cases, two_branches,
}
use norinth.Prelude.Result.{ok, err, ◌>>=◌, >>=-eq-ok, ok_inj}
use norinth.Audit.{
  AuditRow, AuditEntry, Hashing, version_of, compute_row_hash, check_hash, check_signature,
  check_hmac, check_row, verify_rows, last_row, tail_hash, hash_or_genesis, set_or_genesis,
  is_empty_ring, key_id_of, breach, hash_chain,
}

abbrev pub entries : List AuditRow → List AuditEntry
entries rows = map (λ (r : AuditRow). r.entry) rows

-- No digest of a row of one table is that of a row of the other, unless the two rows name one
-- previous hash and hold one entry.
abbrev pub NoCollision : Hashing → List AuditRow → List AuditRow → Type 0
NoCollision hashing xs ys =
    (r s : AuditRow) (p q : String)
    → Memᴰ r xs
    → Memᴰ s ys
    → r.prev_hash ≡ some p
    → s.prev_hash ≡ some q
    → hashing.digest p r.entry ≡ hashing.digest q s.entry
    → (p ≡ q) × (r.entry ≡ s.entry)

module _ (hashing : Hashing) (ring : List (String × String)) where
  -- What a row that passed says.
  pub record IsLinked (prev : String) (r : AuditRow) (h : String) : Type 0 where
    pub named : r.prev_hash ≡ some prev
    pub hashed : r.row_hash ≡ some h
    pub digested : h ≡ hashing.digest prev r.entry

  signed-eq : (r : AuditRow) (h x : String) → check_signature hashing ring r h ≡ ok x → x ≡ h
  signed-eq r h x e = elim (two_branches (is_empty_ring ring) _ _ (ok x) e) [
    | inl (_, t) ↦ sym (ok_inj t)
    | inr (_, t) ↦ go r.row_hmac (lookup (key_id_of r) ring) t
  ]
    where
      go : (m k : Option String) → check_hmac hashing r h m k ≡ ok x → x ≡ h
      go none k t = absurd (cc t)
      go (some m) none t = absurd (cc t)
      go (some m) (some k) t = elim (two_branches (m == hashing.keyed_digest k h) _ _ (ok x) t) [
        | inl (_, y) ↦ sym (ok_inj y)
        | inr (_, y) ↦ absurd (cc y)
      ]

  or_false : (a b : Bool) → (not a || not b) ≡ false → (a ≡ true) × (b ≡ true)
  or_false a b h = ground arith

  pub check_row-IsLinked :
      (prev : String) (r : AuditRow) (h : String)
      → check_row hashing ring prev r ≡ ok h
      → IsLinked prev r h
  unfolding check_row compute_row_hash
  check_row-IsLinked prev r h e = elim (Bool-cases (version_of r == 1)) [
    | inr v ↦ absurd (let t = rw v at e in cc t)
    | inl v ↦ known (rw v at e)
  ]
    where
      known :
          check_hash hashing ring prev r (some (hashing.digest prev r.entry)) ≡ ok h
          → IsLinked prev r h
      known t =
          elim (two_branches
            (not (r.prev_hash == some prev)
              || not (r.row_hash == some (hashing.digest prev r.entry)))
            (err (breach r hash_chain))
            (check_signature hashing ring r (hashing.digest prev r.entry)) (ok h) t) [
              | inl (_, y) ↦ absurd (cc y)
              | inr (n, y) ↦
                  let (p, q) =
                    or_false (r.prev_hash == some prev)
                      (r.row_hash == some (hashing.digest prev r.entry)) n in
                  let x = signed-eq r (hashing.digest prev r.entry) h y in
                  record {
                    named = (same_option_iff r.prev_hash (some prev)).0 p;
                    hashed =
                        (same_option_iff r.row_hash (some (hashing.digest prev r.entry))).0 q
                        ∙ ap some (sym x);
                    digested = x;
                  }
            ]

  -- Two intact chains of one length that end in one hash record the same entries in the same order:
  -- no entry of an intact chain can be changed or moved and its last hash be kept, as long as no
  -- two rows of the tables collide under the digest.
  pub verify_rows-determines :
      (p q : String) (xs ys : List AuditRow) (h : String)
      → NoCollision hashing xs ys
      → length xs ≡ length ys
      → verify_rows hashing ring p xs ≡ ok h
      → verify_rows hashing ring q ys ≡ ok h
      → (p ≡ q) × (entries xs ≡ entries ys)
  unfolding verify_rows
  verify_rows-determines p q [] [] h inj l e f = (ok_inj (e ∙ sym f), refl)
  verify_rows-determines p q [] (y ∷ ys) h inj l e f = absurd (omega (arith, l))
  verify_rows-determines p q (x ∷ xs) [] h inj l e f = absurd (omega (arith, l))
  verify_rows-determines p q (x ∷ xs) (y ∷ ys) h inj l e f =
      let (a, e₁, e₂) = >>=-eq-ok (check_row hashing ring p x) _ e in
      let (b, f₁, f₂) = >>=-eq-ok (check_row hashing ring q y) _ f in
      let (same, rest) =
        verify_rows-determines a b xs ys h (λ r s p q m n. inj r s p q (Memᴰ.tail m) (Memᴰ.tail n))
          (omega (arith, l)) e₂ f₂ in
      let k = check_row-IsLinked p x a e₁ in
      let m = check_row-IsLinked q y b f₁ in
      let (pq, xy) =
        inj x y p q (Memᴰ.head refl) (Memᴰ.head refl) k.named m.named
          (sym k.digested ∙ same ∙ m.digested) in
      (pq, ap₂ ◌∷◌ xy rest)

  pub verify-append :
      (p : String) (xs ys : List AuditRow) {h : String}
      → verify_rows hashing ring p xs ≡ ok h
      → verify_rows hashing ring p (xs ++ ys) ≡ verify_rows hashing ring h ys
  unfolding verify_rows
  verify-append p [] ys e = ap (λ x. verify_rows hashing ring x ys) (ok_inj e)
  verify-append p (x ∷ xs) ys {h} e =
      let (a, e₁, e₂) = >>=-eq-ok (check_row hashing ring p x) _ e in
      ap (λ r. r >>= λ b. verify_rows hashing ring b (xs ++ ys)) e₁ ∙ verify-append a xs ys e₂

  last_link :
      (p : String) (x : AuditRow) (xs : List AuditRow) {h : String}
      → verify_rows hashing ring p (x ∷ xs) ≡ ok h
      → (r : AuditRow) × (q : String) × (last_row (x ∷ xs) ≡ some r) × IsLinked q r h
  unfolding verify_rows
  last_link p x [] {h} e =
      let (a, e₁, e₂) = >>=-eq-ok (check_row hashing ring p x) _ e in
      (x, p, refl, subst (IsLinked p x) (ok_inj e₂) (check_row-IsLinked p x a e₁))
  last_link p x (y ∷ xs) {h} e =
      let (a, e₁, e₂) = >>=-eq-ok (check_row hashing ring p x) _ e in last_link a y xs e₂

  -- The last hash of an intact chain is the one that the next row is chained to.
  pub verify-tail_hash :
      (rows : List AuditRow) {h : String}
      → ((p : String) (e : AuditEntry) → hashing.digest p e ≢ "")
      → verify_rows hashing ring hashing.genesis_hash rows ≡ ok h
      → tail_hash hashing rows ≡ h
  unfolding verify_rows
  verify-tail_hash [] nonempty e = ok_inj e
  verify-tail_hash (x ∷ xs) {h} nonempty e =
      let (r, q, l, f) = last_link hashing.genesis_hash x xs e in
      let n : (h == "") ≡ false = elim (Bool-cases (h == "")) [
        | inl t ↦ absurd (nonempty q r.entry (sym f.digested ∙ (eq_iff h "").0 t))
        | inr t ↦ t
      ] in
      ap (hash_or_genesis hashing) l ∙ ap (set_or_genesis hashing) f.hashed ∙ (rw n)
