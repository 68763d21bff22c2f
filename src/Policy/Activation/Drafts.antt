-- ===== src/Policy/Activation/Drafts.antt =====
-- create_policy_draft numbers its versions.
use norinth.Prelude.{
  String, Bool, true, false, List, [], ◌∷◌, ◌++◌, ◌==◌, ◌&&◌, ◌≡◌, inl, inr, sym, ap, subst, ◌∙◌, ℕ,
  ◌+◌, ◌≤◌, text_key, if◌then◌else◌, ltb, Memᴰ, arith, eq_iff, Bool-cases, two_branches,
  not_mem_nil, mem_append,
}
use norinth.Prelude.Result.{ok, err, ok_inj, ◌>>◌, >>=-eq-ok}
use norinth.Json.{Json}
use norinth.Policy.{PolicyRow}
use norinth.Policy.Validation.{validate_policy_body}
use norinth.Policy.Activation.{
  PolicyStore, PolicyError, latest_version, draft_row, create_policy_draft, insert_draft,
  refuse_errors,
}
use norinth.Policy.Activation.Versions.{IsVersioned}

latest_version-le :
    (tenant : String) (rows : List PolicyRow) {r : PolicyRow}
    → Memᴰ r rows
    → r.tenant_id ≡ tenant
    → r.version ≤ latest_version tenant rows
latest_version-le tenant [] m t = absurd (not_mem_nil m)
latest_version-le tenant (x ∷ rows) {r} m t =
    let latest = latest_version tenant rows in
    elim m [
      | Memᴰ.head e ↦
          let h : (x.tenant_id == tenant) ≡ true =
            (eq_iff x.tenant_id tenant).1 (sym (ap (λ (y : PolicyRow). y.tenant_id) e) ∙ t) in
          subst (λ n. n ≤ latest_version tenant (x ∷ rows))
            (sym (ap (λ (y : PolicyRow). y.version) e)) (rw h (own latest x.version))
      | Memᴰ.tail n ↦
          let ih = latest_version-le tenant rows n t in
          other (x.tenant_id == tenant) latest x.version r.version ih
    ]
  where
    own : (latest v : ℕ) → v ≤ (if ltb latest v then v else latest)
    own latest v = elim (Bool-cases (ltb latest v)) [
      | inl e ↦ rw e (omega arith)
      | inr e ↦ rw e (at_least latest v e)
    ]
      where
        at_least : (a b : ℕ) → ltb a b ≡ false → b ≤ a
        at_least a b h = ground arith

    other : (b : Bool) (latest v n : ℕ) → n ≤ latest → n ≤ (if b && ltb latest v then v else latest)
    other false latest v n h = h
    other true latest v n h = elim (Bool-cases (ltb latest v)) [
      | inl e ↦ rw e (less latest v n h e)
      | inr e ↦ rw e h
    ]
      where
        less : (a b n : ℕ) → n ≤ a → ltb a b ≡ true → n ≤ b
        less a b n h e = ground arith

draft_of :
    (store : PolicyStore) (tenant : String) (body : Json) (actor_ref : String) (row : PolicyRow)
    → create_policy_draft store tenant body actor_ref ≡ ok row
    → row ≡ draft_row tenant (latest_version tenant store.policies + 1) body actor_ref
unfolding create_policy_draft
draft_of store tenant body actor_ref row h =
    let draft = draft_row tenant (latest_version tenant store.policies + 1) body actor_ref in
    elim (two_branches (tenant == "") (err PolicyError.tenant_required)
      (refuse_errors (validate_policy_body store.grants body) >> ok draft) (ok row) h) [
        | inl (_, e) ↦ absurd (cc e)
        | inr (_, e) ↦
            let (_, _, r) =
              >>=-eq-ok (refuse_errors (validate_policy_body store.grants body)) (λ _. ok draft)
                e in
            sym (ok_inj r)
      ]

-- A row that create_policy_draft inserts has a number that no version of the tenant has, so that the
-- versions stay numbered without repetition, with at most one of them active.
pub create_policy_draft-IsVersioned :
    (store : PolicyStore) (tenant : String) (body : Json) (actor_ref : String) (row : PolicyRow)
    → IsVersioned store.policies
    → create_policy_draft store tenant body actor_ref ≡ ok row
    → IsVersioned (insert_draft store row).policies
create_policy_draft-IsVersioned store tenant body actor_ref row v h =
    let e = draft_of store tenant body actor_ref row h in
    record {
      keyed = λ a b m n t w. elim (mem_append store.policies (row ∷ []) m) [
        | inl k ↦ elim (mem_append store.policies (row ∷ []) n) [
          | inl l ↦ v.keyed a b k l t w
          | inr l ↦ absurd (
              new a e k (t ∙ ap (λ (x : PolicyRow). x.tenant_id) (the_row b l))
                (w ∙ ap (λ (x : PolicyRow). x.version) (the_row b l)))
        ]
        | inr k ↦ elim (mem_append store.policies (row ∷ []) n) [
          | inl l ↦ absurd (
              new b e l (sym t ∙ ap (λ (x : PolicyRow). x.tenant_id) (the_row a k))
                (sym w ∙ ap (λ (x : PolicyRow). x.version) (the_row a k)))
          | inr l ↦ the_row a k ∙ sym (the_row b l)
        ]
      ];
      one_active = λ a b m n t x y. v.one_active a b (stored a e m x) (stored b e n y) t x y;
    }
  where
    the_row : (a : PolicyRow) → Memᴰ a (row ∷ []) → a ≡ row
    the_row a (Memᴰ.head q) = q
    the_row a (Memᴰ.tail n) = absurd (not_mem_nil n)

    new :
        (a : PolicyRow)
        → row ≡ draft_row tenant (latest_version tenant store.policies + 1) body actor_ref
        → Memᴰ a store.policies
        → a.tenant_id ≡ row.tenant_id
        → a.version ≡ row.version
        → ⊥
    new a e m t w =
        let le =
          latest_version-le tenant store.policies m (t ∙ ap (λ (x : PolicyRow). x.tenant_id) e) in
        let q = w ∙ ap (λ (x : PolicyRow). x.version) e in omega (arith, le, q)

    stored :
        (a : PolicyRow)
        → row ≡ draft_row tenant (latest_version tenant store.policies + 1) body actor_ref
        → Memᴰ a (store.policies ++ row ∷ [])
        → a.status ≡ "active"
        → Memᴰ a store.policies
    stored a e m s = elim (mem_append store.policies (row ∷ []) m) [
      | inl k ↦ k
      | inr k ↦ absurd (
          let t : ◌≡◌ {A = Bool} false true =
            (eq_iff "draft" "active").1
              (sym (ap (λ (x : PolicyRow). x.status) (the_row a k ∙ e)) ∙ s) in
          cc t)
    ]
