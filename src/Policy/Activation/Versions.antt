-- ===== src/Policy/Activation/Versions.antt =====
-- The versions of a tenant under create_policy_draft and activate_policy: numbered without
-- repetition, and at most one of them active.
use norinth.Prelude.{
  Option, none, some, String, Bool, true, false, List, [], ◌∷◌, ◌==◌, ◌≡◌, ◌≢◌, ◌⊎◌, inl, inr, refl,
  sym, ap, subst, ◌∙◌, ℕ, text_key, number_key, if◌then◌else◌, find, Memᴰ, eq_iff, eqb_iff,
  Bool-cases, two_branches, &&-eq-true, not_mem_nil, update_where, mem_of_update, mem_of_map,
  mem_of_find,
}
use norinth.Prelude.Result.{ok, ok_inj}
use norinth.Policy.{PolicyRow, is_active_of}
use norinth.Policy.Activation.{
  PolicyStore, Activation, activate_policy, is_version, with_status, supersede,
}
use norinth.Policy.Activation.Guarded.{activated-IsChecked, activated_row}

pub record IsVersioned (rows : List PolicyRow) : Type 0 where
  pub keyed :
      (a b : PolicyRow)
      → Memᴰ a rows
      → Memᴰ b rows
      → a.tenant_id ≡ b.tenant_id
      → a.version ≡ b.version
      → a ≡ b
  pub one_active :
      (a b : PolicyRow)
      → Memᴰ a rows
      → Memᴰ b rows
      → a.tenant_id ≡ b.tenant_id
      → a.status ≡ "active"
      → b.status ≡ "active"
      → a ≡ b

pub not_found :
    {A : Type 0} (p : A → Bool) (xs : List A) {a : A} → find p xs ≡ none → Memᴰ a xs → p a ≡ false
not_found p [] h m = absurd (not_mem_nil m)
not_found p (x ∷ xs) {a} h m = elim (two_branches (p x) (some x) (find p xs) none h) [
  | inl (_, e) ↦ absurd (cc e)
  | inr (e, t) ↦ elim m [ Memᴰ.head q ↦ ap p q ∙ e | Memᴰ.tail n ↦ not_found p xs t n ]
]

pub is_active_of_iff :
    (tenant : String) (row : PolicyRow)
    → is_active_of tenant row ≡ true
    → (row.tenant_id ≡ tenant) × (row.status ≡ "active")
is_active_of_iff tenant row h =
    let (a, b) = &&-eq-true (row.tenant_id == tenant) _ h in
    ((eq_iff row.tenant_id tenant).0 a, (eq_iff row.status "active").0 b)

pub active_of :
    (tenant : String) (row : PolicyRow)
    → row.tenant_id ≡ tenant
    → row.status ≡ "active"
    → is_active_of tenant row ≡ true
active_of tenant row e f =
    let a = (eq_iff row.tenant_id tenant).1 e in
    let b = (eq_iff row.status "active").1 f in rw (a, b) refl

pub is_version_iff :
    (tenant : String) (version : ℕ) (row : PolicyRow)
    → is_version tenant version row ≡ true
    → (row.tenant_id ≡ tenant) × (row.version ≡ version)
is_version_iff tenant version row h =
    let (a, b) = &&-eq-true (row.tenant_id == tenant) _ h in
    ((eq_iff row.tenant_id tenant).0 a, (eqb_iff row.version version).0 b)

pub version_at :
    (tenant : String) (version : ℕ) (row : PolicyRow)
    → row.tenant_id ≡ tenant
    → row.version ≡ version
    → is_version tenant version row ≡ true
version_at tenant version row e f =
    let a = (eq_iff row.tenant_id tenant).1 e in
    let b = (eqb_iff row.version version).1 f in rw (a, b) refl

-- A change of status keeps the key.
module _ (test : PolicyRow → Bool) (status : String) where
  abbrev restatus : PolicyRow → PolicyRow
  restatus r = if test r then with_status status r else r

  restatus-keeps :
      (r : PolicyRow) → ((restatus r).tenant_id ≡ r.tenant_id) × ((restatus r).version ≡ r.version)
  restatus-keeps r = elim (Bool-cases (test r)) [
    | inl e ↦ rw e (refl, refl)
    | inr e ↦ rw e (refl, refl)
  ]

  update_keyed :
      (rows : List PolicyRow)
      → IsVersioned rows
      → (a b : PolicyRow) → Memᴰ a (update_where test (with_status status) rows)
      → Memᴰ b (update_where test (with_status status) rows)
      → a.tenant_id ≡ b.tenant_id
      → a.version ≡ b.version
      → a ≡ b
  update_keyed rows v a b m n t w =
      let (r, rm, e) = mem_of_map restatus rows m in
      let (s, sm, f) = mem_of_map restatus rows n in
      let t' =
        sym (restatus-keeps r).0
        ∙ sym (ap (λ (x : PolicyRow). x.tenant_id) e)
        ∙ t
        ∙ ap (λ (x : PolicyRow). x.tenant_id) f
        ∙ (restatus-keeps s).0 in
      let w' =
        sym (restatus-keeps r).1
        ∙ sym (ap (λ (x : PolicyRow). x.version) e)
        ∙ w
        ∙ ap (λ (x : PolicyRow). x.version) f
        ∙ (restatus-keeps s).1 in
      e ∙ ap restatus (v.keyed r s rm sm t' w') ∙ sym f

superseded_not_active :
    (row r : PolicyRow) → row ≡ with_status "superseded" r → row.status ≡ "active" → ⊥
superseded_not_active row r e h =
    let t : ◌≡◌ {A = Bool} false true =
      (eq_iff "superseded" "active").1 (sym (ap (λ (x : PolicyRow). x.status) e) ∙ h) in
    cc t

-- After the previous version is superseded, the tenant has no active version, and every active row is
-- one from before.
supersede-active :
    (rows : List PolicyRow) (tenant : String) (o : Option PolicyRow) (a : PolicyRow)
    → IsVersioned rows
    → find (is_active_of tenant) rows ≡ o
    → Memᴰ a (supersede o tenant rows)
    → a.status ≡ "active"
    → Memᴰ a rows × (a.tenant_id ≢ tenant)
supersede-active rows tenant none a v h m active = (
  m,
  λ t.
      let u = active_of tenant a t active in
      let w = not_found (is_active_of tenant) rows h m in cc (u, w),
)
supersede-active rows tenant (some p) a v h m active =
    let (r, n, which) =
      mem_of_update (is_version tenant p.version) (with_status "superseded") rows m in
    elim which [
      | inl (_, e) ↦ absurd (superseded_not_active a r e active)
      | inr (e, q) ↦
          let am = subst (λ x. Memᴰ x rows) (sym q) n in
          (
            am,
            λ t.
                let (pm, pa) = mem_of_find (is_active_of tenant) rows h in
                let (pt, ps) = is_active_of_iff tenant p pa in
                let same : a ≡ p = v.one_active a p am pm (t ∙ sym pt) active ps in
                let w =
                  version_at tenant p.version r (ap (λ (x : PolicyRow). x.tenant_id) (sym q) ∙ t)
                    (ap (λ (x : PolicyRow). x.version) (sym q ∙ same)) in
                cc (w, e),
          )
    ]

supersede-IsVersioned :
    (rows : List PolicyRow) (tenant : String) (o : Option PolicyRow)
    → IsVersioned rows
    → find (is_active_of tenant) rows ≡ o
    → IsVersioned (supersede o tenant rows)
supersede-IsVersioned rows tenant none v h = v
supersede-IsVersioned rows tenant (some p) v h = record {
  keyed = update_keyed (is_version tenant p.version) "superseded" rows v;
  one_active = λ a b m n t x y.
      v.one_active a b (supersede-active rows tenant (some p) a v h m x).0
        (supersede-active rows tenant (some p) b v h n y).0 t x y;
}

-- A row after a version was put in force: that version, or a row from before.
forced :
    (rows : List PolicyRow) (tenant : String) (version : ℕ) (a : PolicyRow)
    → Memᴰ a (update_where (is_version tenant version) (with_status "active") rows)
    → ((a.tenant_id ≡ tenant) × (a.version ≡ version)) ⊎ Memᴰ a rows
forced rows tenant version a m =
    let (r, n, which) = mem_of_update (is_version tenant version) (with_status "active") rows m in
    elim which [
      | inl (c, e) ↦
          let (t, w) = is_version_iff tenant version r c in
          inl (ap (λ (x : PolicyRow). x.tenant_id) e ∙ t, ap (λ (x : PolicyRow). x.version) e ∙ w)
      | inr (_, e) ↦ inr (subst (λ x. Memᴰ x rows) (sym e) n)
    ]

-- One row of a tenant without active rows is put in force.
force-IsVersioned :
    (rows : List PolicyRow) (tenant : String) (version : ℕ)
    → IsVersioned rows
    → ((a : PolicyRow) → Memᴰ a rows → a.status ≡ "active" → a.tenant_id ≢ tenant)
    → IsVersioned (update_where (is_version tenant version) (with_status "active") rows)
force-IsVersioned rows tenant version v idle = record {
  keyed = update_keyed (is_version tenant version) "active" rows v;
  one_active = λ a b m n t x y. elim (forced rows tenant version a m) [
    | inl (ta, wa) ↦ elim (forced rows tenant version b n) [
      | inl (_, wb) ↦
          update_keyed (is_version tenant version) "active" rows v a b m n t (wa ∙ sym wb)
      | inr k ↦ absurd (idle b k y (sym t ∙ ta))
    ]
    | inr j ↦ elim (forced rows tenant version b n) [
      | inl (tb, _) ↦ absurd (idle a j x (t ∙ tb))
      | inr k ↦ v.one_active a b j k t x y
    ]
  ];
}

-- activate_policy keeps the numbering of the versions, and at most one of them active.
pub activate_policy-IsVersioned :
    (store : PolicyStore) (tenant : String) (version : ℕ) (actor_ref : String) (a : Activation)
    → IsVersioned store.policies
    → activate_policy store tenant version actor_ref ≡ ok a
    → IsVersioned a.policies
activate_policy-IsVersioned store tenant version actor_ref a v h =
    row (find (is_version tenant version) store.policies) refl
  where
    rows : List PolicyRow
    rows = store.policies

    previous : Option PolicyRow
    previous = find (is_active_of tenant) rows

    row :
        (o : Option PolicyRow)
        → find (is_version tenant version) store.policies ≡ o
        → IsVersioned a.policies
    row none e = absurd (let t = activated_row store tenant version actor_ref none a e h in cc t)
    row (some target) e = elim (Bool-cases (target.status == "active")) [
      | inl s ↦
          let t = activated_row store tenant version actor_ref (some target) a e h in
          let u : _ ≡ a = ok_inj (rw s at t) in
          subst (λ (x : Activation). IsVersioned x.policies) u v
      | inr s ↦
          let c =
            activated-IsChecked store tenant version actor_ref target a e
              (λ t. let u = (eq_iff target.status "active").1 t in cc (u, s)) h in
          subst (λ (x : Activation). IsVersioned x.policies) c.result
            (force-IsVersioned (supersede previous tenant rows) tenant target.version
              (supersede-IsVersioned rows tenant previous v refl)
              (λ b m x. (supersede-active rows tenant previous b v refl m x).1))
    ]
