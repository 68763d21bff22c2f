-- ===== src/Policy/Activation/InForce.antt =====
-- The version that activate_policy puts in force is the one that the resolvers then read.
use norinth.Prelude.{
  Option, none, some, String, false, List, ◌==◌, ◌≡◌, ◌≢◌, inl, inr, refl, sym, subst, ◌∙◌, ℕ,
  text_key, find, Memᴰ, Bool-cases, two_branches, mem_of_find, update_of_mem, changed_of_mem,
}
use norinth.Prelude.Result.{ok, err}
use norinth.Policy.{PolicyRow, is_active_of, active_policy, row_or, platform_default}
use norinth.Policy.Activation.{
  PolicyStore, PolicyError, Activation, activate_row, activate_policy, is_version, with_status,
  supersede,
}
use norinth.Policy.Activation.Guarded.{activated-IsChecked}
use norinth.Policy.Activation.Versions.{
  IsVersioned, not_found, is_active_of_iff, active_of, version_at, is_version_iff,
  activate_policy-IsVersioned,
}

-- A row of the table is there after the previous version is superseded, but for its status.
superseded_row :
    (rows : List PolicyRow) (tenant : String) (o : Option PolicyRow) (r : PolicyRow)
    → Memᴰ r rows
    → (s : String) × Memᴰ (with_status s r) (supersede o tenant rows)
superseded_row rows tenant none r m = (r.status, m)
superseded_row rows tenant (some p) r m = elim (Bool-cases (is_version tenant p.version r)) [
  | inl e ↦
      ("superseded", changed_of_mem (is_version tenant p.version) (with_status "superseded") m e)
  | inr e ↦ (r.status, update_of_mem (is_version tenant p.version) (with_status "superseded") m e)
]

tenant_given :
    (store : PolicyStore) (tenant : String) (version : ℕ) (actor_ref : String) (a : Activation)
    → activate_policy store tenant version actor_ref ≡ ok a
    → (tenant == "") ≡ false
unfolding activate_policy
tenant_given store tenant version actor_ref a h =
    elim (two_branches (tenant == "") (err PolicyError.tenant_required)
      (activate_row store tenant actor_ref (find (is_version tenant version) store.policies)) (ok a)
      h) [ inl (_, e) ↦ absurd (cc e) | inr (e, _) ↦ e ]

-- The only active row of a tenant is its active policy.
only_active :
    (rows : List PolicyRow) (tenant : String) (r : PolicyRow)
    → IsVersioned rows
    → (tenant == "") ≡ false
    → Memᴰ r rows
    → r.tenant_id ≡ tenant
    → r.status ≡ "active"
    → active_policy rows (some tenant) ≡ r
unfolding active_policy
only_active rows tenant r v given m t s = rw given (found (find (is_active_of tenant) rows) refl)
  where
    found :
        (o : Option PolicyRow)
        → find (is_active_of tenant) rows ≡ o
        → row_or o (platform_default rows) ≡ r
    found none e = absurd (
        let x = not_found (is_active_of tenant) rows e m in
        let y = active_of tenant r t s in cc (x, y))
    found (some x) e =
        let (n, p) = mem_of_find (is_active_of tenant) rows e in
        let (u, w) = is_active_of_iff tenant x p in v.one_active x r n m (u ∙ sym t) w s

-- The tenant's policy in force after activate_policy has put a version in force is that version.
pub activate_policy-in_force :
    (store : PolicyStore) (tenant : String) (version : ℕ) (actor_ref : String) (target : PolicyRow)
    (a : Activation)
    → IsVersioned store.policies
    → find (is_version tenant version) store.policies ≡ some target
    → target.status ≢ "active"
    → activate_policy store tenant version actor_ref ≡ ok a
    → active_policy a.policies (some tenant) ≡ with_status "active" target
activate_policy-in_force store tenant version actor_ref target a v found draft h =
    let (m, p) = mem_of_find (is_version tenant version) store.policies found in
    let (t, w) = is_version_iff tenant version target p in
    let c = activated-IsChecked store tenant version actor_ref target a found draft h in
    let previous = find (is_active_of tenant) store.policies in
    let (s, n) = superseded_row store.policies tenant previous target m in
    let there =
      changed_of_mem (is_version tenant target.version) (with_status "active") n
        (version_at tenant target.version (with_status s target) t refl) in
    only_active a.policies tenant (with_status "active" target)
      (activate_policy-IsVersioned store tenant version actor_ref a v h)
      (tenant_given store tenant version actor_ref a h)
      (subst (λ (x : Activation). Memᴰ (with_status "active" target) x.policies) c.result there) t
      refl
