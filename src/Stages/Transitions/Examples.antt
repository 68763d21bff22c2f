-- ===== src/Stages/Transitions/Examples.antt =====
-- The second stage of a vendor review, rejected after the first was approved.
use norinth.Prelude.{
  none, some, String, true, false, [], ◌∷◌, ◌≡◌, refl, sym, subst, Memᴰ, not_mem_nil, eq_iff,
  text_key, option_key, number_key, ◌<◌, arith,
}
use norinth.Prelude.Result.{ok}
use norinth.Stages.{
  open_stage, pending, approved, rejected, sequence, Stage, Vendor, Db, is_pending,
}
use norinth.Stages.Transitions.{apply_stage_decision, close_stage, roll_up_subject}
use norinth.Stages.Transitions.Places.{SameSubject, IsKeyed, IsInOrder}
use norinth.Stages.Transitions.Order.{apply_stage_decision-IsInOrder}
use norinth.Stages.Transitions.Decided.{apply_stage_decision-keeps_decided}

abbrev pub first : Stage
first = record {
  stage_id = "s1";
  tenant_id = some "acme";
  project = "claims";
  environment = "prod";
  application_name = "triage";
  subject_type = "vendor_review";
  subject_id = "v1";
  review_round = 1;
  policy_tenant = "acme";
  policy_version = 1;
  stage_index = 0;
  required_role = "risk_owner";
  mode = sequence;
  status = open_stage;
  decision_id = none;
  decided_by = none;
}

abbrev pub second : Stage
second = record first {
  stage_id = "s2";
  stage_index = 1;
  required_role = "control_owner";
  status = pending;
}

abbrev pub vendor : Vendor
vendor = record {
  vendor_id = "v1";
  review_round = 1;
  submitted_by = some "bob";
  created_by = some "bob";
  status = "under_review";
}

only_two : (x y : Stage) (P : Stage → Type 0) {s : Stage} → Memᴰ s (x ∷ y ∷ []) → P x → P y → P s
only_two x y P (Memᴰ.head e) p q = subst P (sym e) p
only_two x y P (Memᴰ.tail (Memᴰ.head e)) p q = subst P (sym e) q
only_two x y P (Memᴰ.tail (Memᴰ.tail n)) p q = absurd (not_mem_nil n)

pub two_rows :
    (x y : Stage) (P : Stage → Stage → Type 0) (a b : Stage)
    → Memᴰ a (x ∷ y ∷ [])
    → Memᴰ b (x ∷ y ∷ [])
    → P x x
    → P x y
    → P y x
    → P y y
    → P a b
two_rows x y P a b m n p q r s =
    only_two x y (λ z. P z b) m (only_two x y (P x) n p q) (only_two x y (P y) n r s)

pub keys_differ : ¬ (◌≡◌ {A = String} "s1" "s2")
keys_differ h = let t : false ≡ true = (eq_iff "s1" "s2").1 h in cc t

abbrev passed : Stage
passed = record first { status = approved; decision_id = some "d1"; decided_by = some "kim" }

abbrev opened : Stage
opened = record second { status = open_stage }

abbrev half_way : Db
half_way = record {
  stages = passed ∷ opened ∷ [];
  tasks = [];
  use_cases = [];
  vendors = vendor ∷ [];
  evidence = [];
  findings = [];
  changes = [];
  assessments = [];
  gates = [];
  incidents = [];
  decisions = [];
  notices = [];
}

abbrev turned_down : Db
turned_down = record half_way {
  stages =
      passed
      ∷ record opened { status = rejected; decision_id = some "d2"; decided_by = some "lee" }
      ∷ [];
  vendors = record vendor { status = "rejected" } ∷ [];
}

rejects : apply_stage_decision half_way opened "reject" "d2" "lee" ≡ ok turned_down
unfolding apply_stage_decision close_stage roll_up_subject
rejects = refl

half_way-IsKeyed : IsKeyed half_way.stages
half_way-IsKeyed = record {
  unique = λ a b m n.
      two_rows passed opened (λ a b. a.stage_id ≡ b.stage_id → a ≡ b) a b m n (λ h. refl)
        (λ h. absurd (keys_differ h)) (λ h. absurd (keys_differ (sym h))) (λ h. refl);
  places = λ a b m n.
      two_rows passed opened
        (λ a b. SameSubject a b → a.stage_index ≡ b.stage_index → a.stage_id ≡ b.stage_id) a b m n
        (λ s h. refl) (λ s h. absurd (omega (arith, h))) (λ s h. absurd (omega (arith, h)))
        (λ s h. refl);
}

half_way-IsInOrder : IsInOrder half_way.stages
half_way-IsInOrder a b m n =
    two_rows passed opened
      (λ a b.
        SameSubject a b
        → a.mode ≡ sequence
        → a.stage_index < b.stage_index
        → is_pending b.status ≡ false
        → a.status ≡ approved)
      a b m n (λ s k h. absurd (omega (arith, h))) (λ s k h p. refl)
      (λ s k h. absurd (omega (arith, h))) (λ s k h. absurd (omega (arith, h)))

apply_stage_decision-IsInOrder_example : IsKeyed turned_down.stages × IsInOrder turned_down.stages
apply_stage_decision-IsInOrder_example =
    apply_stage_decision-IsInOrder half_way turned_down opened "reject" "d2" "lee"
      (Memᴰ.tail (Memᴰ.head refl)) half_way-IsKeyed half_way-IsInOrder rejects

apply_stage_decision-keeps_decided_example : Memᴰ passed turned_down.stages
apply_stage_decision-keeps_decided_example =
    apply_stage_decision-keeps_decided half_way turned_down opened "reject" "d2" "lee" rejects
      passed (Memᴰ.head refl) refl
