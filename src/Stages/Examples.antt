-- ===== src/Stages/Examples.antt =====
-- The stages of a second subject, beside those of a first.
use Prim.Native.String as S
use text.Mathlib.TextLemmas.{length-cons}
use norinth.Prelude.{
  zero, suc, sym, ◌+◌, ◌∙◌, ◌≢◌, some, String, false, [], ◌∷◌, ◌≡◌, refl, Memᴰ, not_mem_nil, ℕ, ap,
  text_key, number_key, arith,
}
use norinth.Stages.{sequence, Stage, StageSpec, Subject, materialize_stages}
use norinth.Stages.Transitions.Places.{IsInOrder}
use norinth.Stages.Transitions.Examples.{first}
use norinth.Stages.Materialized.{materialize_stages_once}
use norinth.Stages.Checklist.{IsStageOf, IsMaterialized, materialize_stages-IsMaterialized}

abbrev task : Subject
task = record {
  subject_type = "review_task";
  subject_id = "t1";
  review_round = 0;
  tenant_id = some "acme";
  project = "claims";
  environment = "prod";
  application_name = "triage";
  mode = sequence;
  policy_tenant = "acme";
  policy_version = 2;
}

abbrev task_key : String → String → ℕ → ℕ → String
task_key kind id round index = id

abbrev owner : StageSpec
owner = record { role = "risk_owner" }

one_row : IsInOrder (first ∷ [])
one_row a b (Memᴰ.head e) (Memᴰ.head f) same md lt np = absurd (
    let i = ap (λ (x : Stage). x.stage_index) e in
    let j = ap (λ (x : Stage). x.stage_index) f in omega (arith, i, j, lt))
one_row a b (Memᴰ.head e) (Memᴰ.tail n) same md lt np = absurd (not_mem_nil n)
one_row a b (Memᴰ.tail m) n same md lt np = absurd (not_mem_nil m)

-- Keys that tell the places of one subject apart.
tally : ℕ → String
tally zero = "key"
tally (suc n) = S.◌∷◌ "x" (tally n)

count-tally : (n : ℕ) → S.count (tally n) ≡ 3 + n
unfolding tally
count-tally zero = refl
count-tally (suc n) = let ih = count-tally n in length-cons "x" (tally n) ∙ (omega (arith, ih))

tally_inj : (i j : ℕ) → tally i ≡ tally j → i ≡ j
tally_inj i j h = let e = ap S.count h in omega (arith, e, count-tally i, count-tally j)

not_first : (i : ℕ) → first.stage_id ≢ tally i
not_first i h = let e = ap S.count h in omega (arith, e, count-tally i)

apart : (a : Stage) (i : ℕ) → Memᴰ a (first ∷ []) → a.stage_id ≡ tally i → IsStageOf task a
apart a i (Memᴰ.head e) h = absurd (not_first i (ap (λ (x : Stage). x.stage_id) (sym e) ∙ h))
apart a i (Memᴰ.tail n) h = absurd (not_mem_nil n)

materialize_stages-IsMaterialized_example :
    IsMaterialized task
      (owner ∷ owner ∷ [])
      (first ∷ [])
      (materialize_stages (λ kind id round. tally) task (owner ∷ owner ∷ []) (first ∷ []))
    × IsInOrder
        (materialize_stages (λ kind id round. tally) task (owner ∷ owner ∷ []) (first ∷ [])).0
materialize_stages-IsMaterialized_example =
    materialize_stages-IsMaterialized (λ kind id round. tally) task (owner ∷ owner ∷ [])
      (first ∷ []) tally_inj apart one_row

materialize_stages_once_example :
    (materialize_stages task_key task []
        (materialize_stages task_key task (owner ∷ []) (first ∷ [])).0
      ≡ ((materialize_stages task_key task (owner ∷ []) (first ∷ [])).0, false))
    × Memᴰ first (materialize_stages task_key task (owner ∷ []) (first ∷ [])).0
materialize_stages_once_example =
    materialize_stages_once task_key task owner [] [] (first ∷ []) first (Memᴰ.head refl) refl
