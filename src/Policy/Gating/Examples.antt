-- ===== src/Policy/Gating/Examples.antt =====
-- A release whose evidence is enough for the stricter document.
use norinth.Json.{float_units}
use norinth.Prelude.{◌*◌, List, [], ◌∷◌, Option, none, some, ◌≡◌, refl, ℕ}
use norinth.Prelude.Result.{ok}
use norinth.Gates.{
  Version, GateDb, check_evidence, live_gate_evidence, gate_evidence_counts, find_prompt_version,
  count_passing_eval_evidence,
}
use norinth.Gates.Examples.{rules, pending, waiting}
use norinth.Policy.{default_policy_body, read_document}
use norinth.Policy.Resolve.{gate_entry, evidence_settings}
use norinth.Policy.Examples.{stricter_body, default_row, no_loosening}
use norinth.Policy.Gating.{under, check_evidence-not_loosened}

-- One control without traffic, and one that nine traces of ten cover.
abbrev covered : ℕ → GateDb → Version → List (Option ℕ)
covered window db v = none ∷ some (90 * float_units) ∷ []

same_window :
    (evidence_settings
      (read_document stricter_body)
      (read_document default_policy_body)).coverage_window_days
    ≡ (evidence_settings
        (read_document default_policy_body)
        (read_document default_policy_body)).coverage_window_days
unfolding evidence_settings read_document
same_window = refl

passes_stricter :
    check_evidence (
      live_gate_evidence
        (under rules covered
          (read_document stricter_body)
          (read_document default_policy_body)
          default_row)
        pending
        waiting)
    ≡ ok tt
unfolding check_evidence live_gate_evidence gate_evidence_counts find_prompt_version
    count_passing_eval_evidence gate_entry read_document
passes_stricter = refl

check_evidence-not_loosened_example :
    check_evidence (
      live_gate_evidence
        (under rules covered
          (read_document default_policy_body)
          (read_document default_policy_body)
          default_row)
        pending
        waiting)
    ≡ ok tt
check_evidence-not_loosened_example =
    check_evidence-not_loosened rules covered (read_document default_policy_body)
      (read_document stricter_body) (read_document default_policy_body) default_row pending waiting
      same_window no_loosening passes_stricter
