-- ===== src/Throttle/Examples.antt =====
-- Failures of one account that may fail twice in a window of ten.
use norinth.Prelude.{
  some, String, true, false, List, [], ◌∷◌, ◌≡◌, ◌≢◌, refl, text_key, eq_iff, find, arith,
}
use norinth.Throttle.{Throttle, Settings, of_throttle, is_locked, register_failure, clear_attempts}
use norinth.Throttle.Lockout.{register_failure-keeps_lock, throttle_keeps_others}
use norinth.Throttle.Window.{after_failures, failures_lock}

abbrev settings : Settings
settings = record {
  account = record { threshold = 2; window = 10; lockout = 15 };
  source_ip = record { threshold = 50; window = 10; lockout = 15 };
  is_ip = λ subject. false;
}

abbrev locked_rows : List Throttle
locked_rows =
    record {
      subject = "email:ann";
      failed_count = 2;
      first_failed_at = some 3;
      locked_until = some 20;
    }
    ∷ []

locked_now : is_locked locked_rows "email:ann" 12 ≡ true
unfolding is_locked
locked_now = refl

register_failure-keeps_lock_example :
    is_locked (register_failure settings locked_rows "email:ann" 11).0 "email:ann" 12 ≡ true
register_failure-keeps_lock_example =
    register_failure-keeps_lock settings locked_rows "email:ann" 11 12 (omega arith) (omega arith)
      locked_now

ann_bob : ◌≢◌ {A = String} "email:bob" "email:ann"
ann_bob h = let t : false ≡ true = (eq_iff "email:bob" "email:ann").1 h in cc t

throttle_keeps_others_example :
    (is_locked (register_failure settings locked_rows "email:ann" 11).0 "email:bob" 12
      ≡ is_locked locked_rows "email:bob" 12)
    × (is_locked (clear_attempts locked_rows "email:ann") "email:bob" 12
        ≡ is_locked locked_rows "email:bob" 12)
throttle_keeps_others_example =
    throttle_keeps_others settings locked_rows "email:ann" "email:bob" 11 12 ann_bob

failures_lock_example :
    ((r : Throttle) × (find
          (of_throttle "email:ann")
          (after_failures settings "email:ann" (3 ∷ 5 ∷ 6 ∷ []) [])
        ≡ some r)
      × (r.failed_count ≡ 3))
    × (is_locked (after_failures settings "email:ann" (3 ∷ 5 ∷ 6 ∷ []) []) "email:ann" 20 ≡ true)
failures_lock_example =
    failures_lock settings "email:ann" [] 3 (5 ∷ 6 ∷ []) 20 (omega arith) refl refl
