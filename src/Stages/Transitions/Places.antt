-- ===== src/Stages/Transitions/Places.antt =====
-- The places of the rows of approval_stages: keys, subjects and order, and the rewrites that keep them.
use norinth.Prelude.{
  String, true, false, ◌&&◌, List, ◌==◌, ◌≡◌, ◌⊎◌, inl, inr, refl, sym, ap, subst, subst₂, ◌∙◌, ◌<◌,
  text_key, number_key, if◌then◌else◌, any, Memᴰ, eq_iff, eqb_iff, Bool-cases, and_iff, &&-eq-true,
  mem_of_any, map, mem_of_map,
}
use norinth.Stages.{
  StageStatus, open_stage, pending, approved, rejected, sequence, Stage, is_open, is_pending,
  of_subject,
}
use norinth.Stages.Transitions.{is_open_row, stamp}

pub record SameSubject (a b : Stage) : Type 0 where
  pub kind : a.subject_type ≡ b.subject_type
  pub subject : a.subject_id ≡ b.subject_id
  pub round : a.review_round ≡ b.review_round

-- The primary key, and one key for each place of a subject.
pub record IsKeyed (rows : List Stage) : Type 0 where
  pub unique : (a b : Stage) → Memᴰ a rows → Memᴰ b rows → a.stage_id ≡ b.stage_id → a ≡ b
  pub places :
      (a b : Stage)
      → Memᴰ a rows
      → Memᴰ b rows
      → SameSubject a b
      → a.stage_index ≡ b.stage_index
      → a.stage_id ≡ b.stage_id

-- In a sequence, a stage that is no longer pending has only approved stages before it.
abbrev pub IsInOrder : List Stage → Type 0
IsInOrder rows =
    (a b : Stage)
    → Memᴰ a rows
    → Memᴰ b rows
    → SameSubject a b
    → a.mode ≡ sequence
    → a.stage_index < b.stage_index
    → is_pending b.status ≡ false
    → a.status ≡ approved

-- A rewrite of the rows that leaves every row in its place.
pub record SamePlace (a b : Stage) : Type 0 where
  pub key : a.stage_id ≡ b.stage_id
  pub kind : a.subject_type ≡ b.subject_type
  pub subject : a.subject_id ≡ b.subject_id
  pub round : a.review_round ≡ b.review_round
  pub index : a.stage_index ≡ b.stage_index
  pub mode : a.mode ≡ b.mode

abbrev pub KeepsPlaces : (Stage → Stage) → Type 0
KeepsPlaces u = (r : Stage) → SamePlace (u r) r

pub same_place : (a : Stage) → SamePlace a a
same_place a = record {
  key = refl;
  kind = refl;
  subject = refl;
  round = refl;
  index = refl;
  mode = refl;
}

pub moved_place : {a b r : Stage} → a ≡ b → SamePlace b r → SamePlace a r
moved_place {r = r} e p = subst (λ x. SamePlace x r) (sym e) p

pub below_subject :
    {a b r s : Stage} → SamePlace a r → SamePlace b s → SameSubject a b → SameSubject r s
below_subject p q h = record {
  kind = sym p.kind ∙ h.kind ∙ q.kind;
  subject = sym p.subject ∙ h.subject ∙ q.subject;
  round = sym p.round ∙ h.round ∙ q.round;
}

pub map-IsKeyed :
    (u : Stage → Stage) (rows : List Stage) → KeepsPlaces u → IsKeyed rows → IsKeyed (map u rows)
map-IsKeyed u rows keeps keyed = record {
  unique = λ a b m n e.
      let (r, mr, er) = mem_of_map u rows m in
      let (s, ms, es) = mem_of_map u rows n in
      let p = moved_place er (keeps r) in
      let q = moved_place es (keeps s) in
      er ∙ ap u (keyed.unique r s mr ms (sym p.key ∙ e ∙ q.key)) ∙ sym es;
  places = λ a b m n h i.
      let (r, mr, er) = mem_of_map u rows m in
      let (s, ms, es) = mem_of_map u rows n in
      let p = moved_place er (keeps r) in
      let q = moved_place es (keeps s) in
      p.key ∙ keyed.places r s mr ms (below_subject p q h) (sym p.index ∙ i ∙ q.index) ∙ sym q.key;
}

-- A rewrite that opens nothing and takes back no approval keeps the order.
pub map-IsInOrder :
    (u : Stage → Stage) (rows : List Stage)
    → KeepsPlaces u
    → ((r : Stage) → is_pending (u r).status ≡ false → is_pending r.status ≡ false)
    → ((r : Stage) → r.status ≡ approved → (u r).status ≡ approved)
    → IsInOrder rows
    → IsInOrder (map u rows)
map-IsInOrder u rows keeps opens_none keeps_approved order a b m n h md lt np =
    let (r, mr, er) = mem_of_map u rows m in
    let (s, ms, es) = mem_of_map u rows n in
    let p = moved_place er (keeps r) in
    let q = moved_place es (keeps s) in
    let np' = opens_none s (ap (λ (x : Stage). is_pending x.status) (sym es) ∙ np) in
    let done =
      order r s mr ms (below_subject p q h) (sym p.mode ∙ md) (subst₂ ◌<◌ p.index q.index lt) np' in
    ap (λ (x : Stage). x.status) er ∙ keeps_approved r done

-- The rewrite of close_stage.
abbrev pub close_row : String → StageStatus → String → String → Stage → Stage
close_row key st id actor r = if is_open_row key r then stamp st id actor r else r

pub close_row-KeepsPlaces :
    (key : String) (st : StageStatus) (id actor : String) → KeepsPlaces (close_row key st id actor)
close_row-KeepsPlaces key st id actor r = elim (Bool-cases (is_open_row key r)) [
  | inl e ↦
      rw e (record {
        key = refl;
        kind = refl;
        subject = refl;
        round = refl;
        index = refl;
        mode = refl;
      })
  | inr e ↦ rw e (same_place r)
]

pub open_row :
    (key : String) (r : Stage)
    → is_open_row key r ≡ true
    → (r.stage_id ≡ key) × (r.status ≡ open_stage)
open_row key r h =
    let (k, o) = &&-eq-true (r.stage_id == key) (is_open r.status) h in
    ((eq_iff r.stage_id key).0 k, is_open-eq r.status o)
  where
    is_open-eq : (s : StageStatus) → is_open s ≡ true → s ≡ open_stage
    is_open-eq open_stage h = refl
    is_open-eq pending h = absurd (cc)
    is_open-eq approved h = absurd (cc)
    is_open-eq rejected h = absurd (cc)

-- The rewrite of open_next.
abbrev pub open_row_next : String → Stage → Stage
open_row_next key r =
    if r.stage_id == key && is_pending r.status then record r { status = open_stage } else r

pub open_row_next-KeepsPlaces : (key : String) → KeepsPlaces (open_row_next key)
open_row_next-KeepsPlaces key r = elim (Bool-cases (r.stage_id == key && is_pending r.status)) [
  | inl e ↦
      rw e (record {
        key = refl;
        kind = refl;
        subject = refl;
        round = refl;
        index = refl;
        mode = refl;
      })
  | inr e ↦ rw e (same_place r)
]

-- A row that open_next changes is the pending row of that key.
pub next_row :
    (key : String) (r : Stage)
    → ((r.stage_id ≡ key) × (is_pending r.status ≡ true)) ⊎ (open_row_next key r ≡ r)
next_row key r = elim (Bool-cases (r.stage_id == key && is_pending r.status)) [
  | inl e ↦
      let (k, p) = &&-eq-true (r.stage_id == key) (is_pending r.status) e in
      inl ((eq_iff r.stage_id key).0 k, p)
  | inr e ↦ inr (rw e)
]

pub SameSubject-of :
    (stage r : Stage)
    → of_subject stage.subject_type stage.subject_id stage.review_round r ≡ true
    → SameSubject r stage
SameSubject-of stage r h =
    let (k, s, n) =
      (and_iff (r.subject_type == stage.subject_type) (r.subject_id == stage.subject_id)
          (r.review_round == stage.review_round)).0
        h in
    record {
      kind = (eq_iff r.subject_type stage.subject_type).0 k;
      subject = (eq_iff r.subject_id stage.subject_id).0 s;
      round = (eqb_iff r.review_round stage.review_round).0 n;
    }

pub of_SameSubject :
    (stage r : Stage)
    → SameSubject r stage
    → of_subject stage.subject_type stage.subject_id stage.review_round r ≡ true
of_SameSubject stage r h =
    (and_iff (r.subject_type == stage.subject_type) (r.subject_id == stage.subject_id)
        (r.review_round == stage.review_round)).1
      (
        (eq_iff r.subject_type stage.subject_type).1 h.kind,
        (eq_iff r.subject_id stage.subject_id).1 h.subject,
        (eqb_iff r.review_round stage.review_round).1 h.round,
      )

pub flip_subject : {a b : Stage} → SameSubject a b → SameSubject b a
flip_subject h = record { kind = sym h.kind; subject = sym h.subject; round = sym h.round }

pub join_subject : {a b c : Stage} → SameSubject a b → SameSubject b c → SameSubject a c
join_subject h k = record {
  kind = h.kind ∙ k.kind;
  subject = h.subject ∙ k.subject;
  round = h.round ∙ k.round;
}

-- The open stage that a decision moves is the row that it was loaded as.
pub moved_stage :
    (rows : List Stage) (stage : Stage)
    → IsKeyed rows
    → Memᴰ stage rows
    → any (is_open_row stage.stage_id) rows ≡ true
    → stage.status ≡ open_stage
moved_stage rows stage keyed m h =
    let (k, n, o) = mem_of_any (is_open_row stage.stage_id) rows h in
    let (i, s) = open_row stage.stage_id k o in
    ap (λ (x : Stage). x.status) (keyed.unique stage k m n (sym i)) ∙ s
