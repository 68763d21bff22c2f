-- ===== src/Stages/Rows.antt =====
-- The table under the statements that change it: UPDATE ... WHERE, and ORDER BY stage_index.
use norinth.Prelude.{
  some, String, Bool, true, false, List, [], ◌∷◌, ◌≡◌, inl, inr, refl, sym, ap, subst, ◌∙◌, ℕ, ◌≤◌,
  filter, find, leb, leb→le, Memᴰ, arith, Bool-cases, not_mem_nil, mem_of_filter, filter_of_mem,
  mem_of_find,
}
use norinth.Stages.{
  Stage, is_pending, of_subject, insert_by_index, order_by_index, list_subject_stages,
}

mem_of_insert :
    (s : Stage) (rows : List Stage) {a : Stage}
    → Memᴰ a (insert_by_index s rows)
    → Memᴰ a (s ∷ rows)
unfolding insert_by_index
mem_of_insert s [] m = m
mem_of_insert s (r ∷ rows) {a} m = elim (Bool-cases (leb s.stage_index r.stage_index)) [
  | inl e ↦ rw e at m
  | inr e ↦ later (λ n. mem_of_insert s rows n) (rw e at m)
]
  where
    later :
        (Memᴰ a (insert_by_index s rows) → Memᴰ a (s ∷ rows))
        → Memᴰ a (r ∷ insert_by_index s rows)
        → Memᴰ a (s ∷ r ∷ rows)
    later ih (Memᴰ.head q) = Memᴰ.tail (Memᴰ.head q)
    later ih (Memᴰ.tail n) = past (ih n)
      where
        past : Memᴰ a (s ∷ rows) → Memᴰ a (s ∷ r ∷ rows)
        past (Memᴰ.head q) = Memᴰ.head q
        past (Memᴰ.tail k) = Memᴰ.tail (Memᴰ.tail k)

insert_self : (s : Stage) (rows : List Stage) → Memᴰ s (insert_by_index s rows)
unfolding insert_by_index
insert_self s [] = Memᴰ.head refl
insert_self s (r ∷ rows) = elim (Bool-cases (leb s.stage_index r.stage_index)) [
  | inl e ↦ rw e (Memᴰ.head refl)
  | inr e ↦ rw e (Memᴰ.tail (insert_self s rows))
]

insert_of_mem :
    (s : Stage) {a : Stage} {rows : List Stage} → Memᴰ a rows → Memᴰ a (insert_by_index s rows)
unfolding insert_by_index
insert_of_mem s (Memᴰ.head {x = r} q) = elim (Bool-cases (leb s.stage_index r.stage_index)) [
  | inl e ↦ rw e (Memᴰ.tail (Memᴰ.head q))
  | inr e ↦ rw e (Memᴰ.head q)
]
insert_of_mem s (Memᴰ.tail {x = r} m) =
    let n = insert_of_mem s m in
    elim (Bool-cases (leb s.stage_index r.stage_index)) [
      | inl e ↦ rw e (Memᴰ.tail (Memᴰ.tail m))
      | inr e ↦ rw e (Memᴰ.tail n)
    ]

mem_of_order : (rows : List Stage) {a : Stage} → Memᴰ a (order_by_index rows) → Memᴰ a rows
unfolding order_by_index
mem_of_order [] m = m
mem_of_order (s ∷ rows) {a} m = put (mem_of_insert s _ m) (λ n. mem_of_order rows n)
  where
    put :
        Memᴰ a (s ∷ order_by_index rows)
        → (Memᴰ a (order_by_index rows) → Memᴰ a rows)
        → Memᴰ a (s ∷ rows)
    put (Memᴰ.head q) ih = Memᴰ.head q
    put (Memᴰ.tail n) ih = Memᴰ.tail (ih n)

order_of_mem : {a : Stage} {rows : List Stage} → Memᴰ a rows → Memᴰ a (order_by_index rows)
unfolding order_by_index
order_of_mem {a} (Memᴰ.head {x = s} {xs = rows} q) =
    subst (λ x. Memᴰ x (insert_by_index s (order_by_index rows))) (sym q) (insert_self s _)
order_of_mem (Memᴰ.tail {x = s} m) = insert_of_mem s (order_of_mem m)

-- What the first row of `xs` that passes is, relative to a later insertion.
abbrev Least : (Stage → Bool) → Stage → List Stage → Type 0
Least p t xs = (u : Stage) → Memᴰ u xs → p u ≡ true → t.stage_index ≤ u.stage_index

abbrev Sorted : List Stage → Type 0
Sorted [] = Unit {0}
Sorted (s ∷ rows) = ((u : Stage) → Memᴰ u rows → s.stage_index ≤ u.stage_index) × Sorted rows

insert_by_index-Sorted :
    (s : Stage) (rows : List Stage) → Sorted rows → Sorted (insert_by_index s rows)
unfolding insert_by_index
insert_by_index-Sorted s [] h = (λ u m. absurd (not_mem_nil m), tt)
insert_by_index-Sorted s (r ∷ rows) h = elim (Bool-cases (leb s.stage_index r.stage_index)) [
  | inl e ↦ rw e (below (leb→le _ _ e), h)
  | inr e ↦ rw e (
    (λ u m. above (ground (arith, e)) u (mem_of_insert s rows m)),
    insert_by_index-Sorted s rows h.1,
  )
]
  where
    below :
        s.stage_index ≤ r.stage_index
        → (u : Stage) → Memᴰ u (r ∷ rows)
        → s.stage_index ≤ u.stage_index
    below e u (Memᴰ.head q) = let q' = ap (λ x. x.stage_index) q in omega arith
    below e u (Memᴰ.tail m) = omega (arith, h.0 u m)

    above :
        r.stage_index ≤ s.stage_index
        → (u : Stage) → Memᴰ u (s ∷ rows)
        → r.stage_index ≤ u.stage_index
    above e u (Memᴰ.head q) = let q' = ap (λ x. x.stage_index) q in omega arith
    above e u (Memᴰ.tail m) = h.0 u m

order_by_index-Sorted : (rows : List Stage) → Sorted (order_by_index rows)
unfolding order_by_index
order_by_index-Sorted [] = tt
order_by_index-Sorted (s ∷ rows) = insert_by_index-Sorted s _ (order_by_index-Sorted rows)

find-Least :
    (p : Stage → Bool) (xs : List Stage) (t : Stage) → Sorted xs → find p xs ≡ some t → Least p t xs
find-Least p [] t h e u m pu = absurd (cc)
find-Least p (x ∷ xs) t h e u m pu = elim (Bool-cases (p x)) [
  | inl q ↦ let same : some x ≡ some t = rw q at e in let same' : x ≡ t = cc same in first same' m
  | inr q ↦ rest q m (λ n. find-Least p xs t h.1 (rw q at e) u n pu)
]
  where
    first : x ≡ t → Memᴰ u (x ∷ xs) → t.stage_index ≤ u.stage_index
    first s (Memᴰ.head k) =
        let a = ap (λ x. x.stage_index) s in let b = ap (λ x. x.stage_index) k in omega arith
    first s (Memᴰ.tail n) = let a = ap (λ x. x.stage_index) s in omega (arith, h.0 u n)

    rest :
        p x ≡ false
        → Memᴰ u (x ∷ xs)
        → (Memᴰ u xs → t.stage_index ≤ u.stage_index)
        → t.stage_index ≤ u.stage_index
    rest q (Memᴰ.head k) ih = absurd (let c : p u ≡ false = ap p k ∙ q in cc (c, pu))
    rest q (Memᴰ.tail n) ih = ih n

-- The rows of a subject are the rows of the table that pass the WHERE.
pub mem_of_subject_stages :
    (rows : List Stage) (kind id : String) (round : ℕ) {a : Stage}
    → Memᴰ a (list_subject_stages rows kind id round)
    → Memᴰ a rows × (of_subject kind id round a ≡ true)
unfolding list_subject_stages
mem_of_subject_stages rows kind id round m =
    mem_of_filter (of_subject kind id round) rows (mem_of_order _ m)

pub subject_stages_of_mem :
    (kind id : String) (round : ℕ) {a : Stage} {rows : List Stage}
    → Memᴰ a rows
    → of_subject kind id round a ≡ true
    → Memᴰ a (list_subject_stages rows kind id round)
unfolding list_subject_stages
subject_stages_of_mem kind id round m h =
    order_of_mem (filter_of_mem (of_subject kind id round) m h)

-- The next pending stage of a subject: it is a pending row of the subject, and no pending row of the
-- subject comes before it.
pub next_pending_least :
    (rows : List Stage) (kind id : String) (round : ℕ) (t : Stage)
    → find (λ r. is_pending r.status) (list_subject_stages rows kind id round) ≡ some t
    → Memᴰ t rows
      × (of_subject kind id round t ≡ true)
      × (is_pending t.status ≡ true)
      × ((u : Stage)
          → Memᴰ u rows
          → of_subject kind id round u ≡ true
          → is_pending u.status ≡ true
          → t.stage_index ≤ u.stage_index)
unfolding list_subject_stages
next_pending_least rows kind id round t e =
    let p : Stage → Bool = λ r. is_pending r.status in
    let sibs = filter (of_subject kind id round) rows in
    let (m, q) = mem_of_find p (order_by_index sibs) e in
    let (n, h) = mem_of_filter (of_subject kind id round) rows (mem_of_order sibs m) in
    (
      n,
      h,
      q,
      λ u k hu pu.
          find-Least p (order_by_index sibs) t (order_by_index-Sorted sibs) e u
            (order_of_mem (filter_of_mem (of_subject kind id round) k hu)) pu,
    )
