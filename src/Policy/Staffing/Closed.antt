-- ===== src/Policy/Staffing/Closed.antt =====
-- What place leaves behind: no stage has two people, and where it fails, everyone it has seen has a
-- stage whose candidates it has all seen.
use norinth.Prelude.{
  none, some, String, true, false, List, [], ◌∷◌, ◌==◌, ◌≡◌, ◌⊎◌, inl, inr, refl, sym, ap, ◌∙◌, ℕ,
  text_key, lookup, contains, Memᴰ, eq_iff, Bool-cases,
}
use norinth.Policy.Staffing.{assign, Placed, place_result}
use norinth.Policy.Staffing.Matching.{IsPlacement, unseen_tail}

abbrev pub Dict : Type 0
Dict = List (String × ℕ)

-- Among the people who are not seen, no two have one stage.
abbrev pub IsUnique : List String → Dict → Type 0
IsUnique seen d =
    (p q : String) (s : ℕ)
    → contains p seen ≡ false
    → contains q seen ≡ false
    → lookup p d ≡ some s
    → lookup q d ≡ some s
    → p ≡ q

-- Nobody who is not seen has the stage.
abbrev pub IsFree : ℕ → List String → Dict → Type 0
IsFree stage seen d = (p : String) → contains p seen ≡ false → lookup p d ≡ some stage → ⊥

-- All candidates of a person's stage are seen.
abbrev pub IsClosedAt : (ℕ → List String) → Dict → List String → String → Type 0
IsClosedAt candidates d seen p =
    (t : ℕ) × (lookup p d ≡ some t)
    × ((c : String) → Memᴰ c (candidates t) → contains c seen ≡ true)

pub record IsTight (candidates : ℕ → List String) (people : List String) (stage : ℕ) (d : Dict)
    (seen : List String) (r : Placed) : Type 0 where
  pub unique : IsUnique seen d → IsFree stage seen d → IsUnique seen r.assigned
  pub before :
      (s : ℕ) (x : String)
      → contains x seen ≡ false
      → lookup x r.assigned ≡ some s
      → (s ≡ stage) ⊎ ((y : String) × (contains y seen ≡ false) × (lookup y d ≡ some s))
  pub covers : r.placed ≡ false → (c : String) → Memᴰ c people → contains c r.seen ≡ true
  pub closed :
      r.placed ≡ false
      → (p : String) → contains p r.seen ≡ true
      → contains p seen ≡ false
      → IsClosedAt candidates d r.seen p

module _ (candidates : ℕ → List String) (stage : ℕ) (d : Dict) (seen : List String) where
  differ : (p q : String) → (p == q) ≡ false → p ≡ q → ⊥
  differ p q h e = let t = (eq_iff p q).1 e in cc (t, h)

  pub both :
      (p q : String) → (p == q) ≡ false → contains q seen ≡ false → contains q (p ∷ seen) ≡ false
  both p q h u = elim (Bool-cases (q == p)) [
    | inl e ↦ absurd (differ p q h (sym ((eq_iff q p).0 e)))
    | inr e ↦ rw (e, u) refl
  ]

  -- The stage goes to a person, where nobody else who is not seen has it.
  assign-IsUnique :
      (p : String) (d' : Dict)
      → IsUnique (p ∷ seen) d'
      → IsFree stage (p ∷ seen) d'
      → IsUnique seen (assign p stage d')
  assign-IsUnique p d' u f x y s nx ny lx ly = elim (Bool-cases (p == x)) [
    | inl e ↦ elim (Bool-cases (p == y)) [
      | inl g ↦ sym ((eq_iff p x).0 e) ∙ (eq_iff p y).0 g
      | inr g ↦
          let q : some stage ≡ some s = rw e at lx in
          absurd (f y (both p y g ny) ((rw g at ly) ∙ sym q))
    ]
    | inr e ↦ elim (Bool-cases (p == y)) [
      | inl g ↦
          let q : some stage ≡ some s = rw g at ly in
          absurd (f x (both p x e nx) ((rw e at lx) ∙ sym q))
      | inr g ↦ u x y s (both p x e nx) (both p y g ny) (rw e at lx) (rw g at ly)
    ]
  ]

  pub assign_free-IsTight :
      (p : String) (people : List String)
      → contains p seen ≡ false
      → lookup p d ≡ none
      → IsTight candidates people stage d seen (place_result true (assign p stage d) (p ∷ seen))
  assign_free-IsTight p people new free = record {
    unique = λ u f.
        assign-IsUnique p d
          (λ x y s nx ny lx ly.
            u x y s (unseen_tail p x seen nx).1 (unseen_tail p y seen ny).1 lx ly)
          (λ x nx lx. f x (unseen_tail p x seen nx).1 lx);
    before = λ s x nx lx. elim (Bool-cases (p == x)) [
      | inl e ↦ let q : some stage ≡ some s = rw e at lx in let t : stage ≡ s = cc q in inl (sym t)
      | inr e ↦ inr (x, nx, rw e at lx)
    ];
    covers = λ h. absurd (cc h);
    closed = λ h. absurd (cc h);
  }

  pub assign_moved-IsTight :
      (p : String) (other : ℕ) (people : List String) (r : Placed)
      → contains p seen ≡ false
      → lookup p d ≡ some other
      → r.placed ≡ true
      → IsTight candidates (candidates other) other d (p ∷ seen) r
      → IsTight candidates people stage d seen
          (place_result true (assign p stage r.assigned) r.seen)
  assign_moved-IsTight p other people r new had done i = record {
    unique = λ u f. assign-IsUnique p r.assigned (i.unique (fewer u) (only_p u)) (still_free f);
    before = λ s x nx lx. elim (Bool-cases (p == x)) [
      | inl e ↦ let q : some stage ≡ some s = rw e at lx in let t : stage ≡ s = cc q in inl (sym t)
      | inr e ↦ inr (elim (i.before s x (both p x e nx) (rw e at lx)) [
        | inl t ↦ (p, new, had ∙ ap some (sym t))
        | inr (y, ny, ly) ↦ (y, (unseen_tail p y seen ny).1, ly)
      ])
    ];
    covers = λ h. absurd (cc h);
    closed = λ h. absurd (cc h);
  }
    where
      fewer : IsUnique seen d → IsUnique (p ∷ seen) d
      fewer u x y s nx ny lx ly =
          u x y s (unseen_tail p x seen nx).1 (unseen_tail p y seen ny).1 lx ly

      only_p : IsUnique seen d → IsFree other (p ∷ seen) d
      only_p u x nx lx =
          let (a, b) = unseen_tail p x seen nx in differ p x a (u p x other new b had lx)

      still_free : IsFree stage seen d → IsFree stage (p ∷ seen) r.assigned
      still_free f x nx lx = elim (i.before stage x nx lx) [
        | inl t ↦ f p new (had ∙ ap some (sym t))
        | inr (y, ny, ly) ↦ f y (unseen_tail p y seen ny).1 ly
      ]

  -- The loop goes on, with more people seen and nobody moved.
  pub go_on-IsTight :
      (p : String) (people : List String) (d₁ : Dict) (seen₁ : List String) (r : Placed)
      → d₁ ≡ d
      → contains p seen₁ ≡ true
      → ((x : String) → contains x seen ≡ true → contains x seen₁ ≡ true)
      → ((x : String)
          → contains x seen₁ ≡ true
          → contains x seen ≡ false
          → IsClosedAt candidates d seen₁ x)
      → IsPlacement candidates stage d₁ seen₁ r
      → IsTight candidates people stage d₁ seen₁ r
      → IsTight candidates (p ∷ people) stage d seen r
  go_on-IsTight p people d₁ seen₁ r e here more closed i t = record {
    unique = λ u f x y s nx ny lx ly. elim (Bool-cases (contains x seen₁)) [
      | inl a ↦ elim (Bool-cases (contains y seen₁)) [
        | inl b ↦ u x y s nx ny (stays x a lx) (stays y b ly)
        | inr b ↦ absurd (one_new u f x y s nx a b (stays x a lx) ly)
      ]
      | inr a ↦ elim (Bool-cases (contains y seen₁)) [
        | inl b ↦ absurd (one_new u f y x s ny b a (stays y b ly) lx)
        | inr b ↦ t.unique (unique₁ u) (free₁ f) x y s a b lx ly
      ]
    ];
    before = λ s x nx lx. elim (Bool-cases (contains x seen₁)) [
      | inl a ↦ inr (x, nx, stays x a lx)
      | inr a ↦ elim (t.before s x a lx) [
        | inl q ↦ inl q
        | inr (y, ny, ly) ↦ inr (y, unseen y ny, same y ∙ ly)
      ]
    ];
    covers = λ h c m. elim m [
      | Memᴰ.head q ↦ i.grows c (ap (λ x. contains x seen₁) q ∙ here)
      | Memᴰ.tail n ↦ t.covers h c n
    ];
    closed = λ h x hx nx. elim (Bool-cases (contains x seen₁)) [
      | inl a ↦ let (k, l, all) = closed x a nx in (k, l, λ c m. i.grows c (all c m))
      | inr a ↦ let (k, l, all) = t.closed h x hx a in (k, same x ∙ l, all)
    ];
  }
    where
      same : (x : String) → lookup x d ≡ lookup x d₁
      same x = ap (lookup x) (sym e)

      stays :
          (x : String) {s : ℕ}
          → contains x seen₁ ≡ true
          → lookup x r.assigned ≡ some s
          → lookup x d ≡ some s
      stays x a l = same x ∙ sym (i.unmoved x a) ∙ l

      unseen : (x : String) → contains x seen₁ ≡ false → contains x seen ≡ false
      unseen x a = elim (Bool-cases (contains x seen)) [
        | inl h ↦ absurd (let q = more x h in cc (q, a))
        | inr h ↦ h
      ]

      unique₁ : IsUnique seen d → IsUnique seen₁ d₁
      unique₁ u x y s nx ny lx ly = u x y s (unseen x nx) (unseen y ny) (same x ∙ lx) (same y ∙ ly)

      free₁ : IsFree stage seen d → IsFree stage seen₁ d₁
      free₁ f x nx lx = f x (unseen x nx) (same x ∙ lx)

      one_new :
          IsUnique seen d
          → IsFree stage seen d
          → (x y : String) (s : ℕ) → contains x seen ≡ false
          → contains x seen₁ ≡ true
          → contains y seen₁ ≡ false
          → lookup x d ≡ some s
          → lookup y r.assigned ≡ some s
          → ⊥
      one_new u f x y s nx a b lx ly = elim (t.before s y b ly) [
        | inl q ↦ f x nx (lx ∙ ap some q)
        | inr (z, nz, lz) ↦
            let q = ap (λ w. contains w seen₁) (u x z s nx (unseen z nz) lx (same z ∙ lz)) in
            cc (q, a, nz)
      ]

pub nobody-IsTight :
    (candidates : ℕ → List String) (stage : ℕ) (d : Dict) (seen : List String)
    → IsTight candidates [] stage d seen (place_result false d seen)
nobody-IsTight candidates stage d seen = record {
  unique = λ u f. u;
  before = λ s x nx lx. inr (x, nx, lx);
  covers = λ h c m. elim m [ ];
  closed = λ h p a b. absurd (cc (a, b));
}
