-- ===== src/Graph/Validator/Search.antt =====
-- The search of `_check_entry_reachable`: it ends, and what it has seen is what can be reached.
use fastapi_langgraph_templa.Common.{
  ℕ, zero, suc, ◌+◌, ◌*◌, ◌≤◌, String, str_eq, eq_iff, eq_refl, ◌≡◌, refl, ap, ◌∙◌, subst, List, [],
  ◌∷◌, ◌++◌, some, true, false, ◌||◌, not, arith, length, filter, length-append, Bool-cases, inl,
  inr,
}
use fastapi_langgraph_templa.Common.Names.{
  contains, contains-append, contains-filter, length-filter-le,
}
use fastapi_langgraph_templa.Graph.Validator.{visit}

-- all names of the list satisfy the predicate
abbrev pub Each : (String → Type 0) → List String → Type 0
Each P xs = (a : String) → contains xs a ≡ true → P a

-- the known names that are not seen
abbrev unseen : List String → List String → ℕ
unseen known seen = length (filter (λ id. not (contains seen id)) known)

unseen-le : (known seen : List String) (id : String) → unseen known (id ∷ seen) ≤ unseen known seen
unfolding contains
unseen-le [] seen id = omega arith
unseen-le (k ∷ ks) seen id = ground (arith, unseen-le ks seen id)

unseen-lt :
    (known seen : List String) (id : String)
    → contains known id ≡ true
    → contains seen id ≡ false
    → unseen known (id ∷ seen) + 1 ≤ unseen known seen
unfolding contains
unseen-lt [] seen id k s = cc
unseen-lt (x ∷ xs) seen id k s = elim (Bool-cases (str_eq x id)) [
  | inl e ↦ rw ((eq_iff x id).0 e) (rw (eq_refl id, s) (omega (arith, unseen-le xs seen id)))
  | inr e ↦ ground (arith, unseen-lt xs seen id, eq_iff x id, eq_iff id x)
]

one_less : (u v d : ℕ) → u + 1 ≤ v → u * d + d ≤ v * d
one_less u v d h = grind arith

module _ (next : String → List String) (known : List String) (degree : ℕ)
    (bounded : (id : String) → length (next id) ≤ degree)
    (closed : (id m : String) → contains (next id) m ≡ true → contains known m ≡ true) where
  fresh-known :
      (id : String) (frontier seen : List String)
      → Each (λ a. contains known a ≡ true) (id ∷ frontier)
      → Each
          (λ a. contains known a ≡ true)
          (filter (λ m. not (contains (id ∷ seen) m)) (next id) ++ frontier)
  unfolding contains
  fresh-known id frontier seen k a m = ground (
    arith,
    contains-append (filter (λ x. not (contains (id ∷ seen) x)) (next id)) frontier a,
    contains-filter (λ x. not (contains (id ∷ seen) x)) (next id) a,
    k a,
    closed id a,
  )

  -- With as many rounds as the frontier is long, and `degree` more for each unseen name, the loop
  -- ends by its test.
  pub visit-total :
      (fuel : ℕ) (frontier seen : List String)
      → Each (λ a. contains known a ≡ true) frontier
      → length frontier + unseen known seen * degree ≤ fuel
      → (r : List String) × (visit next fuel frontier seen ≡ some r)
  unfolding visit contains
  visit-total fuel [] seen k h = (seen, refl)
  visit-total zero (id ∷ frontier) seen k h = absurd (omega arith)
  visit-total (suc fuel) (id ∷ frontier) seen k h = elim (Bool-cases (contains seen id)) [
    | inl old ↦ rw old (visit-total fuel frontier seen (λ a m. k a (ground arith)) (omega arith))
    | inr new_ ↦ rw new_ (
        visit-total fuel (filter (λ m. not (contains (id ∷ seen) m)) (next id) ++ frontier)
          (id ∷ seen) (λ a m. fresh-known id frontier seen k a m)
          (omega (
            arith,
            length-append (filter (λ m. not (contains (id ∷ seen) m)) (next id)) frontier,
            length-filter-le (λ m. not (contains (id ∷ seen) m)) (next id),
            bounded id,
            one_less (unseen known (id ∷ seen)) (unseen known seen) degree
                (unseen-lt known seen id (k id (ground (arith, eq_iff id id))) new_),
          )))
  ]

module _ (next : String → List String) where
  -- Whatever holds of the roots, and of what follows a name of which it holds, holds of all seen.
  pub visit_sound :
      (P : String → Type 0)
      → ((id m : String) → P id → contains (next id) m ≡ true → P m)
      → (fuel : ℕ) (frontier seen r : List String) → Each P frontier
      → Each P seen
      → visit next fuel frontier seen ≡ some r
      → Each P r
  unfolding visit contains
  visit_sound P step zero [] seen r f s h =
      let same : seen ≡ r = cc in λ a m. s a (ap (λ (z : List String). contains z a) same ∙ m)
  visit_sound P step (suc fuel) [] seen r f s h =
      let same : seen ≡ r = cc in λ a m. s a (ap (λ (z : List String). contains z a) same ∙ m)
  visit_sound P step zero (id ∷ frontier) seen r f s h = cc
  visit_sound P step (suc fuel) (id ∷ frontier) seen r f s h =
      elim (Bool-cases (contains seen id)) [
        | inl old ↦
            visit_sound P step fuel frontier seen r (λ a m. f a (ground arith)) s (rw old at h)
        | inr new_ ↦
            visit_sound P step fuel
              (filter (λ m. not (contains (id ∷ seen) m)) (next id) ++ frontier) (id ∷ seen) r
              (λ a m. elim (Bool-cases (contains frontier a)) [
                | inl w ↦ f a (ground arith)
                | inr w ↦ step id a (f id (rw (eq_refl id))) (
                    ground (
                      arith,
                      contains-append (filter (λ x. not (contains (id ∷ seen) x)) (next id))
                          frontier a,
                      contains-filter (λ x. not (contains (id ∷ seen) x)) (next id) a,
                    ))
              ])
              (λ a m. elim (Bool-cases (str_eq id a)) [
                | inl w ↦ subst P ((eq_iff id a).0 w) (f id (rw (eq_refl id)))
                | inr w ↦ s a (rw w at m)
              ])
              (rw new_ at h)
      ]

  -- What follows a seen name is seen, or waits in the frontier.
  abbrev pub Explored : List String → List String → Type 0
  Explored frontier seen =
      (id m : String)
      → contains seen id ≡ true
      → contains (next id) m ≡ true
      → (contains seen m || contains frontier m) ≡ true

  -- At the end all of the frontier is seen, all that was seen before still is, and what follows a
  -- seen name is seen.
  pub visit_complete :
      (fuel : ℕ) (frontier seen r : List String)
      → Explored frontier seen
      → visit next fuel frontier seen ≡ some r
      → ((a : String) → (contains seen a || contains frontier a) ≡ true → contains r a ≡ true)
        × Explored [] r
  unfolding visit contains
  visit_complete zero [] seen r e h =
      let same : seen ≡ r = cc in
      (
        λ a m. ground (arith, ap (λ (z : List String). contains z a) same),
        λ i m p q. ground (
          arith,
          e i m,
          ap (λ (z : List String). contains z i) same,
          ap (λ (z : List String). contains z m) same,
        ),
      )
  visit_complete (suc fuel) [] seen r e h =
      let same : seen ≡ r = cc in
      (
        λ a m. ground (arith, ap (λ (z : List String). contains z a) same),
        λ i m p q. ground (
          arith,
          e i m,
          ap (λ (z : List String). contains z i) same,
          ap (λ (z : List String). contains z m) same,
        ),
      )
  visit_complete zero (id ∷ frontier) seen r e h = cc
  visit_complete (suc fuel) (id ∷ frontier) seen r e h = elim (Bool-cases (contains seen id)) [
    | inl old ↦
        let (sub, ex) =
          visit_complete fuel frontier seen r
            (λ i m p q. elim (Bool-cases (str_eq id m)) [
              | inl w ↦ ground (arith, ap (contains seen) ((eq_iff id m).0 w))
              | inr w ↦ ground (arith, e i m)
            ])
            (rw old at h) in
        (
          λ a m. sub a (elim (Bool-cases (str_eq id a)) [
            | inl w ↦ ground (arith, ap (contains seen) ((eq_iff id a).0 w))
            | inr w ↦ ground arith
          ]),
          ex,
        )
    | inr new_ ↦
        let (sub, ex) =
          visit_complete fuel (filter (λ m. not (contains (id ∷ seen) m)) (next id) ++ frontier)
            (id ∷ seen) r
            (λ i m p q. elim (Bool-cases (str_eq id i)) [
              | inl w ↦ ground (
                arith,
                contains-append (filter (λ x. not (contains (id ∷ seen) x)) (next id)) frontier m,
                contains-filter (λ x. not (contains (id ∷ seen) x)) (next id) m,
                ap (λ (z : String). contains (next z) m) ((eq_iff id i).0 w),
              )
              | inr w ↦ ground (
                arith,
                contains-append (filter (λ x. not (contains (id ∷ seen) x)) (next id)) frontier m,
                e i m,
              )
            ])
            (rw new_ at h) in
        (
          λ a m. sub a (
              ground (
                arith,
                contains-append (filter (λ x. not (contains (id ∷ seen) x)) (next id)) frontier a,
              )),
          ex,
        )
  ]
