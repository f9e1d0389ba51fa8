-- ===== src/Siem/Worker/Outage/Decides.antt =====
-- The walk ends, cycles included, and finds a network error exactly if the causes lead to one.
use cyber_range.Common.{
  ℕ, zero, suc, ◌≤◌, ◌<◌, ◌≡◌, ◌⊎◌, inl, inr, Bool, true, false, Option, none, some, List, [], ◌∷◌,
  ◌==◌, arith, refl, subst, ap, ◌∙◌, Bool-cases, Option-cases, if◌then◌else◌,
}
use cyber_range.Siem.Worker.Outage.{Exceptions, next_error, is_in, walk, is_connection_error}

-- How many of the ids below `n` were not seen
unseen : ℕ → List ℕ → ℕ
unseen zero seen = 0
unseen (suc k) seen = let rest = unseen k seen in if is_in k seen then rest else suc rest

unseen_bound : (n : ℕ) → unseen n [] < suc n
unfolding unseen
unseen_bound zero = omega arith
unseen_bound (suc k) = omega (arith, unseen_bound k)

unseen_above : (n e : ℕ) (seen : List ℕ) → n ≤ e → unseen n (e ∷ seen) ≡ unseen n seen
unfolding unseen
unseen_above zero e seen h = refl
unseen_above (suc k) e seen h = ground (arith, h, unseen_above k e seen)

unseen_step :
    (n e : ℕ) (seen : List ℕ)
    → e < n
    → is_in e seen ≡ false
    → suc (unseen n (e ∷ seen)) ≡ unseen n seen
unfolding unseen
unseen_step zero e seen h new = absurd (omega (arith, h))
unseen_step (suc k) e seen h new = elim (Bool-cases (e == k)) [
  | inl same ↦
      let here : e ≡ k = ground (arith, same) in
      let fresh : is_in k seen ≡ false = subst (λ j. is_in j seen ≡ false) here new in
      ground (arith, here, fresh, unseen_above k e seen)
  | inr other ↦ ground (arith, h, new, other, unseen_step k e seen)
]

module _ (x : Exceptions) where
  -- The causes of exceptions below `n` are below `n`.
  abbrev pub IsHeap : ℕ → Type 0
  IsHeap n = (e c : ℕ) → e < n → next_error x e ≡ some c → c < n

  abbrev IsBelow : ℕ → Option ℕ → Type 0
  IsBelow n error = (e : ℕ) → error ≡ some e → e < n

  walk-ends :
      (n fuel : ℕ) (seen : List ℕ) (error : Option ℕ)
      → IsHeap n
      → IsBelow n error
      → unseen n seen < fuel
      → (b : Bool) × (walk x fuel seen error ≡ some b)
  unfolding walk
  walk-ends n zero seen error h b k = absurd (omega (arith, k))
  walk-ends n (suc fuel) seen none h b k = (false, refl)
  walk-ends n (suc fuel) seen (some e) h b k = elim (Bool-cases (is_in e seen)) [
    | inl again ↦ (false, rw again refl)
    | inr new ↦ elim (Bool-cases (x.is_network e)) [
      | inl network ↦ (true, rw (new, network) refl)
      | inr plain ↦
          let (r, ended) =
            walk-ends n fuel (e ∷ seen) (next_error x e) h (λ c q. h e c (b e refl) q)
              (omega (arith, k, unseen_step n e seen (b e refl) new)) in
          (r, rw (new, plain) ended)
    ]
  ]

  -- `e` leads to `c` along the causes.
  pub data LeadsTo : ℕ → ℕ → Type 0 where
    here : {e : ℕ} → LeadsTo e e
    along : {e d c : ℕ} → next_error x e ≡ some d → LeadsTo d c → LeadsTo e c

  none_ends : (fuel : ℕ) (seen : List ℕ) → ¬ (walk x fuel seen none ≡ some true)
  unfolding walk
  none_ends zero seen h = ground (arith, h)
  none_ends (suc fuel) seen h = ground (arith, h)

  walk-finds :
      (fuel : ℕ) (seen : List ℕ) (e : ℕ)
      → walk x fuel seen (some e) ≡ some true
      → (c : ℕ) × LeadsTo e c × (x.is_network c ≡ true)
  unfolding walk
  walk-finds zero seen e h = absurd (ground (arith, h))
  walk-finds (suc fuel) seen e h = elim (Bool-cases (is_in e seen)) [
    | inl again ↦ absurd (ground (arith, h, again))
    | inr new ↦ elim (Bool-cases (x.is_network e)) [
      | inl network ↦ (e, here, network)
      | inr plain ↦ elim (Option-cases (next_error x e)) [
        | inl last ↦ absurd (none_ends fuel (e ∷ seen) (ground (arith, h, new, plain, last)))
        | inr (d, q) ↦
            let (c, path, network) =
              walk-finds fuel (e ∷ seen) d (ground (arith, h, new, plain, q)) in
            (c, along q path, network)
      ]
    ]
  ]

  -- A set of exceptions none of which is a network error, and which their causes do not leave
  record IsClosed (s : List ℕ) : Type 0 where
    plain : (e : ℕ) → is_in e s ≡ true → x.is_network e ≡ false
    closed : (e c : ℕ) → is_in e s ≡ true → next_error x e ≡ some c → is_in c s ≡ true

  -- The exceptions that a walk has seen, and those that their causes lead to
  record Explored (seen : List ℕ) (error : Option ℕ) (s : List ℕ) : Type 0 where
    whole : IsClosed s
    older : (e : ℕ) → is_in e seen ≡ true → is_in e s ≡ true
    newer : (e : ℕ) → error ≡ some e → is_in e s ≡ true

  walk-Explored :
      (fuel : ℕ) (seen : List ℕ) (error : Option ℕ)
      → ((e : ℕ) → is_in e seen ≡ true → x.is_network e ≡ false)
      → ((e c : ℕ)
          → is_in e seen ≡ true
          → next_error x e ≡ some c
          → (is_in c seen ≡ true) ⊎ (error ≡ some c))
      → walk x fuel seen error ≡ some false
      → (s : List ℕ) × Explored seen error s
  unfolding walk
  walk-Explored zero seen error p q h = absurd (ground (arith, h))
  walk-Explored (suc fuel) seen none p q h = (
    seen,
    record {
      whole = record {
        plain = p;
        closed = λ e c m n. elim (q e c m n) [ inl i ↦ i | inr i ↦ absurd (cc) ];
      };
      older = λ e m. m;
      newer = λ e i. absurd (cc);
    },
  )
  walk-Explored (suc fuel) seen (some e) p q h = elim (Bool-cases (is_in e seen)) [
    | inl again ↦ (
      seen,
      record {
        whole = record {
          plain = p;
          closed = λ d c m n. elim (q d c m n) [ inl i ↦ i | inr i ↦ ground (arith, i, again) ];
        };
        older = λ d m. m;
        newer = λ d i. ground (arith, i, again);
      },
    )
    | inr new ↦ elim (Bool-cases (x.is_network e)) [
      | inl network ↦ absurd (ground (arith, h, new, network))
      | inr plain ↦
          let (s, all) =
            walk-Explored fuel (e ∷ seen) (next_error x e)
              (λ d m. elim (Bool-cases (e == d)) [
                | inl same ↦ ground (arith, same, plain)
                | inr other ↦ p d (ground (arith, m, other))
              ])
              (λ d c m n. elim (Bool-cases (e == d)) [
                | inl same ↦ inr (ground (arith, same, n))
                | inr other ↦ elim (q d c (ground (arith, m, other)) n) [
                  | inl i ↦ inl (ground (arith, i))
                  | inr i ↦ inl (ground (arith, i))
                ]
              ])
              (ground (arith, h, new, plain)) in
          (
            s,
            record {
              whole = all.whole;
              older = λ d m. all.older d (ground (arith, m));
              newer = λ d i. all.older d (ground (arith, i));
            },
          )
    ]
  ]

  closed-LeadsTo :
      {e c : ℕ} (s : List ℕ) → IsClosed s → is_in e s ≡ true → LeadsTo e c → x.is_network c ≡ false
  closed-LeadsTo s k m here = k.plain _ m
  closed-LeadsTo s k m (along q r) = closed-LeadsTo s k (k.closed _ _ m q) r

  -- The answer is the one that the causes give.
  pub record Decides (n e : ℕ) (b : Bool) : Type 0 where
    pub answer : is_connection_error x (suc n) (some e) ≡ some b
    pub finds : b ≡ true → (c : ℕ) × LeadsTo e c × (x.is_network c ≡ true)
    pub misses : b ≡ false → (c : ℕ) → LeadsTo e c → x.is_network c ≡ false

  -- With one round more than there are exceptions, the walk ends, cycles included; it answers
  -- true only if the causes lead to a network error, and false only if they lead to none.
  pub is_connection_error-Decides : (n e : ℕ) → IsHeap n → e < n → (b : Bool) × Decides n e b
  is_connection_error-Decides n e h k =
      let (b, ended) =
        walk-ends n (suc n) [] (some e) h (λ c q. subst (λ i. i < n) (ground (arith, q)) k)
          (unseen_bound n) in
      (
        b,
        record {
          answer = ended;
          finds = λ t. walk-finds (suc n) [] e (ended ∙ ap some t);
          misses = λ f c path.
              let (s, all) =
                walk-Explored (suc n) [] (some e) (λ d m. absurd (ground (arith, m)))
                  (λ d c m q. absurd (ground (arith, m))) (ended ∙ ap some f) in
              closed-LeadsTo s all.whole (all.newer e refl) path;
        },
      )
