-- ===== src/Cluster/Registry/Superseding.antt =====
-- A spoke has one live connection, the newest, whatever the order in which connections end.
use llmbox.Prelude.{
  ℕ, ◌≡◌, ◌≢◌, ◌↔◌, ap, ◌∙◌, ◌⊎◌, inl, inr, not, Option, none, some, List, arith, Str, str_eq,
  nat_eq, str_beq_iff, nat_beq_iff, pair_beq_iff, ◌==◌, pair_eq, get, get-put, get-del, In,
  In-filter, Bool-cases, Option-cases,
}
use llmbox.Cluster.Registry.{Registry, close, register, disconnect, unregister, drop_link}

-- A connection that is served is registered or closed, and a registered one is served.
pub record IsCurrent (r : Registry) : Type 0 where
  pub superseded :
      (n : Str) (c : ℕ) → In (n, c) r.serving → (get n r.spokes ≡ some c) ⊎ In c r.closed
  pub served : (n : Str) (c : ℕ) → get n r.spokes ≡ some c → In (n, c) r.serving

pub data Step (r : Registry) : Registry → Type 0 where
  registered : (n : Str) (c : ℕ) → Step r (register n c r)
  disconnected : (n : Str) → Step r (disconnect n r)
  unregistered : (n : Str) (c : ℕ) → Step r (unregister n c r)
  dropped : (c : ℕ) → Step r (drop_link c r)

pub data Reach (r : Registry) : Registry → Type 0 where
  here : Reach r r
  next : {u v : Registry} → Reach r u → Step u v → Reach r v

closes : (o : Option ℕ) (d : ℕ) (xs : List ℕ) → o ≡ some d → In d (close o xs)
closes none d xs h = cc
closes (some c) d xs h = inl (cc h)

keeps : (o : Option ℕ) (d : ℕ) (xs : List ℕ) → In d xs → In d (close o xs)
keeps none d xs i = i
keeps (some c) d xs i = inr i

module _ (r : Registry) (v : IsCurrent r) where
  register-IsCurrent : (n : Str) (c : ℕ) → IsCurrent (register n c r)
  unfolding register
  register-IsCurrent n c = record {
    superseded = λ m d i. elim i [
      | inl e ↦
          inl (ground (arith, get-put n m c r.spokes, str_beq_iff n m, pair_beq_iff (n, c) (m, d)))
      | inr j ↦ elim (v.superseded m d j) [
        | inr closed ↦ inr (keeps (get n r.spokes) d r.closed closed)
        | inl current ↦ elim (Bool-cases (n == m)) [
          | inr other ↦ inl (get-put n m c r.spokes ∙ rw other current)
          | inl same ↦ inr (
              closes (get n r.spokes) d r.closed
                (ap (λ k. get k r.spokes) ((str_beq_iff n m).0 same) ∙ current))
        ]
      ]
    ];
    served = λ m d h. elim (Bool-cases (n == m)) [
      | inl same ↦
          inl (ground (arith, get-put n m c r.spokes, str_beq_iff n m, pair_beq_iff (n, c) (m, d)))
      | inr other ↦ inr (v.served m d (rw (get-put n m c r.spokes, other) at h))
    ];
  }

  disconnect-IsCurrent : (n : Str) → IsCurrent (disconnect n r)
  unfolding disconnect
  disconnect-IsCurrent n = record {
    superseded = λ m d i. elim (v.superseded m d i) [
      | inl current ↦ inl current
      | inr closed ↦ inr (keeps (get n r.spokes) d r.closed closed)
    ];
    served = v.served;
  }

  drop_link-IsCurrent : (c : ℕ) → IsCurrent (drop_link c r)
  unfolding drop_link
  drop_link-IsCurrent c = record {
    superseded = λ m d i. elim (v.superseded m d i) [ inl e ↦ inl e | inr j ↦ inr (inr j) ];
    served = v.served;
  }

  module _ (n : Str) (c : ℕ) where
    get-unregister :
        (m : Str) (d : ℕ)
        → (get m (unregister n c r).spokes ≡ some d)
          ↔ ((get m r.spokes ≡ some d) × (◌≢◌ {A = Str × ℕ} (m, d) (n, c)))
    unfolding unregister
    get-unregister m d = elim (Option-cases (get n r.spokes)) [
      | inl absent ↦ ground (arith, str_beq_iff n m, pair_beq_iff (m, d) (n, c))
      | inr (b, found) ↦ ground (
        arith,
        str_beq_iff n m,
        get-del n m r.spokes,
        pair_beq_iff (m, d) (n, c),
        nat_beq_iff b c,
      )
    ]

    In-unregister :
        (m : Str) (d : ℕ)
        → In (m, d) (unregister n c r).serving
          ↔ (In (m, d) r.serving × (◌≢◌ {A = Str × ℕ} (m, d) (n, c)))
    unfolding unregister
    In-unregister m d =
        let (to, from) = In-filter (λ k. not (k == (n, c))) (m, d) r.serving in
        (
          λ i. ((to i).0, λ e. ground (arith, (to i).1, (pair_beq_iff (m, d) (n, c)).1 e)),
          λ (i, other). from (i, ground (arith, pair_beq_iff (m, d) (n, c))),
        )

    unregister-IsCurrent : IsCurrent (unregister n c r)
    unregister-IsCurrent = record {
      superseded = λ m d i.
          let (there, other) = (In-unregister m d).0 i in
          elim (v.superseded m d there) [
            | inl current ↦ inl ((get-unregister m d).1 (current, other))
            | inr closed ↦ inr (unfold unregister in closed)
          ];
      served = λ m d h.
          let (current, other) = (get-unregister m d).0 h in
          (In-unregister m d).1 (v.served m d current, other);
    }

Step-IsCurrent : {r u : Registry} → Step r u → IsCurrent r → IsCurrent u
Step-IsCurrent {r} (registered n c) v = register-IsCurrent r v n c
Step-IsCurrent {r} (disconnected n) v = disconnect-IsCurrent r v n
Step-IsCurrent {r} (unregistered n c) v = unregister-IsCurrent r v n c
Step-IsCurrent {r} (dropped c) v = drop_link-IsCurrent r v c

-- From a registry in which it holds, such as an empty one, through every sequence of registrations,
-- ends of connections and disconnects, in any order, each connection that is still served is the
-- registered one of its spoke or has been closed, and each registered connection is served.
pub Reach-IsCurrent : {r u : Registry} → Reach r u → IsCurrent r → IsCurrent u
Reach-IsCurrent here v = v
Reach-IsCurrent (next r st) v = Step-IsCurrent st (Reach-IsCurrent r v)
