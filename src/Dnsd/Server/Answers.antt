-- ===== src/Dnsd/Server/Answers.antt =====
-- `answerIPs`: the addresses that a reply's A and AAAA records carry, each once.
use llmbox.Prelude.{
  ℕ, ◌≡◌, sym, ap, ◌∙◌, ◌↔◌, ◌⊎◌, inl, inr, none, some, List, [], ◌∷◌, ◌++◌, arith, if◌then◌else◌,
  Any, In, In-append, contains, contains_iff, Option-cases, Bool-cases,
}
use llmbox.Netip.{Addr, addr_eq, unmap, addr_from_slice}
use llmbox.Dnsd.Server.{Rr, a, aaaa, other, add_ip, collect_ips, answer_ips}

-- The bytes spell an address that unwraps to `ip`.
abbrev Spells : Addr → List ℕ → Type 0
Spells ip bytes = (raw : Addr) × (addr_from_slice bytes ≡ some raw) × (unmap raw ≡ ip)

abbrev pub Carries : Addr → Rr → Type 0
Carries ip (a bytes) = Spells ip bytes
Carries ip (aaaa bytes) = Spells ip bytes
Carries ip other = ⊥

abbrev IsDistinct : List Addr → Type 0
IsDistinct [] = Unit
IsDistinct (x ∷ xs) = (¬ In x xs) × IsDistinct xs

IsDistinct-concat :
    (xs : List Addr) (x : Addr) → IsDistinct xs → ¬ In x xs → IsDistinct (xs ++ x ∷ [])
IsDistinct-concat [] x h out = ((λ i. i), tt)
IsDistinct-concat (y ∷ xs) x (fresh, h) out = (
  λ i. elim ((In-append y xs (x ∷ [])).0 i) [
    | inl old ↦ fresh old
    | inr (inl e) ↦ out (inl (sym e))
    | inr (inr none_left) ↦ none_left
  ],
  IsDistinct-concat xs x h (λ i. out (inr i)),
)

add_ip-none :
    (bytes : List ℕ) (out : List Addr) → addr_from_slice bytes ≡ none → add_ip bytes out ≡ out
unfolding add_ip
add_ip-none bytes out e = rw (e, add_ip)

add_ip-some :
    (bytes : List ℕ) (out : List Addr) (raw : Addr)
    → addr_from_slice bytes ≡ some raw
    → add_ip bytes out ≡ (if contains out (unmap raw) then out else out ++ unmap raw ∷ [])
unfolding add_ip
add_ip-some bytes out raw e = rw (e, add_ip)

module _ (ip : Addr) (bytes : List ℕ) (out : List Addr) where
  Spells-iff : (raw : Addr) → addr_from_slice bytes ≡ some raw → Spells ip bytes ↔ (unmap raw ≡ ip)
  Spells-iff raw e =
      (λ (raw', e', u). let same : raw ≡ raw' = ground arith in ap unmap same ∙ u, λ u. (raw, e, u))

  add_unmapped-In :
      (x : Addr) → In ip (if contains out x then out else out ++ x ∷ []) ↔ (In ip out ⊎ (x ≡ ip))
  add_unmapped-In x = elim (Bool-cases (contains out x)) [
    | inl seen ↦
        rw seen (inl, λ h. elim h [ inl i ↦ i | inr e ↦ rw (← e) ((contains_iff out x).0 seen) ])
    | inr new ↦ rw new (ground (arith, In-append ip out (x ∷ [])))
  ]

  add_ip-In : In ip (add_ip bytes out) ↔ (In ip out ⊎ Spells ip bytes)
  add_ip-In = elim (Option-cases (addr_from_slice bytes)) [
    | inl e ↦ rw (add_ip-none bytes out e) (inl, λ h. elim h [ inl i ↦ i | inr (raw, s, _) ↦ cc ])
    | inr (raw, e) ↦
        let (to, from) = add_unmapped-In (unmap raw) in
        let (spell, unspell) = Spells-iff raw e in
        rw (add_ip-some bytes out raw e) (
          λ i. elim (to i) [ inl old ↦ inl old | inr u ↦ inr (unspell u) ],
          λ h. from (elim h [ inl old ↦ inl old | inr sp ↦ inr (spell sp) ]),
        )
  ]

add_ip-IsDistinct :
    (bytes : List ℕ) (out : List Addr) → IsDistinct out → IsDistinct (add_ip bytes out)
add_ip-IsDistinct bytes out h = elim (Option-cases (addr_from_slice bytes)) [
  | inl e ↦ rw (add_ip-none bytes out e) h
  | inr (raw, e) ↦ rw (add_ip-some bytes out raw e) (elim (Bool-cases (contains out (unmap raw))) [
    | inl seen ↦ rw seen h
    | inr new ↦
        rw new (IsDistinct-concat out (unmap raw) h (λ i. cc ((contains_iff out (unmap raw)).1 i)))
  ])
]

-- One record of the loop, put in front of the rest.
through : {A B C D E : Type 0} → A ↔ (B ⊎ C) → B ↔ (D ⊎ E) → A ↔ (D ⊎ (E ⊎ C))
through (f, f') (g, g') = (
  λ a. elim (f a) [
    | inl b ↦ elim (g b) [ inl d ↦ inl d | inr e ↦ inr (inl e) ]
    | inr c ↦ inr (inr c)
  ],
  λ h. elim h [
    | inl d ↦ f' (inl (g' (inl d)))
    | inr (inl e) ↦ f' (inl (g' (inr e)))
    | inr (inr c) ↦ f' (inr c)
  ],
)

collect_ips-In :
    (ip : Addr) (rrs : List Rr) (out : List Addr)
    → In ip (collect_ips rrs out) ↔ (In ip out ⊎ Any (Carries ip) rrs)
unfolding collect_ips
collect_ips-In ip [] out = (inl, λ h. elim h [ inl i ↦ i | inr never ↦ absurd never ])
collect_ips-In ip (a bytes ∷ rrs) out =
    through (collect_ips-In ip rrs (add_ip bytes out)) (add_ip-In ip bytes out)
collect_ips-In ip (aaaa bytes ∷ rrs) out =
    through (collect_ips-In ip rrs (add_ip bytes out)) (add_ip-In ip bytes out)
collect_ips-In ip (other ∷ rrs) out =
    through (collect_ips-In ip rrs out) (inl, λ h. elim h [ inl i ↦ i | inr never ↦ absurd never ])

collect_ips-IsDistinct :
    (rrs : List Rr) (out : List Addr) → IsDistinct out → IsDistinct (collect_ips rrs out)
unfolding collect_ips
collect_ips-IsDistinct [] out h = h
collect_ips-IsDistinct (a bytes ∷ rrs) out h =
    collect_ips-IsDistinct rrs (add_ip bytes out) (add_ip-IsDistinct bytes out h)
collect_ips-IsDistinct (aaaa bytes ∷ rrs) out h =
    collect_ips-IsDistinct rrs (add_ip bytes out) (add_ip-IsDistinct bytes out h)
collect_ips-IsDistinct (other ∷ rrs) out h = collect_ips-IsDistinct rrs out h

-- The addresses to pin are those that an A or AAAA record carries, IPv4-mapped ones unwrapped, and
-- none is listed twice.
answer_ips_lem :
    (rrs : List Rr)
    → IsDistinct (answer_ips rrs) × ((ip : Addr) → In ip (answer_ips rrs) ↔ Any (Carries ip) rrs)
unfolding answer_ips
answer_ips_lem rrs = (
  collect_ips-IsDistinct rrs [] tt,
  λ ip.
      let (to, from) = collect_ips-In ip rrs [] in
      (λ i. elim (to i) [ inl never ↦ absurd never | inr c ↦ c ], λ c. from (inr c)),
)
