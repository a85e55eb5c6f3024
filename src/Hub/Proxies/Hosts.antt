-- ===== src/Hub/Proxies/Hosts.antt =====
-- internal/hub/proxy.go, `proxySlugFromHost`: the slug in the host of a request.
use llmbox.Prelude.{
  ℕ, ◌≡◌, ◌≢◌, refl, sym, ap, ◌∙◌, inl, inr, Bool, true, false, ◌||◌, Option, none, some, [], ◌∷◌,
  ◌++◌, arith, Bool-cases, if◌then◌else◌, length, length-append, beq_refl, ◌↔◌, has_suffix_split,
  Str, str_eq, str_beq, str_beq_iff, ◌==◌, nat_beq, to_lower, has_suffix, has_suffix-append,
}

-- `strings.TrimSuffix`: the text without a suffix that it has.
pub trim_suffix : Str → Str → Str
trim_suffix [] t = []
trim_suffix (c ∷ s) t = if str_beq (c ∷ s) t then [] else c ∷ trim_suffix s t

pub has_dot : Str → Bool
has_dot [] = false
has_dot (c ∷ s) = nat_beq c b'.' || has_dot s

abbrev label_of : Str → Option Str
label_of label = if label == [] || has_dot label then none else some label

abbrev pub suffix : Str → Str
suffix base = b'.' ∷ to_lower base

abbrev slug_in : Str → Str → Option Str
slug_in base host =
    if has_suffix host (suffix base) then label_of (trim_suffix host (suffix base)) else none

module _ (split_host_port : Str → Option Str) where
  abbrev pub portless : Str → Str
  portless host = elim (split_host_port host) [ some h ↦ h | none ↦ host ]

  -- `proxySlugFromHost`.
  pub proxy_slug_from_host : Str → Str → Option Str
  unfolding has_suffix trim_suffix has_dot to_lower
  proxy_slug_from_host base host =
      if base == [] then none else slug_in base (to_lower (trim_suffix (portless host) (b'.' ∷ [])))

longer : (c : ℕ) (p t : Str) → str_beq (c ∷ p ++ t) t ≡ false
longer c p t = elim (Bool-cases (str_beq (c ∷ p ++ t) t)) [
  | inr differ ↦ differ
  | inl same ↦
      let e = ap length ((str_beq_iff (c ∷ p ++ t) t).0 same) in
      absurd (omega (arith, e, length-append p t))
]

trim_suffix-append : (p t : Str) → trim_suffix (p ++ t) t ≡ p
unfolding trim_suffix
trim_suffix-append [] [] = refl
trim_suffix-append [] (c ∷ t) = rw (beq_refl (c ∷ t)) refl
trim_suffix-append (c ∷ p) t = rw (longer c p t) (ap (λ s. c ∷ s) (trim_suffix-append p t))

-- The label that a host puts in front of the suffix.
abbrev pub Names : Str → Str → Str → Type 0
Names base host slug = (host ≡ slug ++ suffix base) × (slug ≢ []) × (has_dot slug ≡ false)

label_of_iff :
    (label slug : Str)
    → (label_of label ≡ some slug) ↔ ((label ≡ slug) × (slug ≢ []) × (has_dot slug ≡ false))
label_of_iff label slug = (to, from)
  where
    to : label_of label ≡ some slug → (label ≡ slug) × (slug ≢ []) × (has_dot slug ≡ false)
    to h = elim (Bool-cases (label == [] || has_dot label)) [
      | inl bad ↦ cc (rw bad at h)
      | inr good ↦
          let same : label ≡ slug = cc (rw good at h) in
          let plain : has_dot label ≡ false = ground arith in
          let empty : (label == []) ≡ false = ground arith in
          let some_label : label ≢ [] = ground (arith, str_beq_iff label []) in
          (same, (λ e. some_label (same ∙ e)), ap has_dot (sym same) ∙ plain)
    ]

    from : (label ≡ slug) × (slug ≢ []) × (has_dot slug ≡ false) → label_of label ≡ some slug
    from (same, named, plain) =
        let given : (label == []) ≡ false = ground (arith, str_beq_iff label [], named_label) in
        let dotless : has_dot label ≡ false = ap has_dot same ∙ plain in
        rw (given, dotless) (ap some same)
      where
        named_label : label ≢ []
        named_label e = named (sym same ∙ e)

slug_in_iff : (base host slug : Str) → (slug_in base host ≡ some slug) ↔ Names base host slug
slug_in_iff base host slug = (to, from)
  where
    to : slug_in base host ≡ some slug → Names base host slug
    to h = elim (Bool-cases (has_suffix host (suffix base))) [
      | inr out ↦ cc (rw out at h)
      | inl sub ↦
          let (p, e) = has_suffix_split host (suffix base) sub in
          let trimmed =
            ap (λ x. trim_suffix x (suffix base)) e ∙ trim_suffix-append p (suffix base) in
          let (same, named, plain) =
            (label_of_iff (trim_suffix host (suffix base)) slug).0 (rw sub at h) in
          (e ∙ ap (λ x. x ++ suffix base) (sym trimmed ∙ same), named, plain)
    ]

    from : Names base host slug → slug_in base host ≡ some slug
    from (e, named, plain) =
        let sub : has_suffix host (suffix base) ≡ true =
          ap (λ x. has_suffix x (suffix base)) e ∙ has_suffix-append slug (suffix base) in
        let trimmed =
          ap (λ x. trim_suffix x (suffix base)) e ∙ trim_suffix-append slug (suffix base) in
        rw sub ((label_of_iff (trim_suffix host (suffix base)) slug).1 (trimmed, named, plain))

-- A host gives a slug exactly when there is a base domain, and the host, without its port and a
-- last dot and in lower case, is the slug, a dot and the base domain in lower case, where the slug
-- is not empty and has no dot.
pub proxy_slug_from_host_iff :
    (split_host_port : Str → Option Str) (base host slug : Str)
    → (proxy_slug_from_host split_host_port base host ≡ some slug) ↔ (
        (base ≢ [])
        × Names base (to_lower (trim_suffix (portless split_host_port host) (b'.' ∷ []))) slug)
unfolding proxy_slug_from_host
proxy_slug_from_host_iff split base host slug = (to, from)
  where
    bare : Str
    bare = to_lower (trim_suffix (portless split host) (b'.' ∷ []))

    to : proxy_slug_from_host split base host ≡ some slug → (base ≢ []) × Names base bare slug
    to h = elim (Bool-cases (base == [])) [
      | inl off ↦ cc (rw off at h)
      | inr on ↦ (ground (arith, str_beq_iff base []), (slug_in_iff base bare slug).0 (rw on at h))
    ]

    from : (base ≢ []) × Names base bare slug → proxy_slug_from_host split base host ≡ some slug
    from (given, names) =
        let on : (base == []) ≡ false = ground (arith, str_beq_iff base []) in
        rw on ((slug_in_iff base bare slug).1 names)
