-- ===== src/Hub/Sessions/Looking/Order.antt =====
-- The order in which `lookupByBoxID` prefers records, apart from the tests of `betterBoxIDMatch`.
use llmbox.Prelude.{
  ◌≡◌, refl, sym, ◌∙◌, inl, inr, Bool, true, false, not, arith, if◌then◌else◌, Bool-cases, ℤ, pos,
  negsuc, ◌<ℤ◌, after, after_iff, str_le,
}
use llmbox.Hub.Records.{Session, World, terminated}
use llmbox.Hub.Sessions.Looking.{better, preferred, spoke_reachable}

unnegated : (b : Bool) → not b ≡ false → b ≡ true
unnegated true h = refl
unnegated false h = cc h

eq_of_not_after : (a b : ℤ) → after a b ≡ false → after b a ≡ false → a ≡ b
unfolding after
eq_of_not_after (pos a) (pos b) h g = ground arith
eq_of_not_after (pos a) (negsuc b) h g = ground arith
eq_of_not_after (negsuc a) (pos b) h g = ground arith
eq_of_not_after (negsuc a) (negsuc b) h g = ground arith

module _ (W : World) where
  -- The order in which records of one box ID are preferred: one that is not terminated, then one
  -- whose spoke is reachable, then the one created last, then the one with the smallest token.
  pub data Precedes (w : W.State) (best c : Session) : Type 0 where
    alive : terminated best ≡ false → terminated c ≡ true → Precedes w best c
    reachable :
        terminated best ≡ terminated c
        → spoke_reachable W best.spoke_name w ≡ true
        → spoke_reachable W c.spoke_name w ≡ false
        → Precedes w best c
    newer :
        terminated best ≡ terminated c
        → spoke_reachable W best.spoke_name w ≡ spoke_reachable W c.spoke_name w
        → c.created_at <ℤ best.created_at
        → Precedes w best c
    smaller_token :
        terminated best ≡ terminated c
        → spoke_reachable W best.spoke_name w ≡ spoke_reachable W c.spoke_name w
        → best.created_at ≡ c.created_at
        → str_le best.token c.token ≡ true
        → Precedes w best c

  by_age :
      (w : W.State) (best c : Session)
      → terminated best ≡ terminated c
      → spoke_reachable W best.spoke_name w ≡ spoke_reachable W c.spoke_name w
      → (if after c.created_at best.created_at
          then true
          else (if after best.created_at c.created_at
              then false
              else not (str_le best.token c.token)))
        ≡ false
      → Precedes w best c
  by_age w best c lives near h = elim (Bool-cases (after c.created_at best.created_at)) [
    | inl later ↦ cc (rw later at h)
    | inr no_later ↦ elim (Bool-cases (after best.created_at c.created_at)) [
      | inl earlier ↦ newer lives near ((after_iff best.created_at c.created_at).0 earlier)
      | inr no_earlier ↦
          smaller_token lives near
            (eq_of_not_after best.created_at c.created_at no_earlier no_later)
            (unnegated (str_le best.token c.token) (rw (no_later, no_earlier) at h))
    ]
  ]

  by_rank :
      (w : W.State) (best c : Session) (gone gone' near near' : Bool)
      → terminated best ≡ gone
      → terminated c ≡ gone'
      → spoke_reachable W best.spoke_name w ≡ near
      → spoke_reachable W c.spoke_name w ≡ near'
      → better c (not gone', near') best (not gone, near) ≡ false
      → Precedes w best c
  unfolding better
  by_rank w best c true false near near' e e' r r' h = cc h
  by_rank w best c false true near near' e e' r r' h = alive e e'
  by_rank w best c true true true false e e' r r' h = reachable (e ∙ sym e') r r'
  by_rank w best c true true false true e e' r r' h = cc h
  by_rank w best c true true true true e e' r r' h = by_age w best c (e ∙ sym e') (r ∙ sym r') h
  by_rank w best c true true false false e e' r r' h = by_age w best c (e ∙ sym e') (r ∙ sym r') h
  by_rank w best c false false true false e e' r r' h = reachable (e ∙ sym e') r r'
  by_rank w best c false false false true e e' r r' h = cc h
  by_rank w best c false false true true e e' r r' h = by_age w best c (e ∙ sym e') (r ∙ sym r') h
  by_rank w best c false false false false e e' r r' h = by_age w best c (e ∙ sym e') (r ∙ sym r') h

  pub preferred-Precedes :
      (w : W.State) (best c : Session) → preferred W w c best ≡ false → Precedes w best c
  preferred-Precedes w best c h = by_rank w best c _ _ _ _ refl refl refl refl h
