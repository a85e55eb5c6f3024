-- ===== src/Isolation/Releasing.antt =====
-- `Configure` and `Release` keep the pins backed, and what they leave of a box.
use llmbox.Prelude.{
  ◌≡◌, ◌≢◌, sym, ◌∙◌, false, none, List, [], arith, if◌then◌else◌, Str, str_eq, str_beq_iff, ◌==◌,
  get, get-put, get-del, pair_eq, ◌∷◌, beq_refl,
}
use llmbox.Netip.{Addr, addr_eq}
use llmbox.Netfw.Firewall.{Programmer}
use llmbox.Netfw.Pinner.{PinKey, IsBacked, forget}
use llmbox.Netfw.Pinner.Running.{get-forget_if, forget-teardown-IsBacked}
use llmbox.Dnsd.Policy.{Rule, StaticPolicy, set, remove, rules_of}
use llmbox.Dnsd.Policy.Deciding.{box_rules}
use llmbox.Isolation.{Enforcer, release}

module _ (p : StaticPolicy) (box b : Str) where
  pub box_rules-set :
      (rules : List Rule) → b ≢ box → box_rules (set b rules p) box ≡ box_rules p box
  unfolding set
  box_rules-set [] other = ground (arith, get-del b box p, str_beq_iff b box)
  box_rules-set (r ∷ rules) other = ground (arith, get-put b box (r ∷ rules) p, str_beq_iff b box)

  box_rules-remove : box_rules (remove b p) box ≡ (if b == box then [] else box_rules p box)
  unfolding remove rules_of
  box_rules-remove = ground (arith, get-del b box p)

-- A box that the resolver and the firewall deny everything.
pub record IsDenied (P : Programmer) (box : Str) (e : Enforcer P) : Type 0 where
  pub no_rules : box_rules e.policy box ≡ []
  pub no_pins : (ip : Addr) → get {K = PinKey} (box, ip) e.net.inner.pins ≡ none
  pub closed : (ip : Addr) → P.is_open e.net.inner.fw (box, ip) ≡ false

module _ (P : Programmer) (b : Str) (e : Enforcer P) where
  release_no_error : (release P b e).1 ≡ none → (P.teardown b e.net.inner.fw).1 ≡ none
  unfolding release forget
  release_no_error h = ground arith

  pub release-IsBacked : IsBacked P e.net.inner → IsBacked P (release P b e).0.net.inner
  unfolding release forget
  release-IsBacked v = forget-teardown-IsBacked P b e.net.inner v

  get-release :
      (k : PinKey)
      → IsBacked P e.net.inner
      → get k (release P b e).0.net.inner.pins ≡ (if k.0 == b then none else get k e.net.inner.pins)
  unfolding release
  get-release k v = get-forget_if P b e.net.inner k v

  -- From a state whose pins are backed, a release that returns nil leaves its box with no rule,
  -- no pin and no open address.
  pub release-IsDenied :
      IsBacked P e.net.inner → (release P b e).1 ≡ none → IsDenied P b (release P b e).0
  unfolding release forget
  release-IsDenied v done = record {
    no_rules = box_rules-remove e.policy b b ∙ rw (beq_refl {A = Str} b);
    no_pins = λ ip. get-release (b, ip) v ∙ rw (beq_refl {A = Str} b);
    closed = λ ip. P.teardown_closes b ip e.net.inner.fw (release_no_error done);
  }

  -- From a state whose pins are backed, a release leaves the rules, the pins and the open
  -- addresses of every other box as they were.
  pub release_frame :
      (box : Str) (ip : Addr)
      → IsBacked P e.net.inner
      → b ≢ box
      → (box_rules (release P b e).0.policy box ≡ box_rules e.policy box)
        × (get {K = PinKey} (box, ip) (release P b e).0.net.inner.pins
            ≡ get {K = PinKey} (box, ip) e.net.inner.pins)
        × (P.is_open (release P b e).0.net.inner.fw (box, ip) ≡ P.is_open e.net.inner.fw (box, ip))
  unfolding release forget
  release_frame box ip v other = (
    box_rules-remove e.policy box b ∙ ground (arith, str_beq_iff b box),
    get-release (box, ip) v ∙ ground (arith, str_beq_iff box b),
    P.teardown_frame b e.net.inner.fw (box, ip) (λ e. other (sym e)),
  )
