-- ===== src/Hub/Sessions/Destroying.antt =====
-- What a `destroyBox` leaves of the records.
use llmbox.Prelude.{
  ◌≡◌, refl, inl, inr, not, Option, none, some, Bool-cases, Str, Table, keep, Result, ok, failed,
}
use llmbox.Box.Provisioner.{Failure, not_found, other}
use llmbox.Hub.Records.{Session, World, terminated}
use llmbox.Hub.Sessions.{Server, spoke}
use llmbox.Hub.Sessions.Forgetting.{
  box_matches, first_match, spoke_hosting_box, forget, destroyed, destroy_on, destroy_hosted,
  destroy_matched, destroy_box,
}

-- The records that a destroy of the name spares.
abbrev pub spared : Str → Table Str Session → Table Str Session
spared id = keep (λ tok s. not (box_matches id s))

module _ (W : World) where
  -- Without an error, exactly the records that match are gone, and with one, none.
  abbrev pub Destroys : Str → Server W → Server W × Option Failure → Type 0
  Destroys id srv (t, none) = t.by_token ≡ spared id srv.by_token
  Destroys id srv (t, some e) = t.by_token ≡ srv.by_token

  forget-spared : (id : Str) (srv : Server W) → (forget W id srv).by_token ≡ spared id srv.by_token
  unfolding forget
  forget-spared id srv = refl

  destroyed-Destroys :
      (id : Str) (srv : Server W) (r : W.State × Option Failure)
      → Destroys id srv (destroyed W id srv r)
  destroyed-Destroys id srv (w, none) = forget-spared id (record srv { world = w })
  destroyed-Destroys id srv (w, some (not_found e)) = forget-spared id (record srv { world = w })
  destroyed-Destroys id srv (w, some (other e)) = refl

  destroy_on-Destroys :
      (id : Str) (srv : Server W) (r : Result Str Str) → Destroys id srv (destroy_on W id srv r)
  destroy_on-Destroys id srv (failed e) = refl
  destroy_on-Destroys id srv (ok name) = destroyed-Destroys id srv (W.destroy name id srv.world)

  destroy_hosted-Destroys :
      (id : Str) (srv : Server W) (r : W.State × Option Str)
      → Destroys id srv (destroy_hosted W id srv r)
  destroy_hosted-Destroys id srv (w, none) = forget-spared id (record srv { world = w })
  destroy_hosted-Destroys id srv (w, some name) =
      destroyed-Destroys id (record srv { world = w }) (W.destroy name id w)

  destroy_matched-Destroys :
      (id : Str) (srv : Server W) (o : Option Session)
      → Destroys id srv (destroy_matched W id srv o)
  destroy_matched-Destroys id srv none =
      destroy_hosted-Destroys id srv (spoke_hosting_box W id (W.spokes srv.world) srv.world)
  destroy_matched-Destroys id srv (some s) = elim (Bool-cases (terminated s)) [
    | inl gone ↦ rw gone (forget-spared id srv)
    | inr live ↦ rw live (destroy_on-Destroys id srv (spoke W s.spoke_name srv.world))
  ]

  -- A destruction without an error has removed exactly the records that the name matches, and one
  -- with an error has removed none, whether the record was found, was a tombstone, or the box was
  -- looked for on the spokes.
  pub destroy_box-Destroys : (id : Str) (srv : Server W) → Destroys id srv (destroy_box W id srv)
  unfolding destroy_box
  destroy_box-Destroys id srv = destroy_matched-Destroys id srv (first_match id srv.by_token)
