-- ===== src/Cluster/Examples.antt =====
-- Enrollment at concrete inputs, over the hub's database and with a digest that returns its input.
use llmbox.Prelude.{
  ℕ, ◌≡◌, ◌≢◌, refl, sym, ap, ◌∙◌, ◌⊎◌, none, some, List, [], ◌∷◌, arith, pos, after, ◌+ℤ◌, Str,
  codes, str_eq, nat_eq, get, put, del, str_beq, Result, ok, keep, cut_prefix,
}
use llmbox.Netfw.Firewall.{Error}
use llmbox.HubStore.Rows.{empty, select, upsert}
use llmbox.HubStore.Rows
use llmbox.HubStore.Database
use llmbox.HubStore.Database.{Database}
use llmbox.HubStore.Clustering.{sqlite}
use llmbox.Cluster.Store.{JoinTokenRecord}
use llmbox.Cluster.Secrets.{hex, new_secret, hash_secret, same_hash}
use llmbox.Cluster.Tokens.{
  EnrollReq, rejected, token_unknown, create_join_token, enroll_with_join_token, reconnect,
  authenticate_enroll,
}
use llmbox.Cluster.Tokens.Admitting.{IsJoined, IsKnown, authenticate_enroll_lem}
use llmbox.Cluster.Tokens.Spending.{
  minted_other, here, next, spent_token_admits_nobody, join_round_trip,
}
use llmbox.Cluster.Revoking.{selects, revoke_join_tokens, delete_each}
use llmbox.Cluster.Handshake.{Frame, Codec, enroll_frame, connect, rejection, refusal_tells_nothing}
use llmbox.Cluster.Registry.{Registry, register, unregister}
use llmbox.Cluster.Registry.Superseding

abbrev digest : Str → List ℕ
digest s = s

abbrev blank : Database
blank = record {
  faults = [];
  join_tokens = empty;
  spokes = empty;
  api_keys = empty;
  groups = empty;
  group_domains = [];
  box_groups = [];
}

abbrev web : Str
web = codes "web"

abbrev secret : Str
secret = codes "01"

abbrev credential : Str
credential = codes "02"

abbrev drawn : ℕ → Result Str (List ℕ)
drawn n = ok (n ∷ [])

abbrev minted : Database
minted = (create_join_token digest sqlite web [] (pos 60) (pos 0) (drawn 1) blank).0

abbrev joined : Database
joined = (enroll_with_join_token digest sqlite secret (pos 30) (drawn 2) minted).0

abbrev known : EnrollReq
known = record { join_token = []; name = web; credential = credential }

-- What the examples compute with.
computing : Unit {0}
unfolding create_join_token enroll_with_join_token reconnect delete_each authenticate_enroll
    new_secret hex hash_secret same_hash after ◌+ℤ◌ str_beq get put del keep Rows.select Rows.upsert
    Rows.remove Database.put_join_token Database.take_join_token Database.list_join_tokens
    Database.delete_join_token Database.put_spoke Database.get_spoke Database.statement
    Database.exec selects revoke_join_tokens cut_prefix
computing = tt

other_secret :
    (s : Str) → new_secret (drawn 3) ≡ ok s → hash_secret digest secret ≢ hash_secret digest s
unfolding computing
other_secret s e same =
    let drawn_text : codes "03" ≡ s = cc e in
    ground (arith, same ∙ ap (hash_secret digest) (sym drawn_text))

abbrev later : Database
later = (create_join_token digest sqlite (codes "db") [] (pos 60) (pos 40) (drawn 3) joined).0

spent_token_admits_nobody_example :
    (enroll_with_join_token digest sqlite secret (pos 50) (drawn 4) later).1 ≢ ok (web, codes "04")
unfolding computing
spent_token_admits_nobody_example =
    spent_token_admits_nobody digest sqlite secret (pos 30) (pos 50) (drawn 2) (drawn 4) minted
      later (web, credential) (web, codes "04") refl
      (next here (minted_other (codes "db") [] (pos 60) (pos 40) (drawn 3) other_secret))

join_round_trip_example :
    ((enroll_with_join_token digest sqlite secret (pos 30) (drawn 2) minted).1
      ≡ ok (web, credential))
    × ((reconnect digest sqlite known joined).1 ≡ none)
unfolding computing
join_round_trip_example =
    join_round_trip digest sqlite web [] (pos 60) (pos 0) (pos 30) (drawn 1) (drawn 2) blank secret
      credential (some (record { name = web; backend = []; expires_at = pos 60 }))
      (some (record {
        name = web;
        credential_hash = hash_secret digest credential;
        enrolled_at = pos 30;
      }))
      refl refl refl refl (λ e. ground arith) refl refl

authenticate_enroll_lem_example :
    ((known.join_token ≢ [])
      × IsJoined digest sqlite known.join_token
          (pos 50)
          joined
          (authenticate_enroll digest sqlite known (pos 50) (drawn 4) joined).0
          (web, []))
    ⊎ ((known.join_token ≡ []) × IsKnown digest sqlite known joined (web, []))
unfolding computing
authenticate_enroll_lem_example =
    authenticate_enroll_lem digest sqlite (pos 50) (drawn 4) joined known (web, []) refl

abbrev guessing : EnrollReq
guessing = record { join_token = codes "ff"; name = []; credential = [] }

abbrev codec : Codec
codec = record { decode_req = λ payload. ok guessing; encode_welcome = λ w. ok w.0 }

abbrev guess : Frame
guess = record { type = enroll_frame; payload = codes "ff"; error = [] }

abbrev delivers : Frame → Error
delivers _ = none

refusal_tells_nothing_example :
    (connect digest sqlite codec delivers (ok guess) (pos 5) (drawn 4) minted).delivered
    ≡ rejection ∷ []
unfolding computing connect
refusal_tells_nothing_example =
    refusal_tells_nothing digest sqlite codec delivers (ok guess) (pos 5) (drawn 4) minted
      (rejected token_unknown) refl

abbrev nobody : Registry
nobody = record { spokes = []; closed = []; serving = [] }

nobody-IsCurrent : Superseding.IsCurrent nobody
unfolding get
nobody-IsCurrent = record { superseded = λ n c i. absurd i; served = λ n c h. ground arith }

-- A second connection of a spoke, and then the end of the first.
Reach-IsCurrent_example :
    Superseding.IsCurrent (unregister web 1 (register web 2 (register web 1 nobody)))
Reach-IsCurrent_example =
    Superseding.Reach-IsCurrent
      (Superseding.next
        (Superseding.next (Superseding.next Superseding.here (Superseding.registered web 1))
          (Superseding.registered web 2))
        (Superseding.unregistered web 1))
      nobody-IsCurrent

abbrev minted_record : JoinTokenRecord
minted_record = record { name = web; backend = []; expires_at = pos 60 }

abbrev id : Str
id = hash_secret digest secret

-- Both tokens' IDs start with the digit of their secrets' first byte.
abbrev two_tokens : Database
two_tokens = (create_join_token digest sqlite web [] (pos 60) (pos 0) (drawn 3) minted).0
