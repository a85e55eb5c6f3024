-- ===== src/Cluster/Handshake.antt =====
-- internal/shared/cluster/hub.go, `enroll` and the first half of `ConnectHandler`: one handshake,
-- with the frames that reach the spoke. The JSON codec and the transport are parameters.
use llmbox.Prelude.{
  ℕ, ◌≡◌, refl, inl, inr, none, some, List, [], ◌∷◌, ◌++◌, arith, ℤ, Str, codes, Result, ok, failed,
  Result-cases, Option-cases,
}
use llmbox.Netfw.Firewall.{Error}
use llmbox.Cluster.Store.{Store}
use llmbox.Cluster.Tokens.{EnrollReq, EnrollError, rejected, internal, bare, authenticate_enroll}

-- The frame types of a handshake; any other type is `other`.
pub data FrameType : Type 0 where
  enroll_frame welcome_frame err_frame other_frame : FrameType

pub record Frame : Type 0 where
  pub type : FrameType
  pub payload : Str
  pub error : Str

-- The JSON codec of the payloads.
pub record Codec : Type 0 where
  pub decode_req : Str → Result Str EnrollReq
  pub encode_welcome : Str × Str → Result Str Str

abbrev pub rejection : Frame
rejection = record { type = err_frame; payload = []; error = codes "enrollment rejected" }

module _ (sum256 : Str → List ℕ) (S : Store) (C : Codec) (send : Frame → Error) where
  -- The store that a handshake leaves, the frames that reach the spoke, and the spoke's name.
  pub record Handshake : Type 0 where
    pub state : S.State
    pub delivered : List Frame
    pub admitted : Result EnrollError Str

  abbrev refuse : EnrollError → S.State → Handshake
  refuse e s = record { state = s; delivered = []; admitted = failed e }

  welcome : Str → Str → S.State → Handshake
  welcome name credential s = elim (C.encode_welcome (name, credential)) [
    | failed e ↦ refuse (internal e) s
    | ok payload ↦
        let frame : Frame = record { type = welcome_frame; payload = payload; error = [] } in
        elim (send frame) [
          | some e ↦ refuse (internal e) s
          | none ↦ record { state = s; delivered = frame ∷ []; admitted = ok name }
        ]
  ]

  enroll_request : EnrollReq → ℤ → Result Str (List ℕ) → S.State → Handshake
  unfolding welcome
  enroll_request req now random s =
      let called = authenticate_enroll sum256 S req now random s in
      elim called.1 [
        | failed e ↦ refuse e called.0
        | ok (name, credential) ↦ welcome name credential called.0
      ]

  first_frame : Frame → FrameType → ℤ → Result Str (List ℕ) → S.State → Handshake
  unfolding enroll_request
  first_frame f enroll_frame now random s = elim (C.decode_req f.payload) [
    | failed e ↦ refuse (internal e) s
    | ok req ↦ enroll_request req now random s
  ]
  first_frame f _ now random s = refuse (rejected bare) s

  -- `enroll`, of what the transport receives first.
  enroll : Result Str Frame → ℤ → Result Str (List ℕ) → S.State → Handshake
  unfolding first_frame
  enroll (failed e) now random s = refuse (internal e) s
  enroll (ok f) now random s = first_frame f f.type now random s

  -- `ConnectHandler` up to the registration: a failed handshake is answered and closed.
  unfoldable pub connect : Result Str Frame → ℤ → Result Str (List ℕ) → S.State → Handshake
  unfolding enroll
  connect received now random s =
      let shaken = enroll received now random s in
      elim shaken.admitted [
        | ok name ↦ shaken
        | failed e ↦ record shaken {
          delivered =
              shaken.delivered ++ elim (send rejection) [ none ↦ rejection ∷ [] | some e ↦ [] ];
        }
      ]

  abbrev IsSilent : Handshake → Type 0
  IsSilent h = (e : EnrollError) → h.admitted ≡ failed e → h.delivered ≡ []

  welcome-IsSilent : (name credential : Str) (s : S.State) → IsSilent (welcome name credential s)
  unfolding welcome
  welcome-IsSilent name credential s e refused =
      elim (Result-cases (C.encode_welcome (name, credential))) [
        | inr (_, unencoded) ↦ ground arith
        | inl (payload, encoded) ↦
            elim (Option-cases
              (send (record { type = welcome_frame; payload = payload; error = [] }))) [
                | inl sent ↦ ground arith
                | inr (_, unsent) ↦ ground arith
              ]
      ]

  request-IsSilent :
      (req : EnrollReq) (now : ℤ) (random : Result Str (List ℕ)) (s : S.State)
      → IsSilent (enroll_request req now random s)
  unfolding enroll_request
  request-IsSilent req now random s e refused =
      elim (Result-cases (authenticate_enroll sum256 S req now random s).1) [
        | inr (_, denied) ↦ rw (denied, enroll_request) refl
        | inl (w, admitted) ↦
            rw (admitted, enroll_request)
              (welcome-IsSilent w.0 w.1 (authenticate_enroll sum256 S req now random s).0 e
                (rw (admitted, enroll_request) at refused))
      ]

  enroll-IsSilent :
      (received : Result Str Frame) (now : ℤ) (random : Result Str (List ℕ)) (s : S.State)
      → IsSilent (enroll received now random s)
  unfolding enroll first_frame
  enroll-IsSilent (failed e) now random s = λ _ _. refl
  enroll-IsSilent (ok f) now random s = by_type f.type
    where
      by_type : (t : FrameType) → IsSilent (first_frame f t now random s)
      by_type enroll_frame e refused = elim (Result-cases (C.decode_req f.payload)) [
        | inr (_, undecoded) ↦ rw (undecoded, first_frame) refl
        | inl (req, decoded) ↦
            rw (decoded, first_frame)
              (request-IsSilent req now random s e (rw (decoded, first_frame) at refused))
      ]
      by_type welcome_frame e refused = refl
      by_type err_frame e refused = refl
      by_type other_frame e refused = refl

  -- A peer whose handshake fails receives the one rejection frame, or no frame if it cannot be
  -- sent, whatever the reason of the failure.
  pub refusal_tells_nothing :
      (received : Result Str Frame) (now : ℤ) (random : Result Str (List ℕ)) (s : S.State)
      (e : EnrollError)
      → (connect received now random s).admitted ≡ failed e
      → (connect received now random s).delivered
        ≡ elim (send rejection) [ none ↦ rejection ∷ [] | some e ↦ [] ]
  unfolding connect
  refusal_tells_nothing received now random s e refused =
      elim (Result-cases (enroll received now random s).admitted) [
        | inl (name, admitted) ↦ cc (rw (admitted, connect) at refused)
        | inr (err, denied) ↦
            rw (denied, connect, enroll-IsSilent received now random s err denied) refl
      ]
