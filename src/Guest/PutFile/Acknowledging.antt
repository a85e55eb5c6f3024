-- ===== src/Guest/PutFile/Acknowledging.antt =====
-- That a file which the agent acknowledges was written.
use llmbox.Prelude.{
  ℕ, ◌≤◌, ◌≡◌, ◌≢◌, refl, ap, subst, true, Option, none, some, [], ◌∷◌, ◌++◌, arith, ℤ, pos, negsuc,
  length, take, Str, codes, inl, inr, Option-cases, Bool-cases,
}
use llmbox.Netfw.Firewall.{Error}
use llmbox.Guest.Words.{Bytes}
use llmbox.Guest.Agent.{Os, Agent, then_do, file_mode}
use llmbox.Guest.PutFile.{
  PutFileReq, is_abs, finished, chowned, copy_ended, copy_n, chmodded, closed, copied, created,
  write_put_file, respond, streamed, delivered, handle_put_file,
}

module _ (O : Os) where
  then_do_done :
      (what : Str) (f g : O.State → O.State × Error) (s : O.State)
      → (then_do O what f g s).1 ≡ none
      → ((f s).1 ≡ none) × ((g (f s).0).1 ≡ none)
  then_do_done what f g s h = elim (Option-cases (f s).1) [
    | inl fine ↦ (fine, rw (fine, then_do) at h)
    | inr (e, broken) ↦ cc (rw (broken, then_do) at h)
  ]

  then_do_said :
      (what : Str) (c : ℕ) (f g : O.State → O.State × Error) (s : O.State)
      → ((t : O.State) → (g t).1 ≢ some [])
      → (then_do O (c ∷ what) f g s).1 ≢ some []
  then_do_said what c f g s said h = elim (Option-cases (f s).1) [
    | inl fine ↦ said (f s).0 (rw (fine, then_do) at h)
    | inr (e, broken) ↦ cc (rw (broken, then_do) at h)
  ]

  respond_fine : (p : O.State × Error) → (respond O p).1.err ≡ [] → p.1 ≢ some [] → p.1 ≡ none
  respond_fine (t, none) h said = refl
  respond_fine (t, some e) h said = absurd (said (ap some h))

  copy_ended_done :
      (path : Str) (e : Error) (r : O.State × Error)
      → (copy_ended O path e r).1 ≡ none
      → (r.1 ≡ none) × (e ≡ none)
  copy_ended_done path e (t, some x) h = cc h
  copy_ended_done path (some y) (t, none) h = cc h
  copy_ended_done path none (t, none) h = (refl, refl)

  chowned_said : (a : Agent) (path : Str) (t : O.State) → (chowned O a path t).1 ≢ some []
  chowned_said a path t = go a.cred refl
    where
      go : (c : Option (ℕ × ℕ)) → a.cred ≡ c → (chowned O a path t).1 ≢ some []
      go none e = rw e (λ h. cc h)
      go (some (u, g)) e = rw e (
          then_do_said (codes "hown " ++ path) b'c' (O.chown path (pos u) (pos g)) (finished O) t
            (λ (v : O.State) h. cc h))

  write_put_file_said :
      (a : Agent) (req : PutFileReq) (b : Bytes) (e : Error) (s : O.State)
      → (write_put_file O a req b e s).1 ≢ some []
  unfolding write_put_file
  write_put_file_said a req b e s =
      then_do_said (codes "reating dir for " ++ req.path) b'c' (O.mkdir_parent req.path)
        (created O a req b e) s
        (λ t.
          then_do_said (codes "reating " ++ req.path) b'c' (O.create req.path (file_mode req.mode))
            (copied O a req b e) t
            (λ u.
              then_do_said (codes "riting " ++ req.path) b'w' (copy_n O req.path b e)
                (closed O a req) u
                (λ v.
                  then_do_said (codes "losing " ++ req.path) b'c' (O.close req.path)
                    (chmodded O a req) v
                    (λ w.
                      then_do_said (codes "hmod " ++ req.path) b'c'
                        (O.chmod req.path (file_mode req.mode)) (chowned O a req.path) w
                        (chowned_said a req.path)))))

  delivered_all :
      (n : ℕ) (r : Bytes)
      → (delivered n r).1 ≡ none
      → (n ≤ length r) × ((delivered n r).0 ≡ take n r)
  delivered_all n r h = ground arith

  -- The system once the file was created.
  abbrev pub opened : PutFileReq → O.State → O.State
  opened req s = (O.create req.path (file_mode req.mode) (O.mkdir_parent req.path s).0).0

  abbrev pub IsWritten : PutFileReq → Bytes → O.State → ℕ → Type 0
  IsWritten req r s n = (n ≤ length r) × ((O.append req.path (take n r) (opened req s)).1 ≡ none)

  write_put_file_done :
      (a : Agent) (req : PutFileReq) (n : ℕ) (r : Bytes) (s : O.State)
      → (write_put_file O a req (delivered n r).0 (delivered n r).1 s).1 ≡ none
      → IsWritten req r s n
  unfolding write_put_file
  write_put_file_done a req n r s h =
      let b = (delivered n r).0 in
      let e = (delivered n r).1 in
      let (_, made) =
        then_do_done (codes "creating dir for " ++ req.path) (O.mkdir_parent req.path)
          (created O a req b e) s h in
      let (_, copying) =
        then_do_done (codes "creating " ++ req.path) (O.create req.path (file_mode req.mode))
          (copied O a req b e) (O.mkdir_parent req.path s).0 made in
      let (done, _) =
        then_do_done (codes "writing " ++ req.path) (copy_n O req.path b e) (closed O a req)
          (opened req s) copying in
      let (wrote, all) = copy_ended_done req.path e (O.append req.path b (opened req s)) done in
      let (long, same) = delivered_all n r all in
      (long, subst (λ x. (O.append req.path x (opened req s)).1 ≡ none) same wrote)

  -- When a file is acknowledged without an error, its path is absolute, the stream has delivered
  -- all bytes of the size that its header has, and those were appended to the file that was
  -- created under the path without an error.
  pub put_file_acknowledged :
      (a : Agent) (req : PutFileReq) (r : Bytes) (s : O.State)
      → (handle_put_file O a req r s).1.err ≡ []
      → (is_abs req.path ≡ true) × ((n : ℕ) × (req.size ≡ pos n) × IsWritten req r s n)
  unfolding handle_put_file
  put_file_acknowledged a req r s h = elim (Bool-cases (is_abs req.path)) [
    | inr other ↦ cc (rw other at h)
    | inl rooted ↦ (rooted, go req.size refl (rw rooted at h))
  ]
    where
      go :
          (z : ℤ)
          → req.size ≡ z
          → (streamed O a req r s z).1.err ≡ []
          → (n : ℕ) × (req.size ≡ pos n) × IsWritten req r s n
      go (negsuc n) e said = cc said
      go (pos n) e said =
          let b = (delivered n r).0 in
          let x = (delivered n r).1 in
          (
            n,
            e,
            write_put_file_done a req n r s (
                respond_fine (write_put_file O a req b x s) said (write_put_file_said a req b x s)),
          )
