-- ===== src/Guest/PutFile.antt =====
-- internal/guest/guest.go, `handlePutFile` and `writePutFile`: a file that is streamed into the box
-- behind its header, and acknowledged when it is written.
pub mod Acknowledging
use llmbox.Prelude.{
  ℕ, ◌+◌, ◌-◌, ◌≤◌, ◌<◌, ◌≡◌, ◌≢◌, refl, sym, subst, ap, ◌∙◌, Bool, true, false, Option, none, some,
  List, [], ◌∷◌, ◌++◌, arith, ℤ, pos, negsuc, leb, nat_beq, if◌then◌else◌, length, take, drop, Str,
  codes, str_eq, str_beq, ◌==◌, decimal, Result, ok, failed, inl, inr, ◌⊎◌, Option-cases,
  Bool-cases,
}
use llmbox.Netfw.Firewall.{Error}
use llmbox.Guest.Words.{Bytes, read_full, read_full-append}
use llmbox.Guest.Agent.{Os, Agent, Response, then_do, file_mode}

-- `putFileReq`.
pub record PutFileReq : Type 0 where
  pub path : Str
  pub mode : ℤ
  pub size : ℤ

-- `filepath.IsAbs`.
abbrev pub is_abs : Str → Bool
is_abs [] = false
is_abs (c ∷ _) = nat_beq c b'/'

abbrev relative : Str → Str
relative path = codes "putfile path " ++ (b'"' ∷ path ++ b'"' ∷ codes " must be absolute")

-- What a stream that holds `r` gives a reader of `n` bytes.
abbrev pub delivered : ℕ → Bytes → Bytes × Error
delivered n r = if leb n (length r) then (take n r, none) else (r, some (codes "EOF"))

module _ (O : Os) where
  abbrev pub finished : O.State → O.State × Error
  finished s = (s, none)

  abbrev pub chowned : Agent → Str → O.State → O.State × Error
  chowned a path = elim a.cred [
    | none ↦ finished
    | some (u, g) ↦ then_do O (codes "chown " ++ path) (O.chown path (pos u) (pos g)) finished
  ]

  -- `io.CopyN` into the open file, of the bytes that were read, and the error where there were fewer;
  -- after an error the file is closed.
  abbrev pub copy_ended : Str → Error → O.State × Error → O.State × Error
  copy_ended path e (s, some x) = ((O.close path s).0, some x)
  copy_ended path (some y) (s, none) = ((O.close path s).0, some y)
  copy_ended path none (s, none) = (s, none)

  abbrev pub copy_n : Str → Bytes → Error → O.State → O.State × Error
  copy_n path b e s = copy_ended path e (O.append path b s)

  abbrev pub chmodded : Agent → PutFileReq → O.State → O.State × Error
  chmodded a req =
      then_do O (codes "chmod " ++ req.path) (O.chmod req.path (file_mode req.mode))
        (chowned a req.path)

  abbrev pub closed : Agent → PutFileReq → O.State → O.State × Error
  closed a req = then_do O (codes "closing " ++ req.path) (O.close req.path) (chmodded a req)

  abbrev pub copied : Agent → PutFileReq → Bytes → Error → O.State → O.State × Error
  copied a req b e = then_do O (codes "writing " ++ req.path) (copy_n req.path b e) (closed a req)

  abbrev pub created : Agent → PutFileReq → Bytes → Error → O.State → O.State × Error
  created a req b e =
      then_do O (codes "creating " ++ req.path) (O.create req.path (file_mode req.mode))
        (copied a req b e)

  -- `writePutFile` of what the stream delivers.
  unfoldable pub write_put_file : Agent → PutFileReq → Bytes → Error → O.State → O.State × Error
  write_put_file a req b e =
      then_do O (codes "creating dir for " ++ req.path) (O.mkdir_parent req.path)
        (created a req b e)

  abbrev pub respond : O.State × Error → O.State × Response
  respond (s, none) = (s, record { err = []; payload = [] })
  respond (s, some e) = (s, record { err = e; payload = [] })

  abbrev refuse : O.State → Str → O.State × Response
  refuse s e = (s, record { err = e; payload = [] })

  abbrev pub streamed : Agent → PutFileReq → Bytes → O.State → ℤ → O.State × Response
  streamed a req r s (negsuc n) =
      refuse s (codes "putfile size -" ++ decimal (n + 1) ++ codes " is negative")
  streamed a req r s (pos n) = let (b, e) = delivered n r in respond (write_put_file a req b e s)

  -- `handlePutFile`, after decoding, on the bytes that follow the header.
  unfoldable pub handle_put_file : Agent → PutFileReq → Bytes → O.State → O.State × Response
  unfolding write_put_file
  handle_put_file a req r s =
      if is_abs req.path then streamed a req r s req.size else refuse s (relative req.path)
