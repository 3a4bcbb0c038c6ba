-- ===== src/Clnt/Calls/Files.antt =====
-- FWalk, Remove, FRemove, Stat, FStat, Wstat, FOpen and FCreate: p/clnt/walk.go, remove.go, stat.go and
-- open.go.
use chan.Prelude.{
  ℕ, zero, suc, ◌==◌, not, ltb, Option, none, some, List, [], ◌∷◌, length, take, drop,
  if◌then◌else◌,
}
use chan.Prelude.Run.{stuck}
use chan.Wire.Types.{Bytes, Fcall, Dir, nofid}
use chan.Wire.PackT.{pack_tremove, pack_tstat, pack_twstat}
use chan.Clnt.Calls.{
  FidPtr, CallError, rpc_failed, file_not_found, Answer, returns, fails, Reply, Call, pure, fail,
  crash, ◌>>=◌, ◌>>◌, try, answered, gets, deref, get_fid, put_fid, packed, take_fcall, fid_alloc,
  give_back, rpc, not_error, ask, clunk, walk,
}
use chan.Clnt.Calls.Io.{File, open_fid, create_fid}

abbrev pub slash : ℕ
slash = b'/'

unfoldable pub drop_slashes : Bytes → Bytes
drop_slashes [] = []
drop_slashes (c ∷ cs) = let rest = drop_slashes cs in if c == slash then rest else c ∷ cs

abbrev pub begin_with : ℕ → List Bytes → List Bytes
begin_with c [] = (c ∷ []) ∷ []
begin_with c (w ∷ ws) = (c ∷ w) ∷ ws

-- strings.Split(path, "/")
unfoldable pub split : Bytes → List Bytes
split [] = [] ∷ []
split (c ∷ cs) = if c == slash then [] ∷ split cs else begin_with c (split cs)

-- `wnames[i] != ""`
unfoldable pub named : List Bytes → List Bytes
named [] = []
named ([] ∷ ws) = named ws
named ((c ∷ cs) ∷ ws) = (c ∷ cs) ∷ named ws

-- The names of a path.
abbrev pub names_of : Bytes → List Bytes
unfolding drop_slashes split named
names_of path = named (split (drop_slashes path))

-- strings.LastIndex(path, "/")
unfoldable pub last_slash : Bytes → Option ℕ
last_slash [] = none
last_slash (c ∷ cs) = elim (last_slash cs) [
  | some n ↦ some (suc n)
  | none ↦ if c == slash then some 0 else none
]

abbrev pub or_zero : Option ℕ → ℕ
or_zero none = 0
or_zero (some n) = n

module _ {W : Type 0} where
  -- The loop of FWalk, over Walk: at most 16 names at a time, from the root first, then from the new fid.
  unfoldable pub walk_batches :
      ℕ → (FidPtr → List Bytes → Call W ℕ) → FidPtr → FidPtr → List Bytes → Call W (Unit {0})
  walk_batches zero step p new names = λ s. stuck
  walk_batches (suc fuel) step p new names =
      let n = if ltb 16 (length names) then 16 else length names in
      let again = walk_batches fuel step new new (drop n names) in
      do
        got ← step p (take n names)
        if not (got == n)
            then fail file_not_found
            else if length (drop n names) == 0
            then pure tt
            else again

  -- `clnt.Clunk(fid)` where a call fails, and its own error is dropped
  abbrev pub or_else : {A : Type 0} → Call W (Unit {0}) → Answer A → Call W A
  or_else cleanup (returns a) = pure a
  or_else cleanup (fails e) = do dropped ← try cleanup; fail e

  abbrev pub on_error : {A : Type 0} → Call W A → Call W (Unit {0}) → Call W A
  on_error m cleanup = do a ← try m; or_else cleanup a

module _ {W : Type 0} (remote : Fcall → W → Reply × W) where
  abbrev pub walk_step : FidPtr → FidPtr → List Bytes → Call W ℕ
  unfolding walk
  walk_step new p names = do wqid ← walk remote p new names; pure (length wqid)

  -- The fuel is more than the number of batches.
  unfoldable pub fwalk : Bytes → Call W FidPtr
  unfolding fid_alloc walk_batches walk_step clunk names_of
  fwalk path = do
    new ← fid_alloc
    root0 ← gets (λ s. s.root)
    root ← deref root0
    f ← get_fid root
    g ← get_fid new
    put_fid new (record g { user = f.user })
    on_error (walk_batches (suc (length path)) (walk_step new) root new (names_of path))
        (clunk remote new)
    pure new

  abbrev ended : Option Fcall × Option CallError → Call W (Unit {0})
  ended (rc, e) = do
    r ← deref rc
    ok ← not_error remote r
    elim e [ none ↦ pure tt | some x ↦ fail x ]

  -- The response is read before the error is looked at.
  unfoldable pub remove : FidPtr → Call W (Unit {0})
  unfolding pack_tremove rpc give_back
  remove p = do
    f ← get_fid p
    tc0 ← take_fcall
    tc ← packed (pack_tremove tc0 f.fid)
    (rc, err) ← rpc remote tc
    give_back f.fid
    put_fid p (record f { fid = nofid })
    ended (rc, elim err [ none ↦ none | some e ↦ some (rpc_failed e) ])

  unfoldable pub fremove : Bytes → Call W (Unit {0})
  unfolding fwalk remove
  fremove path = do fid ← fwalk path; remove fid

  unfoldable pub stat : FidPtr → Call W Dir
  unfolding pack_tstat ask
  stat p = do
    f ← get_fid p
    tc0 ← take_fcall
    tc ← packed (pack_tstat tc0 f.fid)
    rc ← ask remote tc
    pure rc.dir

  unfoldable pub fstat : Bytes → Call W Dir
  unfolding fwalk stat clunk
  fstat path = do fid ← fwalk path; d ← try (stat fid); dropped ← try (clunk remote fid); answered d

  unfoldable pub wstat : FidPtr → Dir → Call W (Unit {0})
  unfolding pack_twstat ask
  wstat p dir = do
    f ← get_fid p
    dotu ← gets (λ s. s.dotu)
    tc0 ← take_fcall
    tc ← packed (pack_twstat tc0 f.fid dir dotu)
    rc ← ask remote tc
    pure tt

  unfoldable pub fopen : Bytes → ℕ → Call W File
  unfolding fwalk open_fid clunk
  fopen path mode = do
    fid ← fwalk path
    on_error (open_fid remote fid mode) (clunk remote fid)
    pure (record { fid = fid; offset = 0 })

  -- `path[n]`, an index out of range where the path is empty
  abbrev name_at : ℕ → Bytes → Call W Bytes
  name_at n path = elim (drop n path) [
    | [] ↦ crash
    | c ∷ cs ↦ if c == slash then pure cs else pure (c ∷ cs)
  ]

  unfoldable pub fcreate : Bytes → ℕ → ℕ → Call W File
  unfolding fwalk create_fid clunk last_slash
  fcreate path perm mode = do
    let n = or_zero (last_slash path)
    fid ← fwalk (take n path)
    name ← name_at n path
    on_error (create_fid remote fid name perm mode []) (clunk remote fid)
    pure (record { fid = fid; offset = 0 })
