-- ===== src/Srv/Fsrv.antt =====
-- The file server Fsrv of p/srv/file.go: its methods on requests, over the tree of Srv/Tree.
-- A request is the fids and the message that the method reads; each answer that it makes is recorded,
-- in order. The methods of the files themselves are the record Methods, a parameter.
pub mod Walks
pub mod Opens
pub mod Listing
mod Examples
use chan.Prelude.{
  ℕ, zero, suc, ◌+◌, ◌-◌, ◌%◌, ◌/◌, ◌^◌, ◌==◌, Bool, true, false, not, ◌&&◌, ◌||◌, Option, none,
  some, List, [], ◌∷◌, ◌++◌, bit_and, bit_or, ltb, leb, if◌then◌else◌, length, take, drop,
}
use chan.Wire.Result
use chan.Wire.Types.{Bytes, Fcall, Qid, Dir, zero_qid}
use chan.Wire.Stat.{pack_dir}
use chan.Wire.PackR.{init_rread, set_rread_count, copy_data}
use chan.Prelude.Run.{Run, stuck, pure, crash, ◌>>=◌, ◌>>◌, gets, modify, deref, update}
use chan.Srv.State.{FidPtr, Answer, answer, fail}
use chan.Srv.Handlers.Session.{bytes_eq}
use chan.Srv.Tree.{
  Account, FilePtr, File, FFid, FileError, not_found, not_empty, no_perm, bad_use, bad_arg, op,
  Reply, refused, rattach, rwalk, ropen, rcreate, rread, rwrite, rstat, rclunk, rremove, rwstat,
  Site, get_file, put_file, remove_file, find, check_perm, dm_read, dm_write, dm_exec,
}

-- What a method of a file returns: a value, or an error by its number.
pub data Given (A : Type 0) : Type 0 where
  gives : A → Given A
  fails : ℕ → Given A

-- The interfaces FOpenOp to FDestroyOp, for each value that a file has as its `ops`; `none` where the
-- value does not implement one. A method may change the tree.
pub record Methods : Type 0 where
  pub stat : ℕ → Option (FidPtr → Run Site (Given (Unit {0})))
  pub wstat : ℕ → Option (FidPtr → Dir → Run Site (Given (Unit {0})))
  pub read : ℕ → Option (FidPtr → ℕ → ℕ → Run Site (Given Bytes))
  pub write : ℕ → Option (FidPtr → Bytes → ℕ → Run Site (Given ℕ))
  pub create : ℕ → Option (FidPtr → Bytes → ℕ → ℕ → Run Site (Given FilePtr))
  pub remove : ℕ → Option (FidPtr → Run Site (Given (Unit {0})))
  pub open_op : ℕ → Option (FidPtr → ℕ → Run Site (Given (Unit {0})))
  pub clunk : ℕ → Option (FidPtr → Run Site (Given (Unit {0})))
  pub destroy : ℕ → Option (FidPtr → Run Site (Unit {0}))

-- What the methods use of a request.
pub record Request : Type 0 where
  pub fid : FidPtr
  pub newfid : FidPtr
  pub user : Option Account
  pub tc : Fcall
  pub rc : Fcall
  pub dotu : Bool

abbrev pub respond_with : Reply → Run Site (Unit {0})
respond_with r = modify λ s. record s { replies = s.replies ++ r ∷ [] }

-- `req.Fid.Aux.(*FFid)`, which panics where there is none.
abbrev pub get_ffid : FidPtr → Run Site FFid
get_ffid p s = deref (s.ffids p) s

abbrev pub put_ffid : FidPtr → FFid → Run Site (Unit {0})
put_ffid p f = modify λ s. record s { ffids = update s.ffids p (some f) }

abbrev pub set_omode : FidPtr → ℕ → Run Site (Unit {0})
set_omode p mode = modify λ s. record s { omodes = λ q. if p == q then mode else s.omodes q }

-- The file of a request's fid.
abbrev pub fid_file : FidPtr → Run Site FilePtr
fid_file p = do fid ← get_ffid p; deref fid.file

unfoldable pub attach : FilePtr → Request → Run Site (Unit {0})
attach root req = do
  put_ffid req.fid (record { file = some root; dirs = [] })
  file ← get_file root
  respond_with (rattach file.dir.qid)

abbrev pub dotdot : Bytes
dotdot = b'.' ∷ b'.' ∷ []

-- The test before Find: `wqids[i].Type` is that of a Qid that was made and not yet set.
abbrev pub may_search : Qid → Dir → Option Account → Bool
may_search wqid d user =
    if not (bit_and wqid.type 0x80 == 0) then check_perm d user dm_exec else true

-- One name: the file that it leads to, or `none` where the loop breaks off.
unfoldable pub walk_name : ℕ → Option Account → FilePtr → Bytes → Run Site (Option FilePtr)
unfolding find bytes_eq check_perm
walk_name n user f name = do
  file ← get_file f
  if bytes_eq name dotdot
      then (do up ← deref file.parent; pure (some up))
      else if may_search zero_qid file.dir user
      then find n f name
      else pure none

-- The loop over the names: the file that it ends at, and the qids on the way.
unfoldable pub walk_names :
    ℕ → Option Account → Option FilePtr → List Bytes → Run Site (Option FilePtr × List Qid)
unfolding walk_name
walk_names n user f [] = pure (f, [])
walk_names n user f (name ∷ names) = do
  p ← deref f
  to ← walk_name n user p name
  elim to [
    | none ↦ pure (f, [])
    | some g ↦ do
      file ← get_file g
      r ← walk_names n user (some g) names
      pure (r.0, file.dir.qid ∷ r.1)
  ]

-- A newfid without an Aux gets an empty one.
abbrev pub ensure_ffid : FidPtr → Option FFid → Run Site (Unit {0})
ensure_ffid p none = put_ffid p (record { file = none; dirs = [] })
ensure_ffid p (some f) = pure tt

-- Behind the loop.
unfoldable pub walked : Request → Option FilePtr × List Qid → Run Site (Unit {0})
walked req r =
    if ltb 0 (length req.tc.wname) && (length r.1 == 0)
    then respond_with (refused not_found)
    else do
      nfid ← get_ffid req.newfid
      put_ffid req.newfid (record nfid { file = r.0 })
      respond_with (rwalk r.1)

unfoldable pub walk : ℕ → Request → Run Site (Unit {0})
unfolding walk_names walked
walk n req = do
  fid ← get_ffid req.fid
  aux ← gets (λ s. s.ffids req.newfid)
  ensure_ffid req.newfid aux
  r ← walk_names n req.user fid.file req.tc.wname
  walked req r

-- `switch mode & 3`, and O_TRUNC.
unfoldable pub mode2perm : ℕ → ℕ
mode2perm mode =
    let m = bit_and mode 3 in
    let perm =
      if m == 0
      then dm_read
      else if m == 1
      then dm_write
      else if m == 2
      then bit_or dm_read dm_write
      else 0 in
    if not (bit_and mode 16 == 0) then bit_or perm dm_write else perm

-- `none` is Ebadarg.
unfoldable pub openmode : ℕ → Option ℕ
openmode o =
    if leb 0x73 o
    then none
    else let m = bit_and o (0xff - 0x70) in
      if ltb 3 m then none else if m == 3 then some 0 else some m

unfoldable pub open_file : Methods → Request → Run Site (Unit {0})
unfolding openmode mode2perm check_perm
open_file methods req = do
  fid ← get_ffid req.fid
  elim (openmode req.tc.mode) [
    | none ↦ respond_with (refused bad_arg)
    | some m ↦ do
      f ← deref fid.file
      file ← get_file f
      if not (check_perm file.dir req.user (mode2perm req.tc.mode))
          then respond_with (refused no_perm)
          else do
            set_omode req.fid req.tc.mode
            elim (methods.open_op file.ops) [
              | none ↦ pure tt
              | some open_op ↦ do
                given ← open_op req.fid req.tc.mode
                elim given [ gives _ ↦ pure tt | fails e ↦ respond_with (refused (op e)) ]
            ]
            g ← fid_file req.fid
            opened ← get_file g
            respond_with (ropen opened.dir.qid 0)
  ]

unfoldable pub create : Methods → Request → Run Site (Unit {0})
unfolding openmode check_perm
create methods req = do
  f ← fid_file req.fid
  dir ← get_file f
  if not (check_perm dir.dir req.user dm_write)
      then respond_with (refused no_perm)
      else elim (openmode req.tc.mode) [
        | none ↦ respond_with (refused bad_arg)
        | some m ↦ do
          set_omode req.fid req.tc.mode
          elim (methods.create dir.ops) [
            | none ↦ respond_with (refused no_perm)
            | some create_op ↦ do
              given ← create_op req.fid req.tc.name req.tc.perm req.tc.mode
              elim given [
                | fails e ↦ respond_with (refused (op e))
                | gives g ↦ do
                  fid ← get_ffid req.fid
                  put_ffid req.fid (record fid { file = some g })
                  new ← get_file g
                  respond_with (rcreate new.dir.qid 0)
              ]
          ]
      ]

-- `for n, g = 0, f.cfirst; g != nil; n, g = n+1, g.next`
unfoldable pub children : ℕ → Option FilePtr → Run Site (List FilePtr)
children zero c = λ s. stuck
children (suc n) none = pure []
children (suc n) (some c) = do g ← get_file c; gs ← children n g.next; pure (c ∷ gs)

-- The loop that packs the entries into `b`: what it writes, and what it leaves in `fid.dirs`.
unfoldable pub pack_dirs : Bool → List FilePtr → Bytes → Run Site (Bytes × List FilePtr)
unfolding pack_dir
pack_dirs dotu [] b = pure ([], [])
pack_dirs dotu (g ∷ gs) b = do
  file ← get_file g
  if file.is_removed then pack_dirs dotu gs b else elim (pack_dir file.dir b dotu) [
    | Result.panic ↦ crash
    | Result.err e ↦ crash
    | Result.ok (sz, b1) ↦
        if sz == 0
        then pure ([], g ∷ gs)
        else do r ← pack_dirs dotu gs (drop sz b1); pure (take sz b1 ++ r.0, r.1)
  ]

-- `p.InitRread(rc, tc.Count)`, whose error is not looked at.
abbrev pub init_reply : Fcall → ℕ → Run Site Fcall
init_reply rc count = elim (init_rread rc count) [
  | Result.panic ↦ crash
  | Result.err e ↦ pure rc
  | Result.ok rc1 ↦ pure rc1
]

-- `p.SetRreadCount(rc, uint32(n))`, and the answer.
abbrev pub reply_read : Fcall → Bytes → Run Site (Unit {0})
reply_read rc bytes = elim (set_rread_count (copy_data rc bytes) (length bytes % 2 ^ 32)) [
  | Result.ok rc1 ↦ respond_with (rread rc1)
  | Result.err e ↦ crash
  | Result.panic ↦ crash
]

-- A read of offset 0 begins with the children of the directory.
unfoldable pub read_dirs : ℕ → Request → FilePtr → Fcall → Run Site (Unit {0})
unfolding children pack_dirs
read_dirs n req f rc = do
  if req.tc.offset == 0
      then (do
        dir ← get_file f
        gs ← children n dir.cfirst
        fid ← get_ffid req.fid
        put_ffid req.fid (record fid { dirs = gs }))
      else pure tt
  fid ← get_ffid req.fid
  r ← pack_dirs req.dotu fid.dirs rc.dat
  put_ffid req.fid (record fid { dirs = r.1 })
  reply_read rc r.0

unfoldable pub read : ℕ → Methods → Request → Run Site (Unit {0})
unfolding read_dirs
read n methods req = do
  fid ← get_ffid req.fid
  rc ← init_reply req.rc req.tc.count
  omode ← gets (λ s. s.omodes req.fid)
  if bit_and omode 3 == 1 then respond_with (refused bad_use) else do
    f ← deref fid.file
    file ← get_file f
    if not (bit_and file.dir.mode 0x80000000 == 0)
        then read_dirs n req f rc
        else elim (methods.read file.ops) [
          | none ↦ respond_with (refused no_perm)
          | some read_op ↦ do
            given ← read_op req.fid (length rc.dat) req.tc.offset
            elim given [
              | gives bytes ↦ reply_read rc bytes
              | fails e ↦ respond_with (refused (op e))
            ]
        ]

unfoldable pub write : Methods → Request → Run Site (Unit {0})
write methods req = do
  fid ← get_ffid req.fid
  omode ← gets (λ s. bit_and (s.omodes req.fid) 3)
  if not (omode == 1) && not (omode == 2) then respond_with (refused bad_use) else do
    f ← deref fid.file
    file ← get_file f
    elim (methods.write file.ops) [
      | none ↦ respond_with (refused no_perm)
      | some write_op ↦ do
        given ← write_op req.fid req.tc.dat req.tc.offset
        elim given [
          | gives n ↦ respond_with (rwrite (n % 2 ^ 32))
          | fails e ↦ respond_with (refused (op e))
        ]
    ]

unfoldable pub clunk : Methods → Request → Run Site (Unit {0})
clunk methods req = do
  f ← fid_file req.fid
  file ← get_file f
  elim (methods.clunk file.ops) [
    | none ↦ pure tt
    | some clunk_op ↦ do
      given ← clunk_op req.fid
      elim given [ gives _ ↦ pure tt | fails e ↦ respond_with (refused (op e)) ]
  ]
  respond_with rclunk

unfoldable pub remove : Methods → Request → Run Site (Unit {0})
unfolding remove_file
remove methods req = do
  f ← fid_file req.fid
  file ← get_file f
  elim file.cfirst [
    | some c ↦ respond_with (refused not_empty)
    | none ↦ elim (methods.remove file.ops) [
      | none ↦ respond_with (refused no_perm)
      | some remove_op ↦ do
        given ← remove_op req.fid
        elim given [
          | fails e ↦ respond_with (refused (op e))
          | gives _ ↦ do remove_file f; respond_with rremove
        ]
    ]
  ]

unfoldable pub stat : Methods → Request → Run Site (Unit {0})
stat methods req = do
  f ← fid_file req.fid
  file ← get_file f
  elim (methods.stat file.ops) [
    | none ↦ respond_with (rstat file.dir)
    | some stat_op ↦ do
      given ← stat_op req.fid
      elim given [
        | fails e ↦ respond_with (refused (op e))
        | gives _ ↦ do now ← get_file f; respond_with (rstat now.dir)
      ]
  ]

unfoldable pub wstat : Methods → Request → Run Site (Unit {0})
wstat methods req = do
  f ← fid_file req.fid
  file ← get_file f
  elim (methods.wstat file.ops) [
    | none ↦ respond_with (refused no_perm)
    | some wstat_op ↦ do
      given ← wstat_op req.fid req.tc.dir
      elim given [ gives _ ↦ respond_with rwstat | fails e ↦ respond_with (refused (op e)) ]
  ]

unfoldable pub fid_destroy : Methods → FidPtr → Run Site (Unit {0})
fid_destroy methods p = do
  aux ← gets (λ s. s.ffids p)
  elim aux [
    | none ↦ pure tt
    | some fid ↦ elim fid.file [
      | none ↦ pure tt
      | some f ↦ do
        file ← get_file f
        elim (methods.destroy file.ops) [ none ↦ pure tt | some destroy_op ↦ destroy_op p ]
    ]
  ]
