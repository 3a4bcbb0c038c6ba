-- ===== src/Srv/Tree.antt =====
-- The tree of files of p/srv/file.go: the struct File with its links on an explicit heap, Add, Remove,
-- Rename, Find and CheckPerm, and the state that the file server Fsrv keeps.
-- A `*File` is the number of its cell. The time and the users come from outside: they are arguments.
-- The locks are left out: a function runs without interleaving.
pub mod Siblings
pub mod Grow
pub mod Add
pub mod Shrink
pub mod Perms
pub mod Examples
use chan.Prelude.{
  ℕ, zero, suc, ◌+◌, ◌%◌, ◌/◌, ◌^◌, ◌==◌, Bool, true, false, ◌&&◌, ◌||◌, Option, none, some, List,
  [], ◌∷◌, bit_and, bit_or, if◌then◌else◌,
}
use chan.Wire.Types.{Bytes, Fcall, Qid, Dir, nouid}
use chan.Prelude.Run.{Run, stuck, pure, crash, ◌>>=◌, ◌>>◌, gets, modify, deref, update}
use chan.Srv.State.{FidPtr}
use chan.Srv.Handlers.Session.{bytes_eq}

-- A group, and a user with its groups: what their methods Name, Id and Groups return. The ids are
-- those that `uint32(user.Id())` makes of them.
pub record Group : Type 0 where
  pub name : Bytes
  pub id : ℕ

pub record Account : Type 0 where
  pub name : Bytes
  pub id : ℕ
  pub groups : List Group

abbrev pub FilePtr : Type 0
FilePtr = ℕ

-- `ops` stands for the value with the file's own methods.
pub record File : Type 0 where
  pub dir : Dir
  pub is_removed : Bool
  pub parent : Option FilePtr
  pub next : Option FilePtr
  pub prev : Option FilePtr
  pub cfirst : Option FilePtr
  pub clast : Option FilePtr
  pub ops : ℕ

-- A FFid, the Aux of a Fid: the file, and what is left of a directory that is read.
pub record FFid : Type 0 where
  pub file : Option FilePtr
  pub dirs : List FilePtr

-- The errors of file.go and those of srv.go that it uses; `op` is one of a file's own methods.
pub data FileError : Type 0 where
  already_exists not_found not_empty no_perm bad_use bad_arg : FileError
  op : ℕ → FileError

-- The answers to a request that the file server makes.
pub data Reply : Type 0 where
  refused : FileError → Reply
  rattach : Qid → Reply
  rwalk : List Qid → Reply
  ropen rcreate : Qid → ℕ → Reply
  rread : Fcall → Reply
  rwrite : ℕ → Reply
  rstat : Dir → Reply
  rclunk rremove rwstat : Reply

pub record Site : Type 0 where
  pub files : FilePtr → Option File
  pub qnext : ℕ
  pub ffids : FidPtr → Option FFid
  pub omodes : FidPtr → ℕ
  pub replies : List Reply

abbrev pub get_file : FilePtr → Run Site File
get_file f s = deref (s.files f) s

abbrev pub put_file : FilePtr → File → Run Site (Unit {0})
put_file f file = modify λ s. record s { files = update s.files f (some file) }

-- The first of some siblings with a name.
unfoldable pub child_named : ℕ → Bytes → Option FilePtr → Run Site (Option FilePtr)
unfolding bytes_eq
child_named zero name c = λ s. stuck
child_named (suc n) name none = pure none
child_named (suc n) name (some c) = do
  g ← get_file c
  if bytes_eq name g.dir.name then pure (some c) else child_named n name g.next

unfoldable pub find : ℕ → FilePtr → Bytes → Run Site (Option FilePtr)
unfolding child_named
find n p name = do dir ← get_file p; child_named n name dir.cfirst

-- What Add makes of the embedded Dir.
abbrev pub owner_name : Option Account → Bytes
owner_name none = b'n' ∷ b'o' ∷ b'n' ∷ b'e' ∷ []
owner_name (some u) = u.name

abbrev pub owner_id : Option Account → ℕ
owner_id none = nouid
owner_id (some u) = u.id

abbrev pub group_name : Option Group → Bytes
group_name none = b'n' ∷ b'o' ∷ b'n' ∷ b'e' ∷ []
group_name (some g) = g.name

abbrev pub group_id : Option Group → ℕ
group_id none = nouid
group_id (some g) = g.id

abbrev pub new_dir : Dir → ℕ → Bytes → Option Account → Option Group → ℕ → ℕ → Dir
new_dir d qpath name uid gid mode now = record d {
  qid = record { type = mode / 2 ^ 24 % 2 ^ 8; version = 0; path = qpath };
  mode = mode;
  atime = now;
  mtime = now;
  length = 0;
  name = name;
  uid = owner_name uid;
  uidnum = owner_id uid;
  gid = group_name gid;
  gidnum = group_id gid;
  muid = [];
  muidnum = nouid;
  ext = [];
}

-- `dir.clast.next = f` or `dir.cfirst = f`, and the fields that follow.
unfoldable pub link_last : FilePtr → FilePtr → Run Site (Unit {0})
link_last f d = do
  dir ← get_file d
  elim dir.clast [
    | some l ↦ do last ← get_file l; put_file l (record last { next = some f })
    | none ↦ put_file d (record dir { cfirst = some f })
  ]
  file ← get_file f
  put_file f (record file { prev = dir.clast; next = none })
  dir1 ← get_file d
  put_file d (record dir1 { clast = some f })

abbrev pub set_ops : FilePtr → ℕ → Run Site (Unit {0})
set_ops f ops = do file ← get_file f; put_file f (record file { ops = ops })

-- `none` is success.
unfoldable pub add :
    ℕ
    → FilePtr
    → Option FilePtr
    → Bytes
    → Option Account
    → Option Group
    → ℕ
    → ℕ
    → ℕ
    → Run Site (Option FileError)
unfolding child_named link_last
add n f dir name uid gid mode ops now = do
  qpath ← gets (λ s. s.qnext)
  modify λ s. record s { qnext = (qpath + 1) % 2 ^ 64 }
  file ← get_file f
  put_file f (record file { dir = new_dir file.dir qpath name uid gid mode now })
  elim dir [
    | none ↦ do
      root ← get_file f
      put_file f (record root { parent = some f; ops = ops })
      pure none
    | some d ↦ do
      child ← get_file f
      put_file f (record child { parent = some d })
      parent ← get_file d
      found ← child_named n name parent.cfirst
      elim found [
        | some c ↦ pure (some already_exists)
        | none ↦ do link_last f d; set_ops f ops; pure none
      ]
  ]

-- `ptr.prev = v` for a pointer that may be nil, where the list's end is kept instead.
abbrev pub link_back : FilePtr → Option FilePtr → Option FilePtr → Run Site (Unit {0})
link_back p none v = do dir ← get_file p; put_file p (record dir { clast = v })
link_back p (some c) v = do g ← get_file c; put_file c (record g { prev = v })

abbrev pub link_on : FilePtr → Option FilePtr → Option FilePtr → Run Site (Unit {0})
link_on p none v = do dir ← get_file p; put_file p (record dir { cfirst = v })
link_on p (some c) v = do g ← get_file c; put_file c (record g { next = v })

-- Remove, behind its test of the flag.
unfoldable pub unlink_file : FilePtr → Run Site (Unit {0})
unlink_file f = do
  file ← get_file f
  p ← deref file.parent
  link_back p file.next file.prev
  file1 ← get_file f
  link_on p file1.prev file1.next
  file2 ← get_file f
  put_file f (record file2 { next = none; prev = none })

unfoldable pub remove_file : FilePtr → Run Site (Unit {0})
unfolding unlink_file
remove_file f = do
  file ← get_file f
  if file.is_removed
      then pure tt
      else do put_file f (record file { is_removed = true }); unlink_file f

unfoldable pub rename : ℕ → FilePtr → Bytes → Run Site (Option FileError)
unfolding child_named
rename n f name = do
  file ← get_file f
  p ← deref file.parent
  dir ← get_file p
  found ← child_named n name dir.cfirst
  elim found [
    | some c ↦ pure (some already_exists)
    | none ↦ do put_file f (record file { dir = record file.dir { name = name } }); pure none
  ]

abbrev pub dm_read : ℕ
dm_read = 4

abbrev pub dm_write : ℕ
dm_write = 2

abbrev pub dm_exec : ℕ
dm_exec = 1

-- `(fperm & perm) == perm`
abbrev pub grants : ℕ → ℕ → Bool
grants fperm perm = bit_and fperm perm == perm

abbrev pub is_owner : Dir → Account → Bool
is_owner d u = bytes_eq d.uid u.name || (d.uidnum == u.id)

-- The loop over the user's groups.
unfoldable pub in_group : Dir → List Group → Bool
unfolding bytes_eq
in_group d [] = false
in_group d (g ∷ gs) =
    let rest = in_group d gs in bytes_eq d.gid g.name || (d.gidnum == g.id) || rest

unfoldable pub check_perm : Dir → Option Account → ℕ → Bool
unfolding in_group bytes_eq
check_perm d none perm = false
check_perm d (some u) perm =
    let want = bit_and perm 7 in
    let other = bit_and d.mode 7 in
    let with_user = if is_owner d u then bit_or other (bit_and (d.mode / 2 ^ 6) 7) else other in
    let with_group =
      if in_group d u.groups then bit_or with_user (bit_and (d.mode / 2 ^ 3) 7) else with_user in
    if grants other want
    then true
    else if grants with_user want
    then true
    else grants with_group want
