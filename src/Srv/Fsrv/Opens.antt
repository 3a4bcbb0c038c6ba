-- ===== src/Srv/Fsrv/Opens.antt =====
-- What the method Open of the file server does where the file's own method fails.
use chan.Prelude.{ℕ, ◌==◌, if◌then◌else◌, ◌≡◌, refl, true, some, [], ◌∷◌, ◌++◌}
use chan.Prelude.Run.{done}
use chan.Srv.Tree.{FilePtr, FFid, File, Site, refused, ropen, op, check_perm}
use chan.Srv.Fsrv.{Methods, Request, fails, openmode, mode2perm, open_file}

-- Where the user may open the file in this mode, and the file's own Open changes nothing and fails, the
-- request is answered twice: with the error, and then with Ropen.
pub open_file_fails :
    (methods : Methods) (req : Request) (s : Site) (fd : FFid) (f : FilePtr) (file : File) (m e : ℕ)
    → s.ffids req.fid ≡ some fd
    → fd.file ≡ some f
    → s.files f ≡ some file
    → openmode req.tc.mode ≡ some m
    → check_perm file.dir req.user (mode2perm req.tc.mode) ≡ true
    → methods.open_op file.ops ≡ some (λ p mode s. done (fails e, s))
    → (s' : Site) × (open_file methods req s ≡ done (tt, s'))
      × (s'.replies ≡ (s.replies ++ refused (op e) ∷ []) ++ ropen file.dir.qid 0 ∷ [])
unfolding open_file
open_file_fails methods req s fd f file m e aux at cell mode allowed failing = (
  record s {
    omodes = λ q. if req.fid == q then req.tc.mode else s.omodes q;
    replies = (s.replies ++ refused (op e) ∷ []) ++ ropen file.dir.qid 0 ∷ [];
  },
  rw (aux, mode, at, cell, allowed, failing) (rw (aux, at, cell) refl),
  refl,
)
