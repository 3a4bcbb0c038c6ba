-- ===== src/Srv/Post/Runs.antt =====
-- PostProcess returns: it dereferences no nil pointer where the request has the fids of its message.
use chan.Prelude.{
  arith, ◌==◌, ◌≡◌, refl, Bool, true, false, ◌||◌, Option, none, some, if◌then◌else◌,
}
use chan.Wire.Types
use chan.Srv.State.{FidPtr, Req, Conn, Ops, Outcome, done, panic, stuck, Act, follow}
use chan.Srv.Fids.{inc_ref, drop_fid, dec_ref}
use chan.Srv.Post.{
  auth_post, attach_post, walked, walk_post, set_opened, open_post, created, create_post, read_post,
  dec_ref_of, clunk_post, remove_post, post_handler,
}

abbrev pub is_done : {A : Type 0} → Outcome A → Bool
is_done (done a) = true
is_done panic = false
is_done stuck = false

abbrev pub present : {A : Type 0} → Option A → Bool
present none = false
present (some a) = true

-- The pointer is nil or that of a cell.
abbrev pub is_live : Conn → Option FidPtr → Bool
is_live s none = true
is_live s (some p) = present (s.fids p)

-- The fid that the Post handler of the message reads without a test.
abbrev pub has_fids : Req → Bool
has_fids q =
    if q.tc.type == Types.tauth
    then present q.afid
    else if q.tc.type == Types.tattach || q.tc.type == Types.twalk || q.tc.type == Types.tread
    then present q.fid
    else true

-- No cell is given up.
abbrev pub IsGrown : Conn → Conn → Type 0
IsGrown s s' = (p : FidPtr) → present (s.fids p) ≡ true → present (s'.fids p) ≡ true

pub dec_ref_of_returns :
    (ops : Ops) (o : Option FidPtr) (s : Conn)
    → is_live s o ≡ true
    → is_done (dec_ref_of ops o s) ≡ true
unfolding dec_ref_of dec_ref drop_fid
dec_ref_of_returns ops o s a = ground arith

pub dec_ref_of-IsGrown :
    (ops : Ops) (o : Option FidPtr) (s : Conn) (u : Unit {0}) (s' : Conn)
    → dec_ref_of ops o s ≡ done (u, s')
    → IsGrown s s'
unfolding dec_ref_of dec_ref drop_fid
dec_ref_of-IsGrown ops o s u s' h p there = ground arith

auth_post_returns :
    (q : Req) (s : Conn)
    → is_live s q.afid ≡ true
    → present q.afid ≡ true
    → is_done (auth_post q s) ≡ true
unfolding auth_post inc_ref
auth_post_returns q s a b = ground arith

auth_post-IsGrown :
    (q : Req) (s : Conn) (u : Unit {0}) (s' : Conn) → auth_post q s ≡ done (u, s') → IsGrown s s'
unfolding auth_post inc_ref
auth_post-IsGrown q s u s' h p there = ground arith

attach_post_returns :
    (q : Req) (s : Conn)
    → is_live s q.fid ≡ true
    → present q.fid ≡ true
    → is_done (attach_post q s) ≡ true
unfolding attach_post inc_ref
attach_post_returns q s a b = ground arith

attach_post-IsGrown :
    (q : Req) (s : Conn) (u : Unit {0}) (s' : Conn) → attach_post q s ≡ done (u, s') → IsGrown s s'
unfolding attach_post inc_ref
attach_post-IsGrown q s u s' h p there = ground arith

walk_post_returns :
    (q : Req) (s : Conn)
    → is_live s q.fid ≡ true
    → is_live s q.newfid ≡ true
    → present q.fid ≡ true
    → is_done (walk_post q s) ≡ true
unfolding walk_post walked inc_ref
walk_post_returns q s a b c = ground arith

walk_post-IsGrown :
    (q : Req) (s : Conn) (u : Unit {0}) (s' : Conn) → walk_post q s ≡ done (u, s') → IsGrown s s'
unfolding walk_post walked inc_ref
walk_post-IsGrown q s u s' h p there = ground arith

open_post_returns : (q : Req) (s : Conn) → is_live s q.fid ≡ true → is_done (open_post q s) ≡ true
unfolding open_post set_opened
open_post_returns q s a = ground arith

open_post-IsGrown :
    (q : Req) (s : Conn) (u : Unit {0}) (s' : Conn) → open_post q s ≡ done (u, s') → IsGrown s s'
unfolding open_post set_opened
open_post-IsGrown q s u s' h p there = ground arith

create_post_returns :
    (q : Req) (s : Conn) → is_live s q.fid ≡ true → is_done (create_post q s) ≡ true
unfolding create_post created
create_post_returns q s a = ground arith

create_post-IsGrown :
    (q : Req) (s : Conn) (u : Unit {0}) (s' : Conn) → create_post q s ≡ done (u, s') → IsGrown s s'
unfolding create_post created
create_post-IsGrown q s u s' h p there = ground arith

read_post_returns :
    (q : Req) (s : Conn)
    → is_live s q.fid ≡ true
    → present q.fid ≡ true
    → is_done (read_post q s) ≡ true
unfolding read_post
read_post_returns q s a b = ground arith

read_post-IsGrown :
    (q : Req) (s : Conn) (u : Unit {0}) (s' : Conn) → read_post q s ≡ done (u, s') → IsGrown s s'
unfolding read_post
read_post-IsGrown q s u s' h p there = ground arith

clunk_post_returns :
    (ops : Ops) (q : Req) (s : Conn) → is_live s q.fid ≡ true → is_done (clunk_post ops q s) ≡ true
unfolding clunk_post dec_ref_of dec_ref drop_fid
clunk_post_returns ops q s a = ground arith

clunk_post-IsGrown :
    (ops : Ops) (q : Req) (s : Conn) (u : Unit {0}) (s' : Conn)
    → clunk_post ops q s ≡ done (u, s')
    → IsGrown s s'
unfolding clunk_post dec_ref_of dec_ref drop_fid
clunk_post-IsGrown ops q s u s' h p there = ground arith

pub post_handler_returns :
    (ops : Ops) (q : Req) (s : Conn)
    → has_fids q ≡ true
    → is_live s q.fid ≡ true
    → is_live s q.afid ≡ true
    → is_live s q.newfid ≡ true
    → is_done (post_handler ops q s) ≡ true
unfolding post_handler remove_post
post_handler_returns ops q s has fid afid newfid = ground (
  arith,
  auth_post_returns q s afid,
  attach_post_returns q s fid,
  walk_post_returns q s fid newfid,
  open_post_returns q s fid,
  create_post_returns q s fid,
  read_post_returns q s fid,
  clunk_post_returns ops q s fid,
  dec_ref_of_returns ops q.fid s fid,
)

pub post_handler-IsGrown :
    (ops : Ops) (q : Req) (s : Conn) (u : Unit {0}) (s' : Conn)
    → post_handler ops q s ≡ done (u, s')
    → IsGrown s s'
unfolding post_handler remove_post
post_handler-IsGrown ops q s u s' h p there = ground (
  arith,
  λ (h : auth_post q s ≡ done (u, s')). auth_post-IsGrown q s u s' h p there,
  λ (h : attach_post q s ≡ done (u, s')). attach_post-IsGrown q s u s' h p there,
  λ (h : walk_post q s ≡ done (u, s')). walk_post-IsGrown q s u s' h p there,
  λ (h : open_post q s ≡ done (u, s')). open_post-IsGrown q s u s' h p there,
  λ (h : create_post q s ≡ done (u, s')). create_post-IsGrown q s u s' h p there,
  λ (h : read_post q s ≡ done (u, s')). read_post-IsGrown q s u s' h p there,
  λ (h : clunk_post ops q s ≡ done (u, s')). clunk_post-IsGrown ops q s u s' h p there,
  λ (h : dec_ref_of ops q.fid s ≡ done (u, s')). dec_ref_of-IsGrown ops q.fid s u s' h p there,
)

pub is_live_grown :
    (s s' : Conn) (o : Option FidPtr) → IsGrown s s' → is_live s o ≡ true → is_live s' o ≡ true
is_live_grown s s' none grown h = refl
is_live_grown s s' (some p) grown h = grown p h

pub returns_bind :
    {A B : Type 0} (o : Outcome (A × Conn)) (k : A → Act B)
    → is_done o ≡ true
    → ((a : A) (t : Conn) → o ≡ done (a, t) → is_done (k a t) ≡ true)
    → is_done (follow o k) ≡ true
returns_bind (done (a, t)) k first later = later a t refl
returns_bind panic k first later = absurd (ground arith)
returns_bind stuck k first later = absurd (ground arith)
