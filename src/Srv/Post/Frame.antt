-- ===== src/Srv/Post/Frame.antt =====
-- The Post handlers and the reference counts change fids, the fid table and what the file server
-- is told, and nothing of the requests.
use chan.Prelude.{arith, ◌≡◌, refl, ◌∙◌, Option}
use chan.Srv.State.{FidPtr, Req, Conn, Ops}
use chan.Srv.Fids.{inc_ref, drop_fid, dec_ref}
use chan.Srv.Post.{
  auth_post, attach_post, walked, walk_post, set_opened, open_post, created, create_post, read_post,
  dec_ref_of, clunk_post, remove_post, post_handler,
}
use chan.Srv.Frame.{Change, Keeps}

-- The requests, the table of tags and what was handed on are as they were.
abbrev pub SameRequests : Conn → Conn → Type 0
SameRequests s s' =
    (s'.requests ≡ s.requests) × (s'.reqs ≡ s.reqs) × (s'.reqout ≡ s.reqout) × (s'.ready ≡ s.ready)

abbrev pub same_requests : Change
same_requests = record {
  rel = SameRequests;
  unchanged = λ s. (refl, refl, refl, refl);
  chained = λ s t u (a, b, c, d) (a', b', c', d'). (a' ∙ a, b' ∙ b, c' ∙ c, d' ∙ d);
}

inc_ref-SameRequests : (p : FidPtr) → Keeps same_requests (inc_ref p)
unfolding inc_ref
inc_ref-SameRequests p s u s' h = ground arith

pub dec_ref-SameRequests : (ops : Ops) (p : FidPtr) → Keeps same_requests (dec_ref ops p)
unfolding dec_ref drop_fid
dec_ref-SameRequests ops p s u s' h = ground arith

pub dec_ref_of-SameRequests :
    (ops : Ops) (o : Option FidPtr) → Keeps same_requests (dec_ref_of ops o)
unfolding dec_ref_of dec_ref drop_fid
dec_ref_of-SameRequests ops o s u s' h = ground arith

auth_post-SameRequests : (q : Req) → Keeps same_requests (auth_post q)
unfolding auth_post inc_ref
auth_post-SameRequests q s u s' h = ground arith

attach_post-SameRequests : (q : Req) → Keeps same_requests (attach_post q)
unfolding attach_post inc_ref
attach_post-SameRequests q s u s' h = ground arith

walked-SameRequests : (q : Req) (n : FidPtr) → Keeps same_requests (walked q n)
unfolding walked inc_ref
walked-SameRequests q n s u s' h = ground arith

open_post-SameRequests : (q : Req) → Keeps same_requests (open_post q)
unfolding open_post set_opened
open_post-SameRequests q s u s' h = ground arith

create_post-SameRequests : (q : Req) → Keeps same_requests (create_post q)
unfolding create_post created
create_post-SameRequests q s u s' h = ground arith

read_post-SameRequests : (q : Req) → Keeps same_requests (read_post q)
unfolding read_post
read_post-SameRequests q s u s' h = ground arith

walk_post-SameRequests : (q : Req) → Keeps same_requests (walk_post q)
unfolding walk_post
walk_post-SameRequests q s u s' h = grind (arith, walked-SameRequests)

clunk_post-SameRequests : (ops : Ops) (q : Req) → Keeps same_requests (clunk_post ops q)
unfolding clunk_post
clunk_post-SameRequests ops q s u s' h = ground (arith, dec_ref_of-SameRequests ops q.fid s u s')

-- No Post handler touches a request, the table of tags or what was handed on, whatever the message
-- and its answer are.
pub post_handler-SameRequests : (ops : Ops) (q : Req) → Keeps same_requests (post_handler ops q)
unfolding post_handler remove_post
post_handler-SameRequests ops q s u s' h = ground (
  arith,
  auth_post-SameRequests q s u s',
  attach_post-SameRequests q s u s',
  walk_post-SameRequests q s u s',
  open_post-SameRequests q s u s',
  create_post-SameRequests q s u s',
  read_post-SameRequests q s u s',
  clunk_post-SameRequests ops q s u s',
  dec_ref_of-SameRequests ops q.fid s u s',
)
