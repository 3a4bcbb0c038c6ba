-- ===== src/Srv/Handlers/Session.antt =====
-- The handlers of p/srv/fcall.go that set up a session: version, auth, attach and flush.
use chan.Prelude.{
  ℕ, zero, suc, ◌==◌, ltb, Bool, true, false, not, ◌&&◌, ◌||◌, Option, none, some, List, [], ◌∷◌,
  bit_or, if◌then◌else◌, length,
}
use chan.Wire.Types.{Bytes, Fcall, notag, nofid, nouid}
use chan.Wire.PackR.{pack_rversion, pack_rauth, pack_rflush}
use chan.Srv.State.{
  FidPtr, ReqPtr, User, unknown_fid, no_auth, in_use, no_user, msize_too_small, Call, Conn, Ops,
  answer, fail, stuck, Act, pure, ◌>>=◌, ◌>>◌, gets, modify, deref, get_fid, put_fid, get_req,
  put_req,
}
use chan.Srv.Fids.{call, fid_get, fid_new}
use chan.Srv.Respond
use chan.Srv.Respond.{lookup, respond, respond_error, respond_packed}

-- "9P2000.u"
abbrev pub dotu_version : Bytes
dotu_version = b'9' ∷ b'P' ∷ b'2' ∷ b'0' ∷ b'0' ∷ b'0' ∷ b'.' ∷ b'u' ∷ []

abbrev pub plain_version : Bytes
plain_version = b'9' ∷ b'P' ∷ b'2' ∷ b'0' ∷ b'0' ∷ b'0' ∷ []

unfoldable pub bytes_eq : Bytes → Bytes → Bool
bytes_eq [] [] = true
bytes_eq (x ∷ xs) (y ∷ ys) = x == y && bytes_eq xs ys
bytes_eq _ _ = false

-- `for rr := r; rr != nil; rr = rr.next { rr.status |= reqFlush }`
unfoldable pub flush_chain : ℕ → Option ReqPtr → Act (Unit {0})
flush_chain zero r = λ s. stuck
flush_chain (suc n) none = pure tt
flush_chain (suc n) (some r) = do
  q ← get_req r
  put_req r (record q { is_flush = true })
  flush_chain n q.next

unfoldable pub flush_tags : ℕ → List (ℕ × ReqPtr) → Act (Unit {0})
unfolding flush_chain
flush_tags n [] = pure tt
flush_tags n ((tag, r) ∷ m) = do
  if tag == notag then pure tt else flush_chain n (some r)
  flush_tags n m

-- The message size and the dialect that a Tversion settles.
unfoldable pub negotiated : Ops → Conn → Fcall → Conn
unfolding bytes_eq
negotiated ops s tc = record s {
  msize = if ltb tc.msize s.msize then tc.msize else s.msize;
  dotu = bytes_eq tc.version dotu_version && ops.srv_dotu;
}

unfoldable pub version : ℕ → Ops → ReqPtr → Act (Unit {0})
unfolding negotiated flush_tags
version n ops r = do
  q ← get_req r
  if ltb q.tc.msize 24 then respond_error n ops r msize_too_small else do
    modify λ s. negotiated ops s q.tc
    reqs ← gets (λ s. s.reqs)
    flush_tags n reqs
    msize ← gets (λ s. s.msize)
    dotu ← gets (λ s. s.dotu)
    respond_packed n ops r
        (λ rc. pack_rversion rc msize (if dotu then dotu_version else plain_version))

-- The user that Tauth and Tattach name, by number or by name.
unfoldable pub find_user : Ops → Bool → Fcall → Option User
find_user ops dotu tc =
    if not (tc.unamenum == nouid) || dotu
    then ops.uid2user tc.unamenum
    else if length tc.uname == 0
    then none
    else ops.uname2user tc.uname

unfoldable pub auth_user : ℕ → Ops → ReqPtr → FidPtr → Fcall → User → Act (Unit {0})
auth_user n ops r p tc user = do
  f ← get_fid p
  let f1 = record f { user = some user; type = 0x08 }
  put_fid p f1
  if ops.has_auth
      then elim (ops.auth_init f1 tc.aname) [
        | answer aqid ↦
            respond_packed n ops r
              (λ rc. pack_rauth rc (record aqid { type = bit_or aqid.type 0x08 }))
        | fail e ↦ respond_error n ops r e
      ]
      else respond_error n ops r no_auth

unfoldable pub auth : ℕ → Ops → ReqPtr → Act (Unit {0})
unfolding find_user auth_user
auth n ops r = do
  q ← get_req r
  if q.tc.afid == nofid then respond_error n ops r unknown_fid else do
    new ← fid_new q.tc.afid
    put_req r (record q { afid = new })
    dotu ← gets (λ s. s.dotu)
    elim new [
      | none ↦ respond_error n ops r in_use
      | some p ↦ elim (find_user ops dotu q.tc) [
        | none ↦ respond_error n ops r no_user
        | some user ↦ auth_user n ops r p q.tc user
      ]
    ]

-- `req.Fid.User = user` and what follows in attach
unfoldable pub attach_user : ℕ → Ops → ReqPtr → User → Act (Unit {0})
attach_user n ops r user = do
  q ← get_req r
  p ← deref q.fid
  f ← get_fid p
  let f1 = record f { user = some user }
  put_fid p f1
  afid ← elim q.afid [ none ↦ pure none | some a ↦ do g ← get_fid a; pure (some g) ]
  if ops.has_auth
      then elim (ops.auth_check f1 afid q.tc.aname) [
        | none ↦ call (Call.attach r)
        | some e ↦ respond_error n ops r e
      ]
      else call (Call.attach r)

-- `if tc.Afid != p.NOFID { … }`: there is no return behind the error.
unfoldable pub attach_afid : ℕ → Ops → ReqPtr → Fcall → Act (Unit {0})
attach_afid n ops r tc = if tc.afid == nofid then pure tt else (do
  afid ← fid_get tc.afid
  q ← get_req r
  put_req r (record q { afid = afid })
  elim afid [ none ↦ respond_error n ops r unknown_fid | some a ↦ pure tt ])

unfoldable pub attach : ℕ → Ops → ReqPtr → Act (Unit {0})
unfolding find_user attach_user attach_afid
attach n ops r = do
  q ← get_req r
  if q.tc.fid == nofid then respond_error n ops r unknown_fid else do
    new ← fid_new q.tc.fid
    put_req r (record q { fid = new })
    elim new [
      | none ↦ respond_error n ops r in_use
      | some p ↦ do
        attach_afid n ops r q.tc
        dotu ← gets (λ s. s.dotu)
        elim (find_user ops dotu q.tc) [
          | none ↦ respond_error n ops r no_user
          | some user ↦ attach_user n ops r user
        ]
    ]

-- The flush of a request that is found: answered at once, or left to the file server.
unfoldable pub flush_found : ℕ → Ops → ReqPtr → ReqPtr → Act (Unit {0})
flush_found n ops r old = do
  o ← get_req old
  q ← get_req r
  put_req r (record q { flushreq = o.flushreq })
  o1 ← get_req old
  put_req old (record o1 { flushreq = some r })
  o2 ← get_req old
  if o2.is_work || o2.is_saved
      then if ops.has_flush then call (Call.flush old) else pure tt
      else do put_req old (record o2 { is_flush = true }); respond n ops old

unfoldable pub flush : ℕ → Ops → ReqPtr → Act (Unit {0})
unfolding flush_found
flush n ops r = do
  q ← get_req r
  put_req r (record q { rc = Respond.unless_error (pack_rflush q.rc) q.rc })
  reqs ← gets (λ s. s.reqs)
  elim (lookup reqs q.tc.oldtag) [ none ↦ respond n ops r | some old ↦ flush_found n ops r old ]
