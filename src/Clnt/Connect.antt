-- ===== src/Clnt/Connect.antt =====
-- Connect, p/clnt/clnt.go, from the request for a version on.
mod Examples
use chan.Prelude.{
  ◌+◌, ◌≤◌, ◌&&◌, ◌⊎◌, [], Bool, true, ltb, leb, ◌≡◌, Option, none, some, [], if◌then◌else◌,
}
use mathlib.Core.Path.{subst}
use chan.Prelude.Run.{Outcome}
use chan.Wire.Result
use chan.Wire.Result.{bind-Ran, ok-injective}
use chan.Wire.Types
use chan.Wire.Types.{Bytes, Fcall, zero_fcall}
use chan.Wire.Pack.{new_fcall, zeros, pack, pack_common, commit}
use chan.Wire.PackT.{pack_tversion}
use chan.Srv.State.{Conn, Ops}
use chan.Srv.Handlers.Session.{negotiated, bytes_eq, dotu_version, plain_version}
use chan.Clnt.Rpc.{ClntError}
use chan.Wire.Ints.{pint32, pstr, ◌⟫◌}
use chan.Clnt.Calls.{
  CallError, rpc_failed, Answer, returns, fails, Reply, back, Session, Call, pure, fail, ◌>>=◌,
  ◌>>◌, gets, modify, deref, packed, rpc, free_fcall,
}

abbrev pub version_of : Bool → Bytes
version_of dotu = if dotu then dotu_version else plain_version

-- `if rc.Msize < clnt.Msize { … }`, and the dialect
abbrev pub agreed : {W : Type 0} → Fcall → Session W → Session W
agreed rc s = record s {
  msize = if ltb rc.msize s.msize then rc.msize else s.msize;
  dotu = bytes_eq rc.version dotu_version && s.dotu;
}

module _ {W : Type 0} (remote : Fcall → W → Reply × W) where
  abbrev pub settled : Option Fcall × Option ClntError → Call W (Unit {0})
  settled (rc, some e) = fail (rpc_failed e)
  settled (rc, none) = do r ← deref rc; modify (agreed r)

  unfoldable pub connect : Call W (Unit {0})
  unfolding pack_tversion rpc bytes_eq
  connect = do
    msize ← gets (λ s. s.msize)
    dotu ← gets (λ s. s.dotu)
    tc ← packed (pack_tversion (new_fcall msize) msize (version_of dotu))
    reply ← rpc remote tc
    settled reply

-- What the client has agreed to, and what it had before: no larger messages than either side has, but
-- as large as one of them has; and 9P2000.u exactly where both sides have it.
abbrev pub Agreed : {W : Type 0} → Session W → Fcall → Session W → Type 0
Agreed s rc s' =
    (s'.msize ≤ s.msize)
    × (s'.msize ≤ rc.msize)
    × ((s'.msize ≡ s.msize) ⊎ (s'.msize ≡ rc.msize))
    × (s'.dotu ≡ true → (s.dotu ≡ true) × (rc.version ≡ dotu_version))
    × (s.dotu ≡ true → rc.version ≡ dotu_version → s'.dotu ≡ true)

-- Connect returns and has agreed with the response, or it fails and has the size of the messages and the
-- dialect as they were.
abbrev pub Connected : {W : Type 0} → Session W → Reply → Answer (Unit {0}) → Session W → Type 0
Connected s reply (returns _) s' = (rc : Fcall) × (reply ≡ back (some rc) none) × Agreed s rc s'
Connected s reply (fails e) s' = (s'.msize ≡ s.msize) × (s'.dotu ≡ s.dotu)
