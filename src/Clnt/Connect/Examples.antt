-- ===== src/Clnt/Connect/Examples.antt =====
-- A client that connects with messages of 8216 bytes, to a server that has 8192 and knows 9P2000 only.
use chan.Prelude.{ℕ, suc, true, none, some, []}
use chan.Wire.Types
use chan.Wire.Types.{Fcall, zero_fcall}
use chan.Srv.Handlers.Session.{plain_version}
use chan.Clnt.Calls.{Reply, back, Session}

abbrev fresh : Session ℕ
fresh = record {
  world = 0;
  msize = 8216;
  dotu = true;
  root = none;
  fidpool = record { need = 0; maxid = 0xffffffff; imap = [] };
  tchan = [];
  fids = λ p. none;
  next_fid = 0;
}

abbrev plain : Fcall → ℕ → Reply × ℕ
plain tc n = (
  back (some (record zero_fcall { type = Types.rversion; msize = 8192; version = plain_version }))
      none,
  suc n,
)
