-- ===== src/Channel/Opening.antt =====
-- src/channel/mod.rs, src/channel/direct.rs and `get_rmux_stream` of src/channel/rmux.rs: the other
-- end of a relay. Whether `TcpStream::connect` succeeds in time is an argument.
use Prim.Native.String.{String}
use text.Mathlib.Text.{◌==◌ as str_eq}
use rsnova.Base.{ℕ, Bool, Option, none, some, List, if◌then◌else◌}
use rsnova.Base.Text.{codes}
use rsnova.Base.Outcome.{Outcome, ok, err, other, failed}
use rsnova.Message.{ConnectRequest}
use rsnova.Session.{ChannelSessionManager}
use rsnova.Session.Create.{Created, create_stream}

-- A connection to the address itself, or a stream of a session.
pub data ChannelStream : Type 0 where
  connection : List ℕ → ChannelStream
  multiplexed : Created → ChannelStream

unfoldable pub get_direct_stream : Bool → List ℕ → Outcome ChannelStream
get_direct_stream connects addr = if connects then ok (connection addr) else err failed

abbrev pub or_no_channel : Option Created → Outcome ChannelStream
or_no_channel none = err (other "no channel found.")
or_no_channel (some x) = ok (multiplexed x)

module _ (serialize : ConnectRequest → List ℕ) where
  unfoldable pub get_rmux_stream :
      ChannelSessionManager → String → List ℕ → ChannelSessionManager × Outcome ChannelStream
  get_rmux_stream m channel addr =
      let (m', created) = create_stream serialize m channel (codes "tcp") addr in
      (m', or_no_channel created)

  unfoldable pub get_channel_stream :
      ChannelSessionManager → Bool → String → List ℕ → ChannelSessionManager × Outcome ChannelStream
  unfolding get_direct_stream get_rmux_stream
  get_channel_stream m connects channel addr =
      if str_eq channel "direct"
      then (m, get_direct_stream connects addr)
      else get_rmux_stream m channel addr
