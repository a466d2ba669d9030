-- ===== src/DataChannel/Channel/Outgoing.antt =====
-- The outgoing buffer and the resend timer, over every operation of the channel.
use awsocks.Prelude.{ℕ, List, [], ◌∷◌, Bytes}
use awsocks.Prelude.Maps.{bytes_key}
use awsocks.DataChannel.Channel.{Platform, DataChannel, close}
use awsocks.DataChannel.Channel.Send.{send_input_data, check_and_resend}
use awsocks.DataChannel.Channel.Receive.{process_message}

-- what is called on a channel: by the client, by the receiver, by the resend ticker, at the end
pub data Action : Type 0 where
  send_data : Bytes → Action
  receive_frame : Bytes → Action
  tick : Action
  shut : Action

module _ (p : Platform) where
  -- one call at a time `now`; the error that it returns is dropped
  unfoldable pub step : ℕ → Action → DataChannel p → DataChannel p
  step now (send_data payload) d = (send_input_data p now payload d).0
  step now (receive_frame bytes) d = (process_message p now bytes d).0
  step now tick d = check_and_resend p now d
  step now shut d = close p d

  unfoldable pub run : List (ℕ × Action) → DataChannel p → DataChannel p
  unfolding step
  run [] d = d
  run ((now, a) ∷ rest) d = run rest (step now a d)
