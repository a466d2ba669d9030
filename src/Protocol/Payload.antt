-- ===== src/Protocol/Payload.antt =====
-- internal/protocol/protocol.go: the messages that the code builds, and the text of their payloads.
use awsocks.Prelude.{
  ℕ, ◌≡◌, ◌≢◌, refl, ◌↔◌, [], ◌∷◌, ◌++◌, arith, Option, none, some, ◌==◌, if◌then◌else◌, Bytes, All,
  codes, decimal,
}
use awsocks.Protocol.{
  Message, connect_ack, connect_direct, data_type, close_type, error_type, ping, pong, shutdown,
  log_type,
}

-- NewConnectDirectMessage: "%s:%s"
unfoldable pub connect_direct_message : ℕ → Bytes → Bytes → Message
connect_direct_message conn_id network address = record {
  type = connect_direct;
  conn_id = conn_id;
  payload = network ++ (b':' ∷ address);
}

-- NewDataMessage
unfoldable pub data_message : ℕ → Bytes → Message
data_message conn_id bytes = record { type = data_type; conn_id = conn_id; payload = bytes }

-- NewCloseMessage
unfoldable pub close_message : ℕ → Message
close_message conn_id = record { type = close_type; conn_id = conn_id; payload = [] }

-- NewErrorMessage: "%d:%s", for a code that is not negative
unfoldable pub error_message : ℕ → ℕ → Bytes → Message
error_message conn_id code message = record {
  type = error_type;
  conn_id = conn_id;
  payload = decimal code ++ (b':' ∷ message);
}

-- ParseConnectPayload: the text before and behind the first ':', or an error
unfoldable pub parse_connect_payload : Bytes → Option (Bytes × Bytes)
parse_connect_payload [] = none
parse_connect_payload (c ∷ s) =
    let rest = parse_connect_payload s in
    if c == b':'
    then some ([], s)
    else elim rest [ none ↦ none | some (network, address) ↦ some (c ∷ network, address) ]

-- MessageType.String
unfoldable pub type_name : ℕ → Bytes
type_name t =
    if t == connect_ack
    then codes "ConnectAck"
    else if t == data_type
    then codes "Data"
    else if t == close_type
    then codes "Close"
    else if t == error_type
    then codes "Error"
    else if t == connect_direct
    then codes "ConnectDirect"
    else if t == ping
    then codes "Ping"
    else if t == pong
    then codes "Pong"
    else if t == shutdown
    then codes "Shutdown"
    else if t == log_type
    then codes "Log"
    else codes "Unknown(" ++ (decimal t ++ (b')' ∷ []))

-- A text with no ':'.
abbrev pub NoColon : Bytes → Type 0
NoColon = All (λ c. c ≢ b':')

-- The payload of a connect request is parsed back into the network and the address that the
-- request was made of, whenever the network's name has no ':' (the address may have some).
pub parse-connect_direct_message :
    (conn_id : ℕ) (network address : Bytes)
    → NoColon network
    → parse_connect_payload (connect_direct_message conn_id network address).payload
      ≡ some (network, address)
unfolding parse_connect_payload connect_direct_message
parse-connect_direct_message i [] address h = refl
parse-connect_direct_message i (c ∷ s) address (ne, h) =
    ground (arith, parse-connect_direct_message i s address h)

-- a payload that does not parse has no ':'
pub parse_connect_payload-none : (s : Bytes) → (parse_connect_payload s ≡ none) ↔ NoColon s
unfolding parse_connect_payload
parse_connect_payload-none [] = (λ _. tt, λ _. refl)
parse_connect_payload-none (c ∷ s) = (
  λ h. ground (arith, parse_connect_payload-none s),
  λ h. ground (arith, parse_connect_payload-none s),
)
