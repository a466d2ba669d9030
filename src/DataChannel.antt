-- ===== src/DataChannel.antt =====
-- internal/backend/ssm/datachannel: the channel to the SSM agent.
pub mod Message
pub mod Channel
