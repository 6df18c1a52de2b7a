-- ===== src/Webhook.antt =====
-- The package pkg/webhook.
pub mod Hex
pub mod Signature
pub mod Server
pub mod Store
pub mod Listener
pub mod Callback
pub mod Authentic
pub mod Creation
pub mod Lookup
pub mod Redeem
pub mod Issue
pub mod TokenHandler
pub mod Tokens
pub mod Client
pub mod Completion
pub mod Prompt
pub mod StoreExamples
pub mod PromptExamples
pub mod CompletionExamples
pub mod Examples
pub mod Contract
pub mod InForce
pub mod Refinement
pub mod RedisStore
