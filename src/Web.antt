-- ===== src/Web.antt =====
-- The web console (webui/src): what its components show, what its controls send and how its state
-- changes, and the client side of the REST API.
pub mod View
pub mod Runtime
pub mod Format
pub mod Api
pub mod Parts
pub mod Cache
pub mod Rules
pub mod QueryLog
pub mod Layout
pub mod Upstream
pub mod Cards
pub mod Overview
