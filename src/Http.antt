-- ===== src/Http.antt =====
-- api/http: the handlers of requests that are answered at once, and the origins that a websocket may
-- come from.
pub mod Status
pub mod Origins
pub mod Authorization
pub mod Replies
pub mod Commands
pub mod Devices
pub mod Tenants
