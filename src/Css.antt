-- ===== src/Css.antt =====
-- packages/css/src: the plugin of the Community Solid Server, which is the resource server.
pub mod Scopes
pub mod Reader
pub mod Pats
pub mod Client
pub mod Owners
pub mod Authorizer
pub mod Extractor
pub mod Parents
