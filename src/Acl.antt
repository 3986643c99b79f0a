-- ===== src/Acl.antt =====
-- extras/outbounds/acl and extras/outbounds/acl.go: the access control list that picks the outbound of a
-- request. A text is the list of its bytes, a byte slice the list of its elements; a nil slice is empty.
pub mod Ip
mod Runs
pub mod Texts
pub mod GeoSite
pub mod GeoIp
pub mod Matchers
pub mod Rules
pub mod Parse
pub mod Compile
pub mod Engine
