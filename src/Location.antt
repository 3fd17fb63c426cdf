-- ===== src/Location.antt =====
-- internal/signaling/location: the bindings of SIP users. Times are in nanoseconds, and one call
-- reads one `now`. The hash of `GenerateBindingID` (crypto/sha256) is a parameter; a q-value is in
-- thousandths, 0 where REGISTER gave none.
pub mod Binding
pub mod Store
mod Tests
