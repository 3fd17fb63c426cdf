-- ===== src/Dialog.antt =====
-- internal/signaling/dialog: the SIP dialogs. The SIP library (github.com/emiago/sipgo) is not
-- modelled: a request or response is a record of the parts that the code reads, and what its calls
-- return is an argument of the step that makes them.
pub mod State
pub mod Dialogs
pub mod Build
pub mod Manager
mod Tests
