-- ===== src/Writer.antt =====
-- services/actuation-signal-publisher/src/actuation_signal_publisher: the worker that writes approved
-- commands to the devices. `World` is its state and environment, `Native` the device protocols
-- (native.py), `Handler` the handler of act.work.write_signal (service.py).
pub mod World
pub mod Native
pub mod Handler
pub mod Order
pub mod Writes
pub mod Settle
pub mod Execute
pub mod Process
pub mod Safety
pub mod Approval
