-- ===== src/Broker/Paper.antt =====
-- internal/broker/paper/paper.go: the broker for paper trading. A method takes the broker and returns
-- the new one. An order is filled by a goroutine of its own: `running` lists those that have not
-- finished, and a fill is a step of its own, at any time after the placement. The clock's value is an
-- argument `now`. A panic in a fill ends the program, so the state after it is left out.
pub mod Account
pub mod Positions
pub mod Orders
pub mod Net
pub mod Calls
pub mod Cash
pub mod Cancel
pub mod Keyed
pub mod Mark
