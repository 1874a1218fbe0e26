-- ===== src/Examples.antt =====
-- Concrete inputs on which the theorems apply.
mod Fixed
mod Exits
mod Throttle
mod Pending
mod Entry
mod Macro
mod Gateway
mod Purchases
mod Sales
mod Sheets
mod Selected
mod Levels
mod Building
mod Entering
mod Ticks
mod Tracked
mod Pathway
mod Consuming
