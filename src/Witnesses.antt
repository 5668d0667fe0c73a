-- ===== src/Witnesses.antt =====
-- Concrete runs of the modelled code, at which the theorems apply.
mod FinalityTests
mod AmountTests
mod LifecycleTests
mod MembershipTests
mod SplitTests
mod StoreTests
mod AccountTests
mod LedgerTests
mod ListenerTests
mod ServiceTests
