-- ===== src/Examples.antt =====
-- Concrete instances of the theorems, and the concrete libraries that they are evaluated with.
mod Libraries
mod StoreRuns
mod TextRuns
mod PairingRuns
mod WebauthRuns
mod ServerRuns
mod TransportRuns
mod BotRuns
mod ThreadRuns
mod MessageRuns
mod LifetimeRuns
mod AppRuns
